-- ===== src/Connection/Receive.antt =====
-- `processData` of UDT4/src/udt_core.cpp. `none` is a loss list whose loops do not end.
use uvudt.Common.{
  ℕ, ◌+◌, ◌%◌, Bool, true, false, ◌||◌, Option, none, some, [], ltb, ◌==◌, not, take, if◌then◌else◌,
}
use uvudt.Common.Int.{ℤ, pos, pos_part, ◌-ℤ◌, ◌==ℤ◌, ltb_ℤ, leb_ℤ}
use uvudt.Seqno.{seqcmp, seqoff, seqlen, incseq, decseq}
use uvudt.Packet.{Packet, get_msg_seq, get_length, chk_mac}
use uvudt.PktTimeWindow.{on_pkt_arrival, probe1_arrival, probe2_arrival}
use uvudt.RcvBuffer.{RcvUnit, add_data, get_avail_buf_size}
use uvudt.RcvLossList.{insert, remove, mark}
use uvudt.Connection.Control.{send_nak}
use uvudt.Connection.{Env, Cudt, emit, tell_cc, counts, rcv_loss, recv_pkt, on_pkt_received}

-- `m_iSeqNo`; the flag bit of a data packet is 0.
abbrev pub seq_no : Packet → ℤ
seq_no p = pos p.header.word0

-- The unit of the shared queue with the number `id`.
pub unit_of : ℕ → Packet → RcvUnit
unit_of id p = record {
  id = id;
  flag = 0;
  pc_data = elim p.base [ none ↦ [] | some bytes ↦ take p.len bytes ];
  msg_no = get_msg_seq p;
}

module _ {Key C : Type 0} (env : Env Key C) (now wall : ℕ) where
  -- What every packet that passes the MAC does: the timers, the congestion control and the windows.
  unfoldable pub note_arrival : Packet → Cudt C → Cudt C
  unfolding tell_cc emit
  note_arrival p c =
      let told =
        tell_cc env (on_pkt_received p) (record c { exp_count = 1; last_rsp_time = now }) in
      let w = on_pkt_arrival told.rcv_time_window wall in
      emit (counts recv_pkt (pos 1)) (record told {
        pkt_count = told.pkt_count + 1;
        rcv_time_window =
            if p.header.word0 % 16 == 0
            then probe1_arrival w wall
            else if p.header.word0 % 16 == 1
            then probe2_arrival w wall
            else w;
      })

  -- A gap before the packet is lost, and reported at once.
  unfoldable pub detect_loss : ℤ → Cudt C → Option (Cudt C)
  unfolding emit
  detect_loss seqno c =
      let first = incseq c.rcv_curr_seq_no in
      let last = decseq seqno in
      let noted = record c { rcv_loss_list = insert c.rcv_loss_list first last } in
      let loss = seqlen c.rcv_curr_seq_no seqno -ℤ pos 2 in
      let sent = send_nak env (some (mark first, last)) (if first ==ℤ last then 1 else 2) noted in
      if ltb_ℤ (pos 0) (seqcmp seqno first)
      then elim sent [ none ↦ none | some c' ↦ some (emit (counts rcv_loss loss) c') ]
      else some c

  -- The largest number, or a number that is lost no more.
  unfoldable pub note_seqno : ℤ → Cudt C → Option (Cudt C)
  note_seqno seqno c =
      if ltb_ℤ (pos 0) (seqcmp seqno c.rcv_curr_seq_no)
      then some (record c { rcv_curr_seq_no = seqno })
      else elim (remove c.rcv_loss_list seqno) [
        | none ↦ none
        | some (found, losses) ↦ some (record c { rcv_loss_list = losses })
      ]

  -- The packet is in the buffer.
  unfoldable pub note_data : Packet → Cudt C → Option (Cudt C)
  unfolding detect_loss note_seqno
  note_data p c = elim (detect_loss (seq_no p) c) [
    | none ↦ none
    | some c' ↦ note_seqno (seq_no p) (record c' {
      next_ack_time = if not (get_length p == env.payload_size) then now else c'.next_ack_time;
    })
  ]

  -- `false` stands for the return value -1: the packet is not taken.
  unfoldable pub take_packet : ℕ → Packet → Cudt C → Option (Bool × Cudt C)
  unfolding note_data
  take_packet id p c =
      let offset = seqoff c.rcv_last_ack (seq_no p) in
      let (added, buffer) = add_data c.rcv_buffer (unit_of id p) (pos_part offset) in
      if ltb_ℤ offset (pos 0) || leb_ℤ (pos (get_avail_buf_size c.rcv_buffer)) offset
      then some (false, c)
      else if added
      then elim (note_data p (record c { rcv_buffer = buffer })) [
        | none ↦ none
        | some c' ↦ some (true, c')
      ]
      else some (false, record c { rcv_buffer = buffer })

  -- `chkMAC` has given its verdict, and the packet that it leaves.
  unfoldable pub take_checked : ℕ → Cudt C → ℤ × Packet → Option (Bool × Cudt C)
  unfolding note_arrival take_packet
  take_checked id c (verdict, checked) =
      if verdict ==ℤ pos 0 then some (false, c) else take_packet id checked (note_arrival checked c)

  unfoldable pub process_data : ℕ → Packet → Cudt C → Option (Bool × Cudt C)
  unfolding take_checked
  process_data id p c =
      if ltb 1 env.sec_mod
      then take_checked id c (chk_mac env.md5 p env.sec_key)
      else take_packet id p (note_arrival p c)
