-- ===== src/Connection/Pace.antt =====
-- `packData` of UDT4/src/udt_core.cpp, with NO_BUSY_WAITING as UDT4/src/udt.h has it. `none` is a loop
-- of the buffer or of the loss list that does not end.
use uvudt.Common.{
  ℕ, ◌+◌, ◌-◌, ◌%◌, ◌^◌, Bool, false, not, ◌&&◌, Option, none, some, ltb, leb, ◌==◌, length,
  if◌then◌else◌,
}
use uvudt.Common.Int.{ℤ, pos, pos_part, ltb_ℤ, leb_ℤ, to_word, minus_one}
use uvudt.Seqno.{seqcmp, seqoff, seqlen, incseq, incseq_by}
use uvudt.Packet.{Packet, set_mac}
use uvudt.SndBuffer.{Block, resend, expired, read_data, read_data_at}
use uvudt.SndLossList.{SndLossList, get_lost_seq, remove}
use uvudt.Connection.Control.{send_drop}
use uvudt.Connection.{
  Env, Cudt, emit, tell_cc, since, counts, retrans, sent_pkt, on_pkt_sent, set_snd_curr_seq_no,
}

-- What `packData` leaves: its return value, the packet, `ts`, and the connection.
pub record Packed (C : Type 0) : Type 0 where
  pub payload : ℕ
  pub packet : Packet
  pub ts : ℕ
  pub conn : Cudt C

abbrev pub with_numbers : Packet → ℕ → ℕ → Packet
with_numbers p seqno msg_no = record p {
  header = record {
    word0 = seqno;
    word1 = msg_no;
    word2 = p.header.word2;
    word3 = p.header.word3;
    word4 = p.header.word4;
  };
}

abbrev pub with_block : Packet → ℤ → Block → Packet
with_block p seqno b = record (with_numbers p (to_word seqno) b.msg_no) { base = some b.pc_data }

module _ {C : Type 0} where
  abbrev pub idle : Packet → ℕ → Cudt C → Packed C
  idle p ts c = record { payload = 0; packet = p; ts = ts; conn = c }

  -- Nothing goes out, and the schedule is reset.
  unfoldable pub rest : Packet → Cudt C → Packed C
  rest p c = record {
    payload = 0;
    packet = p;
    ts = 0;
    conn = record c { target_time = 0; time_diff = 0 };
  }

  -- `cwnd`
  unfoldable pub send_window : Cudt C → ℤ
  send_window c =
      if ltb_ℤ c.flow_window_size c.congestion_window
      then c.flow_window_size
      else c.congestion_window

module _ {Key C : Type 0} (env : Env Key C) (now wall : ℕ) where
  -- The time that is behind the schedule.
  unfoldable pub enter : Cudt C → Cudt C
  enter c = record c {
    time_diff =
        if not (c.target_time == 0) && ltb c.target_time now
        then c.time_diff + (now - c.target_time)
        else c.time_diff;
  }

  -- The time of the next packet, and what is left of the time behind.
  unfoldable pub pace : Bool → Cudt C → ℕ × ℕ
  pace probe c =
      if probe
      then (now, c.time_diff)
      else if leb c.interval c.time_diff
      then (now, c.time_diff - c.interval)
      else (now + c.interval - c.time_diff, 0)

  unfoldable pub seal : Packet → ℕ → Packet
  seal p payload =
      let addressed = record p {
        header = record {
          word0 = p.header.word0;
          word1 = p.header.word1;
          word2 = since wall env.start_time % 2 ^ 32;
          word3 = env.peer_id;
          word4 = p.header.word4;
        };
        len = payload;
      } in
      if ltb 1 env.sec_mod then set_mac env.md5 addressed env.sec_key else addressed

  -- The end of `packData`, for a packet with a payload.
  unfoldable pub finish : Packet → ℕ → Bool → Cudt C → Packed C
  unfolding pace seal tell_cc emit
  finish p payload probe c =
      let sealed = seal p payload in
      let (ts, behind) = pace probe c in
      record {
        payload = payload;
        packet = sealed;
        ts = ts;
        conn =
            emit (counts sent_pkt (pos 1)) (
              tell_cc env (on_pkt_sent sealed) (record c { time_diff = behind; target_time = ts }));
      }

  -- The message of the packet has expired: the peer is told, and the packets are skipped.
  unfoldable pub give_up : ℤ → ℕ → ℕ → Cudt C → Option (Cudt C)
  give_up first msg_no msglen c =
      let last = incseq_by first (pos msglen) in
      elim (send_drop env msg_no first last c) [
        | none ↦ none
        | some sent ↦ elim (remove sent.snd_loss_list last) [
          | none ↦ none
          | some losses ↦ some (record sent {
            snd_loss_list = losses;
            snd_curr_seq_no =
                if ltb_ℤ (seqcmp c.snd_curr_seq_no (incseq last)) (pos 0)
                then incseq last
                else c.snd_curr_seq_no;
          })
        ]
      ]

  -- The packet `seqno` goes out again.
  unfoldable pub retransmit : Packet → ℕ → ℤ → Cudt C → Option (Packed C)
  unfolding give_up finish emit
  retransmit p ts seqno c =
      let offset = seqoff c.snd_last_data_ack seqno in
      if ltb_ℤ offset (pos 0)
      then some (idle p ts c)
      else elim (read_data_at c.snd_buffer (pos_part offset) wall) [
        | none ↦ none
        | some (expired msg_no msglen, buffer) ↦
            elim (give_up seqno msg_no msglen (record c { snd_buffer = buffer })) [
              | none ↦ none
              | some c' ↦ some (idle (with_numbers p (to_word seqno) msg_no) ts c')
            ]
        | some (resend b, buffer) ↦
            if length b.pc_data == 0
            then some (idle (with_block p seqno b) ts (record c { snd_buffer = buffer }))
            else some (
                finish (with_block p seqno b) (length b.pc_data) false
                  (emit (counts retrans (pos 1)) (record c { snd_buffer = buffer })))
      ]

  -- A block of the buffer goes out for the first time. Every sixteenth packet is the first of a pair.
  unfoldable pub transmit : Packet → Block → Cudt C → Packed C
  unfolding finish rest tell_cc
  transmit p b c =
      let seqno = incseq c.snd_curr_seq_no in
      if length b.pc_data == 0
      then rest (with_block p minus_one b) c
      else finish (with_block p seqno b) (length b.pc_data) (pos_part seqno % 16 == 0)
          (tell_cc env (set_snd_curr_seq_no seqno) (record c { snd_curr_seq_no = seqno }))

  unfoldable pub pack_new : Packet → Cudt C → Packed C
  unfolding send_window rest transmit
  pack_new p c =
      let flight = seqlen c.snd_last_ack (incseq c.snd_curr_seq_no) in
      let (block, buffer) = read_data c.snd_buffer in
      if leb_ℤ flight (send_window c)
      then elim block [ none ↦ rest p c | some b ↦ transmit p b (record c { snd_buffer = buffer }) ]
      else rest p c

  -- `getLostSeq` has given a number to send again, or -1.
  unfoldable pub pack_lost : Packet → ℕ → Cudt C → ℤ × SndLossList → Option (Packed C)
  unfolding retransmit pack_new
  pack_lost p ts c (seqno, losses) =
      let taken = record c { snd_loss_list = losses } in
      let asked = with_numbers p (to_word seqno) p.header.word1 in
      if leb_ℤ (pos 0) seqno then retransmit asked ts seqno taken else some (pack_new asked taken)

  unfoldable pub pack_data : Packet → ℕ → Cudt C → Option (Packed C)
  unfolding enter pack_lost
  pack_data p ts c = pack_lost p ts (enter c) (get_lost_seq c.snd_loss_list)
