-- ===== src/Connection/Control.antt =====
-- `sendCtrl` of UDT4/src/udt_core.cpp, a function for each of its cases. `none` is a read through NULL
-- in `pack`.
use uvudt.Common.{
  ℕ, ◌+◌, ◌*◌, ◌/◌, ◌%◌, ◌^◌, Bool, true, ◌&&◌, Option, none, some, List, [], ◌∷◌, ltb, ◌==◌,
  if◌then◌else◌, length,
}
use uvudt.Common.Int.{ℤ, pos, pos_part, ◌+ℤ◌, ◌==ℤ◌, ltb_ℤ, scale, to_word}
use uvudt.Seqno.{seqcmp, seqoff, incseq, incack}
use uvudt.Packet.{Packet, pack, set_mac}
use uvudt.RcvBuffer.{ack_data, get_avail_buf_size}
use uvudt.RcvLossList.{get_loss_length, get_first_lost_seq, get_loss_array}
use uvudt.PktTimeWindow.{get_pkt_rcv_speed, get_bandwidth}
use uvudt.AckWindow.{store}
use uvudt.Connection.Wire.{int_bytes}
use uvudt.Connection.{
  Env, Cudt, emit, emit_if, since, cycles, syn_interval, send_to, poll_events, feed_osfd,
  signal_recv, counts, sent_ack, sent_nak,
}

-- UDT_EPOLL_IN
abbrev pub poll_in : ℕ
poll_in = 1

-- `data[3]`: at least 2.
unfoldable pub offered_window : {C : Type 0} → Cudt C → ℕ
offered_window c = let free = get_avail_buf_size c.rcv_buffer in if ltb free 2 then 2 else free

-- The number that an ACK reports.
unfoldable pub ack_number : {C : Type 0} → Cudt C → ℤ
ack_number c =
    if get_loss_length c.rcv_loss_list ==ℤ pos 0
    then incseq c.rcv_curr_seq_no
    else get_first_lost_seq c.rcv_loss_list

module _ {Key C : Type 0} (env : Env Key C) where
  -- `setMAC` in secure mode, and `sendto`.
  unfoldable pub send_packet : Packet → Cudt C → Cudt C
  unfolding emit
  send_packet p c = emit (send_to (if env.sec_mod == 0 then p else set_mac env.md5 p env.sec_key)) c

  -- `ctrlpkt` before `pack`.
  pub blank : ℕ → Packet
  blank msg_no = record {
    header = record { word0 = 0; word1 = msg_no; word2 = 0; word3 = env.peer_id; word4 = 0 };
    base = none;
    len = 0;
  }

  unfoldable pub send_control : ℕ → Option ℕ → Option (List ℕ) → ℕ → Cudt C → Option (Cudt C)
  unfolding send_packet blank
  send_control pkttype lparam rparam size c = elim (pack (blank 0) pkttype lparam rparam size) [
    | none ↦ none
    | some p ↦ some (send_packet p c)
  ]

  -- Case 2 with size 4.
  unfoldable pub send_light_ack : Cudt C → Option (Cudt C)
  unfolding ack_number send_control
  send_light_ack c =
      if ack_number c ==ℤ c.rcv_last_ack_ack
      then some c
      else send_control 2 none (some (int_bytes (ack_number c ∷ []))) 4 c

  -- New packets are acknowledged, and the reader is told.
  unfoldable pub deliver : ℤ → Cudt C → Cudt C
  unfolding emit emit_if
  deliver ack c =
      let c' = record c {
        rcv_last_ack = ack;
        rcv_buffer = ack_data c.rcv_buffer (pos_part (seqoff c.rcv_last_ack ack));
      } in
      let woken = emit_if env.syn_recving signal_recv c' in
      emit feed_osfd (emit (poll_events poll_in true) woken)

  -- `data`, with the estimates in every ACK that comes a SYN interval after the last such one.
  pub ack_words : Bool → Cudt C → List ℤ
  unfolding offered_window
  ack_words full c =
      c.rcv_last_ack
      ∷ c.rtt
      ∷ c.rtt_var
      ∷ pos (offered_window c)
      ∷ (if full
          then pos (get_pkt_rcv_speed env.nth c.rcv_time_window)
            ∷ pos (get_bandwidth env.nth c.rcv_time_window)
            ∷ []
          else [])

  module _ (now wall : ℕ) where
    -- The ACK goes out unless the sender is known to have it.
    unfoldable pub report_ack : Cudt C → Option (Cudt C)
    unfolding send_control ack_words emit
    report_ack c =
        let seq = incack c.ack_seq_no in
        let full = ltb (syn_interval * env.cpu_frequency) (since now c.last_ack_time) in
        if ltb_ℤ (pos 0) (seqcmp c.rcv_last_ack c.rcv_last_ack_ack)
        then elim (send_control 2 (some (to_word seq)) (some (int_bytes (ack_words full c)))
            (if full then 24 else 16)
            (record c {
              ack_seq_no = seq;
              last_ack_time = if full then now else c.last_ack_time;
            })) [
              | none ↦ none
              | some sent ↦ some (
                  emit (counts sent_ack (pos 1))
                    (record sent { ack_window = store sent.ack_window seq sent.rcv_last_ack wall }))
            ]
        else some c

    -- Case 2 with size 0.
    unfoldable pub send_ack : Cudt C → Option (Cudt C)
    unfolding ack_number deliver report_ack
    send_ack c =
        let ack = ack_number c in
        let wait = cycles (c.rtt +ℤ scale 4 c.rtt_var) env.cpu_frequency in
        if ack ==ℤ c.rcv_last_ack_ack
        then some c
        else if ltb_ℤ (pos 0) (seqcmp ack c.rcv_last_ack)
        then report_ack (deliver ack c)
        else if ack ==ℤ c.rcv_last_ack
        then (if ltb (since now c.last_ack_time) wait then some c else report_ack c)
        else some c

  -- Case 6.
  unfoldable pub send_ack2 : ℤ → Cudt C → Option (Cudt C)
  unfolding send_control
  send_ack2 ack c = send_control 6 (some (to_word ack)) none 0 c

  -- The time to the next NAK. `m_ullMinNakInt` is 300 milliseconds.
  unfoldable pub next_nak : Cudt C → Cudt C
  next_nak c =
      let speed = get_pkt_rcv_speed env.nth c.rcv_time_window in
      let lost = pos_part (get_loss_length c.rcv_loss_list) in
      let base = cycles (c.rtt +ℤ scale 4 c.rtt_var) env.cpu_frequency in
      let interval =
        if ltb 0 speed
        then (base + lost * 1_000_000 / speed * env.cpu_frequency) % 2 ^ 64
        else base in
      let least = 300_000 * env.cpu_frequency in
      record c { nak_int = if ltb interval least then least else interval }

  unfoldable pub send_losses : List ℕ → ℕ → Cudt C → Option (Cudt C)
  unfolding send_control emit
  send_losses words size c = elim (send_control 3 none (some words) size c) [
    | none ↦ none
    | some sent ↦ some (emit (counts sent_nak (pos 1)) sent)
  ]

  -- What case 3 sends: `rparam` is one number or range, or NULL for all numbers of the list.
  unfoldable pub report_losses : Option (ℤ × ℤ) → ℕ → Cudt C → Option (Cudt C)
  unfolding send_losses
  report_losses (some (first, last)) size c =
      if size == 1
      then send_losses (int_bytes (last ∷ [])) 4 c
      else send_losses (int_bytes (first ∷ last ∷ [])) 8 c
  report_losses none size c =
      let words = get_loss_array c.rcv_loss_list (pos (env.payload_size / 4)) in
      if ltb_ℤ (pos 0) (get_loss_length c.rcv_loss_list) && ltb 0 (length words)
      then send_losses (int_bytes words) (length words * 4) c
      else some c

  unfoldable pub send_nak : Option (ℤ × ℤ) → ℕ → Cudt C → Option (Cudt C)
  unfolding report_losses next_nak
  send_nak rparam size c = elim (report_losses rparam size c) [
    | none ↦ none
    | some sent ↦ some (next_nak sent)
  ]

  -- Case 4.
  pub send_warning : ℕ → Cudt C → Option (Cudt C)
  unfolding send_control
  send_warning now c = elim (send_control 4 none none 0 c) [
    | none ↦ none
    | some sent ↦ some (record sent { last_warning_time = now })
  ]

  -- Case 1, with the cookie as the message number.
  pub send_keep_alive : Cudt C → Option (Cudt C)
  unfolding send_packet blank
  send_keep_alive c = elim (pack (blank env.cookie) 1 none none 0) [
    | none ↦ none
    | some p ↦ some (send_packet p c)
  ]

  -- Case 5.
  pub send_shutdown : Cudt C → Option (Cudt C)
  unfolding send_control
  send_shutdown c = send_control 5 none none 0 c

  -- Case 7: the number of the message, and its first and last packet.
  pub send_drop : ℕ → ℤ → ℤ → Cudt C → Option (Cudt C)
  unfolding send_control
  send_drop msg_no first last c =
      send_control 7 (some msg_no) (some (int_bytes (first ∷ last ∷ []))) 8 c

  -- Case 8.
  pub send_error : ℕ → Cudt C → Option (Cudt C)
  unfolding send_control
  send_error code c = send_control 8 (some code) none 0 c
