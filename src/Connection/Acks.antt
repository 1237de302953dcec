-- ===== src/Connection/Acks.antt =====
-- `processCtrl` of UDT4/src/udt_core.cpp for ACKs and ACK-2s. `none` is a read outside the payload, or
-- a loss list whose loops do not end. The sums of the sending times are left out.
use uvudt.Common.{ℕ, true, ◌||◌, Option, none, some, ◌∷◌, ltb, ◌==◌, if◌then◌else◌}
use uvudt.Common.Int.{
  ℤ, pos, pos_part, ◌+ℤ◌, ◌-ℤ◌, ◌==ℤ◌, ltb_ℤ, leb_ℤ, abs, scale, shift_right, to_int,
}
use uvudt.Seqno.{seqcmp, seqoff, incseq, decseq}
use uvudt.Packet.{Packet, get_ack_seq_no, get_length}
use uvudt.SndBuffer.{ack_data}
use uvudt.SndLossList.{remove}
use uvudt.AckWindow.{acknowledge}
use uvudt.Connection.Wire.{load}
use uvudt.Connection.Control.{send_ack2}
use uvudt.Connection.{
  Env, Cudt, emit, emit_if, mark_broken, tell_cc, cc_update, since, syn_interval, schedule,
  poll_events, feed_osfd, trigger_event, signal_send, counts, recv_ack, on_ack, set_rtt,
  set_rcv_rate, set_bandwidth,
}

-- UDT_EPOLL_OUT
abbrev pub poll_out : ℕ
poll_out = 4

-- `(old * 7 + sample) >> 3`
unfoldable pub smooth : ℤ → ℤ → ℤ
smooth old sample = shift_right (scale 7 old +ℤ sample) 3

-- `if (sample > 0) old = smooth`
unfoldable pub estimate : ℤ → ℤ → ℤ
unfolding smooth
estimate old sample = if ltb_ℤ (pos 0) sample then smooth old sample else old

module _ {C : Type 0} where
  -- The moving averages of the round trip time.
  unfoldable pub update_rtt : ℤ → Cudt C → Cudt C
  unfolding smooth
  update_rtt rtt c = record c {
    rtt_var = shift_right (scale 3 c.rtt_var +ℤ abs (rtt -ℤ c.rtt)) 2;
    rtt = smooth c.rtt rtt;
  }

  -- A light ACK, of 4 bytes.
  unfoldable pub process_light_ack : Packet → Cudt C → Option (Cudt C)
  process_light_ack p c = elim (load p 0) [
    | none ↦ none
    | some ack ↦ some (
        if leb_ℤ (pos 0) (seqcmp ack c.snd_last_ack)
        then record c {
          flow_window_size = c.flow_window_size -ℤ seqoff c.snd_last_ack ack;
          snd_last_ack = ack;
        }
        else c)
  ]

  -- The window and the last ACK, for an ACK that is not older.
  unfoldable pub open_window : Packet → ℤ → Cudt C → Option (Cudt C)
  open_window p ack c =
      if leb_ℤ (pos 0) (seqcmp ack c.snd_last_ack)
      then elim (load p 3) [
        | none ↦ none
        | some window ↦ some (record c { flow_window_size = window; snd_last_ack = ack })
      ]
      else some c

module _ {Key C : Type 0} (env : Env Key C) where
  -- ACK-2 goes out after the SYN interval or for a repeated ACK. The code subtracts a time in
  -- microseconds, from `getTime`, from one in CPU cycles, from `rdtsc`.
  unfoldable pub answer_ack : ℕ → ℕ → ℤ → Cudt C → Option (Cudt C)
  answer_ack now wall ack c =
      if ltb syn_interval (since now c.snd_last_ack2_time) || ack ==ℤ c.snd_last_ack2
      then elim (send_ack2 env ack c) [
        | none ↦ none
        | some sent ↦ some (record sent { snd_last_ack2 = ack; snd_last_ack2_time = wall })
      ]
      else some c

  -- The packets before `ack` leave the buffer, whose `ackData` triggers the event, and the loss list.
  unfoldable pub release_acked : ℤ → Cudt C → Option (Cudt C)
  release_acked ack c = elim (remove c.snd_loss_list (decseq ack)) [
    | none ↦ none
    | some losses ↦ some (record c {
      snd_buffer = ack_data c.snd_buffer (pos_part (seqoff c.snd_last_data_ack ack));
      snd_last_data_ack = ack;
      snd_loss_list = losses;
      log = trigger_event ∷ c.log;
    })
  ]

  -- Waiting senders, polls, the program and the sender's schedule are told.
  unfoldable pub wake_senders : Cudt C → Cudt C
  unfolding emit emit_if
  wake_senders c =
      emit (schedule env.qos)
        (emit feed_osfd (emit (poll_events poll_out true) (emit_if env.syn_sending signal_send c)))

  -- The delivery rate and the bandwidth.
  unfoldable pub update_rates : ℤ → ℤ → Cudt C → Cudt C
  unfolding estimate tell_cc
  update_rates rate bandwidth c =
      let c' = record c {
        delivery_rate = estimate c.delivery_rate rate;
        bandwidth = estimate c.bandwidth bandwidth;
      } in
      tell_cc env (set_bandwidth c'.bandwidth) (tell_cc env (set_rcv_rate c'.delivery_rate) c')

  unfoldable pub read_rates : Packet → Cudt C → Option (Cudt C)
  unfolding update_rates
  read_rates p c =
      if ltb 16 (get_length p)
      then elim (load p 4) [
        | none ↦ none
        | some rate ↦ elim (load p 5) [
          | none ↦ none
          | some bandwidth ↦ some (update_rates rate bandwidth c)
        ]
      ]
      else some c

  -- The estimates, for an ACK that acknowledges packets.
  unfoldable pub learn : Packet → ℤ → Cudt C → Option (Cudt C)
  unfolding update_rtt read_rates tell_cc cc_update emit
  learn p ack c = elim (load p 1) [
    | none ↦ none
    | some rtt ↦
        let timed = update_rtt rtt c in
        elim (read_rates p (tell_cc env (set_rtt timed.rtt) timed)) [
          | none ↦ none
          | some rated ↦
              some (emit (counts recv_ack (pos 1)) (cc_update env (tell_cc env (on_ack ack) rated)))
        ]
  ]

  -- The ACK moves past the last one.
  unfoldable pub advance_ack : Packet → ℤ → Cudt C → Option (Cudt C)
  unfolding release_acked wake_senders learn
  advance_ack p ack c =
      if leb_ℤ (seqoff c.snd_last_data_ack ack) (pos 0)
      then some c
      else elim (release_acked ack c) [
        | none ↦ none
        | some released ↦ learn p ack (wake_senders released)
      ]

  -- The data ACK.
  unfoldable pub take_ack : Packet → ℤ → Cudt C → Option (Cudt C)
  unfolding open_window advance_ack mark_broken
  take_ack p ack c =
      if ltb_ℤ (pos 0) (seqcmp ack (incseq c.snd_curr_seq_no))
      then some (mark_broken 0 c)
      else elim (open_window p ack c) [ none ↦ none | some opened ↦ advance_ack p ack opened ]

  -- `case 2`
  unfoldable pub process_ack : ℕ → ℕ → Packet → Cudt C → Option (Cudt C)
  unfolding process_light_ack answer_ack take_ack
  process_ack now wall p c =
      if get_length p == 4
      then process_light_ack p c
      else elim (answer_ack now wall (to_int (get_ack_seq_no p)) c) [
        | none ↦ none
        | some answered ↦ elim (load p 0) [ none ↦ none | some ack ↦ take_ack p ack answered ]
      ]

  -- `case 6`, with what `ack` held before the call.
  unfoldable pub process_ack2 : ℕ → Packet → ℤ → Cudt C → Cudt C
  unfolding update_rtt tell_cc
  process_ack2 wall p before c =
      let answer = acknowledge c.ack_window (to_int (get_ack_seq_no p)) before wall in
      let timed = update_rtt answer.rtt (record c { ack_window = answer.window }) in
      let told = tell_cc env (set_rtt timed.rtt) timed in
      if leb_ℤ answer.rtt (pos 0)
      then record c { ack_window = answer.window }
      else if ltb_ℤ (pos 0) (seqcmp answer.data_ack c.rcv_last_ack_ack)
      then record told { rcv_last_ack_ack = answer.data_ack }
      else told
