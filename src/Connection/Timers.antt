-- ===== src/Connection/Timers.antt =====
-- `checkTimers` of UDT4/src/udt_core.cpp, for a connected stream socket. `none` is a loss list whose
-- loops do not end.
use uvudt.Common.{ℕ, ◌+◌, ◌*◌, true, not, ◌&&◌, ◌||◌, Option, none, some, ltb, leb, if◌then◌else◌}
use mathlib.Core.Option
use uvudt.Common.Int.{pos, ◌+ℤ◌, ◌==ℤ◌, scale}
use uvudt.Seqno.{incseq}
use uvudt.SndBuffer.{get_curr_buf_size}
use uvudt.RcvBuffer.{get_rcv_data_size}
use uvudt.SndLossList.{get_loss_length}
use uvudt.Connection.Control.{send_ack, send_light_ack, send_keep_alive}
use uvudt.Connection.Reports.{insert_loss}
use uvudt.Connection.{
  Env, Cudt, emit, mark_broken, tell_cc, cc_update, since, cycles, syn_interval, schedule,
  poll_events, feed_osfd, trigger_event, release_synch, on_timeout,
}

-- UDT_EPOLL_IN | UDT_EPOLL_OUT | UDT_EPOLL_ERR
abbrev pub poll_all : ℕ
poll_all = 13

-- m_iSelfClockInterval
abbrev pub self_clock_interval : ℕ
self_clock_interval = 64

module _ {Key C : Type 0} (env : Env Key C) (now wall : ℕ) where
  -- The ACK timer, and the light ACKs between.
  unfoldable pub check_ack : Cudt C → Option (Cudt C)
  check_ack c =
      let period = env.ack_period c.cc in
      let every = env.ack_interval c.cc in
      if ltb c.next_ack_time now || (ltb 0 every && leb every c.pkt_count)
      then elim (send_ack env now wall c) [
        | none ↦ none
        | some sent ↦ some (record sent {
          next_ack_time = now + (if ltb 0 period then period else syn_interval) * env.cpu_frequency;
          pkt_count = 0;
          light_ack_count = 1;
        })
      ]
      else if leb (self_clock_interval * c.light_ack_count) c.pkt_count
      then elim (send_light_ack env c) [
        | none ↦ none
        | some sent ↦ some (record sent { light_ack_count = c.light_ack_count + 1 })
      ]
      else some c

  -- `next_exp_time`
  unfoldable pub next_exp_time : Cudt C → ℕ
  next_exp_time c = elim (env.user_rto c.cc) [
    | some rto ↦ c.last_rsp_time + rto * env.cpu_frequency
    | none ↦
        let interval =
          cycles (scale c.exp_count (c.rtt +ℤ scale 4 c.rtt_var) +ℤ pos syn_interval)
            env.cpu_frequency in
        let least = c.exp_count * (300_000 * env.cpu_frequency) in
        c.last_rsp_time + (if ltb interval least then least else interval)
  ]

  -- The peer is given up.
  unfoldable pub give_up_peer : Cudt C → Cudt C
  unfolding emit mark_broken
  give_up_peer c = emit feed_osfd (
      emit trigger_event (
        emit (poll_events poll_all true) (
          emit release_synch
            (emit (schedule true) (mark_broken 30 (record c { closing = true }))))))

  -- All packets that are sent and not acknowledged are lost, if none is already.
  unfoldable pub resend_all : Cudt C → Option (Cudt C)
  resend_all c =
      let lost = insert_loss c.snd_last_ack c.snd_curr_seq_no c in
      if not (incseq c.snd_curr_seq_no ==ℤ c.snd_last_ack)
        && get_loss_length c.snd_loss_list ==ℤ pos 0
      then lost
      else some c

  -- The expiration timer has run out, and the peer is not given up.
  unfoldable pub expire : Cudt C → Option (Cudt C)
  unfolding resend_all tell_cc cc_update emit
  expire c =
      let moved =
        if ltb 0 (get_curr_buf_size c.snd_buffer)
        then Option.map
            (λ (d : Cudt C). emit (schedule true) (cc_update env (tell_cc env on_timeout d)))
            (resend_all c)
        else send_keep_alive env c in
      Option.map (λ (d : Cudt C). record d { exp_count = d.exp_count + 1; last_rsp_time = now })
        moved

  -- Data that waits for the reader is told again.
  unfoldable pub remind : Cudt C → Cudt C
  unfolding emit
  remind c = if ltb 0 (get_rcv_data_size c.rcv_buffer) then emit feed_osfd c else c

  unfoldable pub check_exp : Cudt C → Option (Cudt C)
  unfolding next_exp_time give_up_peer expire remind
  check_exp c =
      if ltb (next_exp_time c) now
      then (if ltb 16 c.exp_count && ltb (5_000_000 * env.cpu_frequency) (since now c.last_rsp_time)
          then some (give_up_peer c)
          else Option.map remind (expire c))
      else some (remind c)

  unfoldable pub check_timers : Cudt C → Option (Cudt C)
  unfolding check_ack check_exp cc_update
  check_timers c = elim (check_ack (cc_update env c)) [ none ↦ none | some c' ↦ check_exp c' ]
