-- ===== src/Connection/Reports.antt =====
-- `processCtrl` of UDT4/src/udt_core.cpp for loss reports, drop requests and shutdowns. `none` is a
-- read outside the payload, or a loss list whose loops do not end.
use uvudt.Common.{
  ℕ, zero, suc, ◌+◌, ◌/◌, ◌^◌, Bool, true, false, ◌&&◌, ◌||◌, Option, none, some, ltb, take, ◌*◌,
  if◌then◌else◌,
}
use uvudt.Common.Int.{ℤ, pos, ◌+ℤ◌, ltb_ℤ, leb_ℤ}
use uvudt.Seqno.{seqcmp, incseq}
use uvudt.Packet.{Packet, get_msg_seq, get_length}
use uvudt.SndLossList.{insert}
use uvudt.RcvLossList.{remove_range}
use uvudt.RcvBuffer.{drop_msg}
use uvudt.Connection.Wire.{load, payload_ints}
use uvudt.Connection.{
  Env, Cudt, emit, mark_broken, tell_cc, cc_update, schedule, feed_osfd, trigger_event,
  release_synch, counts, snd_loss, recv_nak, on_loss,
}

module _ {C : Type 0} where
  pub insert_loss : ℤ → ℤ → Cudt C → Option (Cudt C)
  unfolding emit
  insert_loss first last c = elim (insert c.snd_loss_list first last) [
    | none ↦ none
    | some (num, losses) ↦ some (emit (counts snd_loss num) (record c { snd_loss_list = losses }))
  ]

  -- The numbers of a range that are not acknowledged are lost. `false` is a range that cannot be.
  pub lose_range : ℤ → ℤ → Cudt C → Option (Bool × Cudt C)
  unfolding insert_loss
  lose_range first last c =
      let lost =
        if leb_ℤ (pos 0) (seqcmp first c.snd_last_ack)
        then insert_loss first last c
        else if leb_ℤ (pos 0) (seqcmp last c.snd_last_ack)
        then insert_loss c.snd_last_ack last c
        else some c in
      if ltb_ℤ (pos 0) (seqcmp first last) || ltb_ℤ (pos 0) (seqcmp last c.snd_curr_seq_no)
      then some (false, c)
      else elim lost [ none ↦ none | some c' ↦ some (true, c') ]

  pub lose_single : ℤ → Cudt C → Option (Bool × Cudt C)
  unfolding insert_loss
  lose_single seqno c =
      if ltb_ℤ (seqcmp seqno c.snd_last_ack) (pos 0)
      then some (true, c)
      else if ltb_ℤ (pos 0) (seqcmp seqno c.snd_curr_seq_no)
      then some (false, c)
      else elim (insert_loss seqno seqno c) [ none ↦ none | some c' ↦ some (true, c') ]

  -- The entry at `i`: the next index, the test, and the connection. A marked word is the first
  -- number of a range, and the next word the last one.
  pub lose_entry : Packet → ℕ → Cudt C → Option (ℕ × Bool × Cudt C)
  unfolding lose_range lose_single
  lose_entry p i c = elim (load p i) [
    | none ↦ none
    | some word ↦
        if ltb_ℤ word (pos 0)
        then elim (load p (i + 1)) [
          | none ↦ none
          | some last ↦ elim (lose_range (word +ℤ pos (2 ^ 31)) last c) [
            | none ↦ none
            | some (good, c') ↦ some (i + 2, good, c')
          ]
        ]
        else elim (lose_single word c) [ none ↦ none | some (good, c') ↦ some (i + 1, good, c') ]
  ]

  -- The loop over the list of `n` words, from `i` on. Every entry moves `i`, so that the fuel is
  -- never used up.
  pub lose_entries : ℕ → Packet → ℕ → ℕ → Cudt C → Option (Bool × Cudt C)
  unfolding lose_entry
  lose_entries zero p i n c = some (true, c)
  lose_entries (suc fuel) p i n c =
      if ltb i n
      then elim (lose_entry p i c) [
        | none ↦ none
        | some (j, good, c') ↦ if good then lose_entries fuel p j n c' else some (false, c')
      ]
      else some (true, c)

module _ {Key C : Type 0} (env : Env Key C) where
  -- `case 3`
  pub process_nak : Packet → Cudt C → Option (Cudt C)
  unfolding lose_entries mark_broken emit tell_cc cc_update
  process_nak p c =
      let n = get_length p / 4 in
      let told = cc_update env (tell_cc env (on_loss (take n (payload_ints p))) c) in
      elim (lose_entries n p 0 n told) [
        | none ↦ none
        | some (true, c') ↦ some (emit (counts recv_nak (pos 1)) (emit (schedule true) c'))
        | some (false, c') ↦ some (mark_broken 0 c')
      ]

module _ {C : Type 0} where
  -- `case 7`, for the message of the packet and the numbers `first` to `last`.
  pub drop_packets : ℕ → ℤ → ℤ → Cudt C → Option (Cudt C)
  drop_packets msg_no first last c = elim (drop_msg c.rcv_buffer msg_no) [
    | none ↦ none
    | some buffer ↦ elim (remove_range c.rcv_loss_list first last) [
      | none ↦ none
      | some losses ↦ some (record c {
        rcv_buffer = buffer;
        rcv_loss_list = losses;
        rcv_curr_seq_no =
            if leb_ℤ (seqcmp first (incseq c.rcv_curr_seq_no)) (pos 0)
              && ltb_ℤ (pos 0) (seqcmp last c.rcv_curr_seq_no)
            then last
            else c.rcv_curr_seq_no;
      })
    ]
  ]

  pub process_drop : Packet → Cudt C → Option (Cudt C)
  unfolding drop_packets
  process_drop p c = elim (load p 0) [
    | none ↦ none
    | some first ↦ elim (load p 1) [
      | none ↦ none
      | some last ↦ drop_packets (get_msg_seq p) first last c
    ]
  ]

  -- `case 5`
  pub process_shutdown : Cudt C → Cudt C
  unfolding emit mark_broken
  process_shutdown c = emit feed_osfd (
      emit trigger_event
        (emit release_synch (mark_broken 60 (record c { shutdown = true; closing = true }))))

  -- `case 4`: the interval times 1.125, rounded up. The product is exact, where the code has a
  -- double.
  pub process_warning : Cudt C → Cudt C
  process_warning c = record c {
    interval = (c.interval * 9 + 7) / 8;
    last_dec_seq = c.snd_curr_seq_no;
  }
