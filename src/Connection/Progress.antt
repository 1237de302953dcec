-- ===== src/Connection/Progress.antt =====
-- An ACK that acknowledges packets moves the sender of a connection on.
use uvudt.Common.{
  ℕ, suc, ◌+◌, ◌%◌, ◌^◌, ◌≤◌, ◌<◌, true, false, some, List, ◌∷◌, ◌++◌, ◌≡◌, ◌∙◌, refl, sym, ap,
  arith, ltb, ◌==◌, ◌⊎◌, if◌then◌else◌, length, length-append, Bool-cases, inl, inr,
}
use mathlib.Core.Path.{subst}
use uvudt.Common.Int.{ℤ, pos, pos_part, leb_ℤ, ltb_ℤ, to_int}
use uvudt.Seqno.{max_seqno, seqoff, seqcmp, incseq, decseq}
use uvudt.Packet.{Packet, get_length, get_ack_seq_no}
use uvudt.SndBuffer.{ack_data}
use uvudt.SndBuffer.Ring.{Holds}
use uvudt.SndBuffer.Read.{ack_data_lem}
use uvudt.SndLossList.{SndLossList, remove}
use uvudt.Connection.Wire.{load}
use uvudt.Connection.Sending.{Sending, next_number}
use uvudt.Connection.Resending.{gap_off}
use uvudt.Connection.Feedback.{SameSender, answer_ack_lem}
use uvudt.Connection.Acks.{
  poll_out, open_window, release_acked, wake_senders, update_rtt, update_rates, read_rates, learn,
  advance_ack, take_ack, process_ack,
}
use uvudt.Connection.{
  Effect, Env, Cudt, emit, emit_if, tell_cc, cc_update, schedule, feed_osfd, trigger_event,
  poll_events, counts, recv_ack, signal_send, set_rtt, on_ack, set_rcv_rate, set_bandwidth, send_to,
}

-- The words of an ACK that brings all estimates.
pub record FullAck (p : Packet) (ack window : ℤ) : Type 0 where
  pub rtt : ℤ
  pub rate : ℤ
  pub bandwidth : ℤ
  pub whole : ltb 16 (get_length p) ≡ true
  pub ack_is : load p 0 ≡ some ack
  pub rtt_is : load p 1 ≡ some rtt
  pub window_is : load p 3 ≡ some window
  pub rate_is : load p 4 ≡ some rate
  pub bandwidth_is : load p 5 ≡ some bandwidth

-- The congestion control hears of the round trip time, the delivery rate and the bandwidth, and of the
-- ACK.
abbrev pub told_of : {Key C : Type 0} → Env Key C → ℤ → C → ℤ → ℤ → ℤ → C
told_of env ack cc rtt rate bandwidth =
    env.react
      (env.react (env.react (env.react cc (set_rtt rtt)) (set_rcv_rate rate))
        (set_bandwidth bandwidth))
      (on_ack ack)

-- The estimates leave the sender's numbers alone.
learn_lem :
    {Key C : Type 0} (env : Env Key C) (p : Packet) (ack window : ℤ) (c : Cudt C)
    → FullAck p ack window
    → (c' : Cudt C) × (learn env p ack c ≡ some c')
      × SameSender c c'
      × (c'.broken ≡ c.broken)
      × (c'.log ≡ counts recv_ack (pos 1) ∷ c.log)
      × (c'.cc ≡ told_of env ack c.cc c'.rtt c'.delivery_rate c'.bandwidth)
unfolding learn read_rates update_rates update_rtt tell_cc cc_update emit
learn_lem env p ack window c full =
    let timed = update_rtt full.rtt c in
    let rated = update_rates env full.rate full.bandwidth (tell_cc env (set_rtt timed.rtt) timed) in
    rw (full.rtt_is, full.whole, full.rate_is, full.bandwidth_is, learn)
      (
        emit (counts recv_ack (pos 1)) (cc_update env (tell_cc env (on_ack ack) rated)),
        refl,
        (refl, refl, refl, refl, refl, refl),
        refl,
        refl,
        refl,
      )

-- The part of the sender that the window does not touch.
abbrev pub SameBlocks : {C : Type 0} → Cudt C → Cudt C → Type 0
SameBlocks c c' =
    (c'.snd_buffer ≡ c.snd_buffer)
    × (c'.snd_loss_list ≡ c.snd_loss_list)
    × (c'.snd_last_data_ack ≡ c.snd_last_data_ack)
    × (c'.snd_curr_seq_no ≡ c.snd_curr_seq_no)
    × (c'.broken ≡ c.broken)
    × (c'.log ≡ c.log)
    × (c'.cc ≡ c.cc)

open_window_lem :
    {C : Type 0} (p : Packet) (ack window : ℤ) (c : Cudt C)
    → FullAck p ack window
    → (c' : Cudt C) × (open_window p ack c ≡ some c')
      × SameBlocks c c'
      × (leb_ℤ (pos 0) (seqcmp ack c.snd_last_ack) ≡ true
          → (c'.snd_last_ack ≡ ack) × (c'.flow_window_size ≡ window))
unfolding open_window
open_window_lem p ack window c full =
    elim (Bool-cases (leb_ℤ (pos 0) (seqcmp ack c.snd_last_ack))) [
      | inl newer ↦
          rw (newer, full.window_is, open_window)
            (
              record c { flow_window_size = window; snd_last_ack = ack },
              refl,
              (refl, refl, refl, refl, refl, refl, refl),
              λ h. (refl, refl),
            )
      | inr older ↦
          rw (older, open_window)
            (c, refl, (refl, refl, refl, refl, refl, refl, refl), λ h. absurd cc)
    ]

-- Numbers within the window compare as their distances do.
cmp_gap :
    (a b j : ℕ)
    → a ≤ max_seqno
    → b ≤ max_seqno
    → j < 0x1fff_ffff
    → (b ≡ a + j) ⊎ (b + 0x4000_0000 ≡ a + j)
    → ltb_ℤ (pos 0) (seqcmp (pos a) (pos b)) ≡ false
unfolding seqcmp
cmp_gap a b j ha hb hj (inl e) = ground arith
cmp_gap a b j ha hb hj (inr e) = ground arith

not_beyond :
    (base k j : ℕ)
    → base ≤ max_seqno
    → k + j < 0x1fff_ffff
    → ltb_ℤ (pos 0) (seqcmp (pos ((base + k) % 2 ^ 30)) (pos ((base + (k + j)) % 2 ^ 30))) ≡ false
not_beyond base k j h small =
    cmp_gap ((base + k) % 2 ^ 30) ((base + (k + j)) % 2 ^ 30) j (omega arith) (omega arith)
      (omega arith) (omega arith)

-- The connection after `release_acked`.
abbrev released_by : {C : Type 0} → Cudt C → ℤ → ℕ → SndLossList → Cudt C
released_by c ack n losses = record c {
  snd_buffer = ack_data c.snd_buffer n;
  snd_last_data_ack = ack;
  snd_loss_list = losses;
  log = trigger_event ∷ c.log;
}

Sending-released :
    {C : Type 0} (c c' : Cudt C) (base : ℕ) (acked rest queued spare : List ℕ)
    → Sending c base (acked ++ rest) queued spare
    → (c'.snd_buffer ≡ ack_data c.snd_buffer (length acked))
    → (c'.snd_last_data_ack ≡ pos ((base + length acked) % 2 ^ 30))
    → (c'.snd_curr_seq_no ≡ c.snd_curr_seq_no)
    → Sending c' ((base + length acked) % 2 ^ 30) rest queued (spare ++ acked)
Sending-released c c' base acked rest queued spare s buffer last curr = record {
  base_is = last;
  base_in = omega arith;
  curr_is = curr ∙ s.curr_is ∙ ap pos (omega (arith, length-append acked rest));
  blocks =
      subst (λ b. Holds b rest queued (spare ++ acked)) (sym buffer)
        (ack_data_lem c.snd_buffer acked rest queued spare s.blocks);
}

-- The log after an ACK that acknowledges packets: `before` is the log until then.
abbrev pub woken : {Key C : Type 0} → Env Key C → List Effect → List Effect
woken env before =
    counts recv_ack (pos 1)
    ∷ schedule env.qos
    ∷ feed_osfd
    ∷ poll_events poll_out true
    ∷ (if env.syn_sending then signal_send ∷ trigger_event ∷ before else trigger_event ∷ before)

-- What an ACK does that acknowledges the blocks `acked`.
pub record Progress {Key C : Type 0} (env : Env Key C) (c c' : Cudt C) (base : ℕ)
    (acked rest queued spare : List ℕ) (losses : SndLossList) : Type 0 where
  pub sending : Sending c' ((base + length acked) % 2 ^ 30) rest queued (spare ++ acked)
  pub losses_are : c'.snd_loss_list ≡ losses
  pub broken_is : c'.broken ≡ c.broken
  pub told :
      c'.cc
      ≡ told_of env (pos ((base + length acked) % 2 ^ 30)) c.cc c'.rtt c'.delivery_rate c'.bandwidth

behind : (n : ℕ) → leb_ℤ (pos (suc n)) (pos 0) ≡ false
behind n = ground arith

advance_ack_lem :
    {Key C : Type 0} (env : Env Key C) (p : Packet) (window : ℤ) (c : Cudt C) (base x : ℕ)
    (xs rest queued spare : List ℕ) (losses : SndLossList)
    → Sending c base (x ∷ xs ++ rest) queued spare
    → length xs < 0x1fff_fffe
    → FullAck p (pos ((base + length (x ∷ xs)) % 2 ^ 30)) window
    → remove c.snd_loss_list (decseq (pos ((base + length (x ∷ xs)) % 2 ^ 30))) ≡ some losses
    → (c' : Cudt C) × (advance_ack env p (pos ((base + length (x ∷ xs)) % 2 ^ 30)) c ≡ some c')
      × (c'.snd_last_ack ≡ c.snd_last_ack)
      × (c'.flow_window_size ≡ c.flow_window_size)
      × Progress env c c' base (x ∷ xs) rest queued spare losses
      × (c'.log ≡ woken env c.log)
unfolding advance_ack release_acked wake_senders emit emit_if
advance_ack_lem env p window c base x xs rest queued spare losses s few full removes =
    let n = length (x ∷ xs) in
    let ack : ℤ = pos ((base + n) % 2 ^ 30) in
    let offset : seqoff c.snd_last_data_ack ack ≡ pos n =
      ap (λ (z : ℤ). seqoff z ack) s.base_is ∙ gap_off base n s.base_in (omega arith) in
    let ahead : leb_ℤ (seqoff c.snd_last_data_ack ack) (pos 0) ≡ false =
      ap (λ (z : ℤ). leb_ℤ z (pos 0)) offset ∙ behind (length xs) in
    let moved = released_by c ack (pos_part (seqoff c.snd_last_data_ack ack)) losses in
    let (c', learns, same, alive, log, told) =
      learn_lem env p ack window (wake_senders env moved) full in
    rw (ahead, removes, advance_ack)
      (
        c',
        learns,
        same.2,
        same.5,
        record {
          sending =
              Sending-released c c' base (x ∷ xs) rest queued spare s
                (same.0 ∙ ap (λ (z : ℤ). ack_data c.snd_buffer (pos_part z)) offset) same.3 same.4;
          losses_are = same.1;
          broken_is = alive;
          told = told;
        },
        log,
      )

Sending-kept :
    {C : Type 0} (c c' : Cudt C) (base : ℕ) (sent queued spare : List ℕ)
    → Sending c base sent queued spare
    → c'.snd_buffer ≡ c.snd_buffer
    → c'.snd_last_data_ack ≡ c.snd_last_data_ack
    → c'.snd_curr_seq_no ≡ c.snd_curr_seq_no
    → Sending c' base sent queued spare
Sending-kept c c' base sent queued spare s buffer last curr = record {
  base_is = last ∙ s.base_is;
  base_in = s.base_in;
  curr_is = curr ∙ s.curr_is;
  blocks = subst (λ b. Holds b sent queued spare) (sym buffer) s.blocks;
}

-- `processCtrl` for an ACK with all estimates, which acknowledges one or more of the packets that are
-- sent and none that is not: where the loss list can take out the numbers, the call returns. The
-- blocks that are acknowledged are spare again, and the blocks left keep their numbers; the loss list
-- is what its `remove` gives for the number before that of the ACK. The congestion control is told
-- the round trip time, the delivery rate and the bandwidth that the connection then has, and the ACK,
-- in this order. The log gains, after one packet or none, the event that is triggered, the signal to
-- a sender if one waits, the polls, `feedOsfd`, the schedule and the count; and an ACK that is not
-- older than the last one sets the window.
pub process_ack-Progress :
    {Key C : Type 0} (env : Env Key C) (now wall : ℕ) (p : Packet) (window : ℤ) (c : Cudt C)
    (base x : ℕ) (xs rest queued spare : List ℕ) (losses : SndLossList)
    → Sending c base (x ∷ xs ++ rest) queued spare
    → length (x ∷ xs ++ rest) < 0x1fff_ffff
    → FullAck p (pos ((base + length (x ∷ xs)) % 2 ^ 30)) window
    → remove c.snd_loss_list (decseq (pos ((base + length (x ∷ xs)) % 2 ^ 30))) ≡ some losses
    → (c' : Cudt C) × (process_ack env now wall p c ≡ some c')
      × Progress env c c' base (x ∷ xs) rest queued spare losses
      × ((c'.log ≡ woken env c.log) ⊎ ((q : Packet) × (c'.log ≡ woken env (send_to q ∷ c.log))))
      × (leb_ℤ (pos 0) (seqcmp (pos ((base + length (x ∷ xs)) % 2 ^ 30)) c.snd_last_ack) ≡ true
          → (c'.snd_last_ack ≡ pos ((base + length (x ∷ xs)) % 2 ^ 30))
            × (c'.flow_window_size ≡ window))
unfolding process_ack take_ack
process_ack-Progress env now wall p window c base x xs rest queued spare losses s few full removes =
    let ack : ℤ = pos ((base + length (x ∷ xs)) % 2 ^ 30) in
    let (a, answers, same, a_alive, a_cc, a_log) =
      answer_ack_lem env now wall (to_int (get_ack_seq_no p)) c in
    let (o, opens, kept, fresh) = open_window_lem p ack window a full in
    let s' =
      Sending-kept c o base (x ∷ xs ++ rest) queued spare s (kept.0 ∙ same.0) (kept.2 ∙ same.3)
        (kept.3 ∙ same.4) in
    let (c', moves, last, flow, done, woke) =
      advance_ack_lem env p window o base x xs rest queued spare losses s'
        (omega (arith, length-append xs rest)) full
        (ap (λ (l : SndLossList). remove l (decseq ack)) (kept.1 ∙ same.1) ∙ removes) in
    let long : (get_length p == 4) ≡ false = (let w = full.whole in ground arith) in
    let number : incseq a.snd_curr_seq_no ≡ pos ((base + length (x ∷ xs ++ rest)) % 2 ^ 30) =
      ap incseq (same.4 ∙ s.curr_is) ∙ next_number base (length (x ∷ xs ++ rest)) in
    let valid : ltb_ℤ (pos 0) (seqcmp ack (incseq a.snd_curr_seq_no)) ≡ false =
      ap (λ (z : ℤ). ltb_ℤ (pos 0) (seqcmp ack z)) number
      ∙ ap (λ (m : ℕ). ltb_ℤ (pos 0) (seqcmp ack (pos ((base + m) % 2 ^ 30))))
          (length-append (x ∷ xs) rest)
      ∙ not_beyond base (length (x ∷ xs)) (length rest) s.base_in
          (omega (arith, length-append xs rest)) in
    rw (long, answers, full.ack_is, valid, opens, moves, process_ack)
      (
        c',
        refl,
        record {
          sending = done.sending;
          losses_are = done.losses_are;
          broken_is = done.broken_is ∙ kept.4 ∙ a_alive;
          told =
              done.told
              ∙ ap (λ s. told_of env ack s c'.rtt c'.delivery_rate c'.bandwidth) (kept.6 ∙ a_cc);
        },
        elim a_log [
          | inl same_log ↦ inl (woke ∙ ap (woken env) (kept.5 ∙ same_log))
          | inr (q, sent) ↦ inr (q, woke ∙ ap (woken env) (kept.5 ∙ sent))
        ],
        λ newer.
            let set = fresh (ap (λ (z : ℤ). leb_ℤ (pos 0) (seqcmp ack z)) same.2 ∙ newer) in
            (last ∙ set.0, flow ∙ set.1),
      )
