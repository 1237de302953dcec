-- ===== src/Connection/Feedback.antt =====
-- What an ACK does to the sender of a connection.
use uvudt.Common.{ℕ, true, false, ◌||◌, none, some, ◌∷◌, ◌≡◌, refl, ltb, Bool-cases, inl, inr, ◌⊎◌}
use uvudt.Common.Int.{ℤ, ◌==ℤ◌, to_word}
use uvudt.Packet.{Packet}
use uvudt.Connection.Acks.{answer_ack}
use uvudt.Connection.Control.{send_ack2}
use uvudt.Connection.Sends.{logged, send_control_given}
use uvudt.Connection.{Env, Cudt, since, syn_interval, send_to}

-- What the two states have in common besides the log and the times.
abbrev pub SameSender : {C : Type 0} → Cudt C → Cudt C → Type 0
SameSender c c' =
    (c'.snd_buffer ≡ c.snd_buffer)
    × (c'.snd_loss_list ≡ c.snd_loss_list)
    × (c'.snd_last_ack ≡ c.snd_last_ack)
    × (c'.snd_last_data_ack ≡ c.snd_last_data_ack)
    × (c'.snd_curr_seq_no ≡ c.snd_curr_seq_no)
    × (c'.flow_window_size ≡ c.flow_window_size)

-- The log is as it was, or there is one packet more.
abbrev pub Ack2Log : {C : Type 0} → Cudt C → Cudt C → Type 0
Ack2Log c c' = (c'.log ≡ c.log) ⊎ ((q : Packet) × (c'.log ≡ send_to q ∷ c.log))

-- ACK-2 goes out or not.
pub answer_ack_lem :
    {Key C : Type 0} (env : Env Key C) (now wall : ℕ) (ack : ℤ) (c : Cudt C)
    → (c' : Cudt C) × (answer_ack env now wall ack c ≡ some c')
      × SameSender c c'
      × (c'.broken ≡ c.broken)
      × (c'.cc ≡ c.cc)
      × Ack2Log c c'
unfolding answer_ack send_ack2
answer_ack_lem env now wall ack c =
    let (p, sends) = send_control_given env 6 (to_word ack) none 0 c in
    let sent = logged (send_to p) c in
    elim (Bool-cases
      (ltb syn_interval (since now c.snd_last_ack2_time) || ack ==ℤ c.snd_last_ack2)) [
        | inl due ↦
            rw (due, sends, answer_ack)
              (
                record sent { snd_last_ack2 = ack; snd_last_ack2_time = wall },
                refl,
                (refl, refl, refl, refl, refl, refl),
                refl,
                refl,
                inr (p, refl),
              )
        | inr early ↦
            rw (early, answer_ack)
              (c, refl, (refl, refl, refl, refl, refl, refl), refl, refl, inl refl)
      ]

-- The ACK-2 for the ACK number `number`: where it is due, one packet is sent, and its number and its
-- time are noted; nothing else changes.
pub answer_ack-sends :
    {Key C : Type 0} (env : Env Key C) (now wall : ℕ) (number : ℤ) (c : Cudt C)
    → ((ltb syn_interval (since now c.snd_last_ack2_time) || number ==ℤ c.snd_last_ack2) ≡ true
        → (q : Packet) × (answer_ack env now wall number c
            ≡ some (record c {
              log = send_to q ∷ c.log;
              snd_last_ack2 = number;
              snd_last_ack2_time = wall;
            })))
      × ((ltb syn_interval (since now c.snd_last_ack2_time) || number ==ℤ c.snd_last_ack2) ≡ false
          → answer_ack env now wall number c ≡ some c)
unfolding answer_ack send_ack2
answer_ack-sends env now wall number c = (
  λ due.
      let (p, sends) = send_control_given env 6 (to_word number) none 0 c in
      rw (due, sends, answer_ack) (p, refl),
  λ early. rw (early, answer_ack) refl,
)
