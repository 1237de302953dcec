-- ===== src/Connection/Sending.antt =====
-- The sender of a connection: which packet number belongs to which block of the send buffer, and what
-- `packData` sends for the first time.
use uvudt.Common.{
  ℕ, ◌+◌, ◌%◌, ◌^◌, ◌≤◌, Bool, true, false, some, List, [], ◌∷◌, ◌++◌, ◌≡◌, ◌∙◌, refl, ap, arith,
  ltb, ◌==◌, length, length-append, All, Bool-cases, inl, inr,
}
use uvudt.Common.Int.{ℤ, pos, leb_ℤ, ◌==ℤ◌, to_word, minus_one}
use uvudt.Seqno.{max_seqno, incseq, seqlen}
use uvudt.Seqno.Steps.{incseq_by-mod}
use uvudt.Packet.{Packet}
use uvudt.Packet.Mac.{set_mac_rest}
use uvudt.SndBuffer.{Block, read_data}
use uvudt.SndBuffer.Ring.{Holds}
use uvudt.SndBuffer.Read.{read_data-Holds}
use uvudt.SndLossList.{SndLossList}
use uvudt.SndLossList.First.{get_lost_seq_empty}
use uvudt.Connection.Pace.{
  Packed, with_numbers, with_block, rest, send_window, enter, seal, finish, transmit, pack_new,
  pack_lost, pack_data,
}
use uvudt.Connection.{Env, Cudt}

-- The blocks `sent` carry the numbers from `base` on, and the current number is the last of them.
pub record Sending {C : Type 0} (c : Cudt C) (base : ℕ) (sent queued spare : List ℕ) : Type 0 where
  pub base_is : c.snd_last_data_ack ≡ pos base
  pub base_in : base ≤ max_seqno
  pub curr_is : c.snd_curr_seq_no ≡ pos ((base + length sent + max_seqno) % 2 ^ 30)
  pub blocks : Holds c.snd_buffer sent queued spare

pub next_number :
    (base n : ℕ) → incseq (pos ((base + n + max_seqno) % 2 ^ 30)) ≡ pos ((base + n) % 2 ^ 30)
next_number base n =
    (incseq_by-mod ((base + n + max_seqno) % 2 ^ 30) 0 (omega arith) (omega arith)).1
    ∙ ap pos (omega arith)

-- The MAC leaves the number of a packet as it is, and the payload.
pub seal_lem :
    {Key C : Type 0} (env : Env Key C) (now wall : ℕ) (p : Packet) (payload : ℕ)
    → ((seal env now wall p payload).header.word0 % 2 ^ 30 ≡ p.header.word0 % 2 ^ 30)
      × ((seal env now wall p payload).base ≡ p.base)
unfolding seal
seal_lem env now wall p payload = elim (Bool-cases (ltb 1 env.sec_mod)) [
  | inl secure ↦ rw (secure, seal) (set_mac_rest env.md5 _ env.sec_key)
  | inr plain ↦ rw (plain, seal) (refl, refl)
]

-- `packData` with nothing to send again: where the window is open, the first block that waits goes
-- out, under the next number.
abbrev pub Went :
    {C : Type 0} → Bool → List ℕ → (ℕ → Block) → Packed C → ℕ → List ℕ → List ℕ → Type 0
Went true (q ∷ qs) block r base sent spare =
    (r.payload ≡ length (block q).pc_data)
    × (r.packet.base ≡ some (block q).pc_data)
    × (r.packet.header.word0 % 2 ^ 30 ≡ (base + length sent) % 2 ^ 30)
    × Sending r.conn base (sent ++ q ∷ []) qs spare
Went true [] block r base sent spare = (r.payload ≡ 0) × Sending r.conn base sent [] spare
Went false queued block r base sent spare = (r.payload ≡ 0) × Sending r.conn base sent queued spare

-- The window against the packets in flight.
abbrev pub may_send : {C : Type 0} → Cudt C → Bool
may_send c = leb_ℤ (seqlen c.snd_last_ack (incseq c.snd_curr_seq_no)) (send_window c)

abbrev pub NonEmpty : (ℕ → Block) → List ℕ → Type 0
NonEmpty block = All (λ i. (length (block i).pc_data == 0) ≡ false)

pub word_of : (n : ℕ) → to_word (pos n) % 2 ^ 30 ≡ n % 2 ^ 30
unfolding to_word
word_of n = omega arith

transmit-Went :
    {Key C : Type 0} (env : Env Key C) (now wall : ℕ) (p : Packet) (c : Cudt C) (base : ℕ)
    (sent : List ℕ) (q : ℕ) (qs spare : List ℕ)
    → Sending c base sent (q ∷ qs) spare
    → (length (c.snd_buffer.block q).pc_data == 0) ≡ false
    → Went true
        (q ∷ qs)
        c.snd_buffer.block
        (transmit env now wall p
          (c.snd_buffer.block q)
          (record c { snd_buffer = (read_data c.snd_buffer).1 }))
        base
        sent
        spare
unfolding transmit finish
transmit-Went env now wall p c base sent q qs spare s full =
    let (out, held, same) = read_data-Holds c.snd_buffer sent (q ∷ qs) spare s.blocks in
    let number = ap incseq s.curr_is ∙ next_number base (length sent) in
    let (word, payload) =
      seal_lem env now wall (with_block p (incseq c.snd_curr_seq_no) (c.snd_buffer.block q))
        (length (c.snd_buffer.block q).pc_data) in
    rw (full, transmit)
      (
        refl,
        payload,
        word
            ∙ ap (λ (z : ℤ). to_word z % 2 ^ 30) number
            ∙ word_of ((base + length sent) % 2 ^ 30)
            ∙ omega arith,
        record {
          base_is = s.base_is;
          base_in = s.base_in;
          curr_is = number ∙ ap pos (omega (arith, length-append sent (q ∷ [])));
          blocks = held;
        },
      )

-- A connection with the same buffer and numbers.
pub same-Sending :
    {C : Type 0} (c : Cudt C) (base : ℕ) (sent queued spare : List ℕ)
    → Sending c base sent queued spare
    → (n m : ℕ) → Sending (record c { target_time = n; time_diff = m }) base sent queued spare
same-Sending c base sent queued spare s n m = record {
  base_is = s.base_is;
  base_in = s.base_in;
  curr_is = s.curr_is;
  blocks = s.blocks;
}

pack_new-Went :
    {Key C : Type 0} (env : Env Key C) (now wall : ℕ) (p : Packet) (c : Cudt C) (base : ℕ)
    (sent queued spare : List ℕ)
    → Sending c base sent queued spare
    → NonEmpty c.snd_buffer.block queued
    → Went (may_send c) queued c.snd_buffer.block (pack_new env now wall p c) base sent spare
unfolding pack_new rest
pack_new-Went env now wall p c base sent [] spare s full =
    let (out, held, same) = read_data-Holds c.snd_buffer sent [] spare s.blocks in
    let resting = same-Sending c base sent [] spare s 0 0 in
    elim (Bool-cases (may_send c)) [
      | inl fits ↦ rw (fits, out, pack_new) (refl, resting)
      | inr closed ↦ rw (closed, pack_new) (refl, resting)
    ]
pack_new-Went env now wall p c base sent (q ∷ qs) spare s full =
    let (out, held, same) = read_data-Holds c.snd_buffer sent (q ∷ qs) spare s.blocks in
    let resting = same-Sending c base sent (q ∷ qs) spare s 0 0 in
    elim (Bool-cases (may_send c)) [
      | inl fits ↦
          rw (fits, out, pack_new) (transmit-Went env now wall p c base sent q qs spare s full.0)
      | inr closed ↦ rw (closed, pack_new) (refl, resting)
    ]

-- `packData` where no packet is to be sent again, and no block that waits is empty: it returns. Where
-- the window is open and a block waits, it sends the first such block under the next number, with the
-- block's bytes as payload; otherwise it returns 0 and sends nothing. In every case the blocks keep
-- their numbers.
pub pack_data-Went :
    {Key C : Type 0} (env : Env Key C) (now wall : ℕ) (p : Packet) (ts : ℕ) (c : Cudt C) (base : ℕ)
    (sent queued spare : List ℕ)
    → Sending c base sent queued spare
    → (c.snd_loss_list.length ==ℤ pos 0) ≡ true
    → NonEmpty c.snd_buffer.block queued
    → (r : Packed C) × (pack_data env now wall p ts c ≡ some r)
      × Went (may_send c) queued c.snd_buffer.block r base sent spare
unfolding pack_data pack_lost enter
pack_data-Went env now wall p ts c base sent queued spare s none_lost full =
    let idle = get_lost_seq_empty c.snd_loss_list none_lost in
    let held =
      same-Sending c base sent queued spare s c.target_time (enter env now wall c).time_diff in
    let asked = with_numbers p (to_word minus_one) p.header.word1 in
    let went =
      pack_new-Went env now wall asked (enter env now wall c) base sent queued spare held full in
    (
      pack_new env now wall asked (enter env now wall c),
      ap (λ (x : ℤ × SndLossList). pack_lost env now wall p ts (enter env now wall c) x) idle,
      went,
    )
