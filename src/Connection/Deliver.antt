-- ===== src/Connection/Deliver.antt =====
-- The ACK that hands the units that have arrived to the reader.
use uvudt.Common.{
  ℕ, ◌+◌, ◌*◌, ◌%◌, ◌^◌, ◌≤◌, ◌<◌, true, false, some, List, [], ◌∷◌, ◌++◌, ◌≡◌, ◌∙◌, refl, sym, ap,
  arith, ltb, if◌then◌else◌, ◌⊎◌, length, Bool-cases, inl, inr,
}
use mathlib.Core.Path.{subst}
use uvudt.Common.Int.{ℤ, pos, pos_part, ltb_ℤ, ◌==ℤ◌, to_word}
use uvudt.Seqno.{max_seqno, seqoff, seqcmp, incseq, incack}
use uvudt.RcvBuffer.{RcvUnit, RcvBuffer, ack_data}
use uvudt.RcvBuffer.Arrive.{Ready, ack_data-Ready, ack_data-ring}
use uvudt.RcvLossList.{RcvLossList, get_loss_length}
use uvudt.Connection.Sending.{next_number}
use uvudt.Connection.Resending.{gap_off}
use uvudt.Connection.InOrder.{Receiving, SameRing}
use uvudt.Connection.Sends.{logged, send_control_given}
use uvudt.AckWindow.{store}
use uvudt.Connection.Wire.{int_bytes}
use uvudt.Connection.Control.{ack_number, deliver, report_ack, send_ack, ack_words}
use uvudt.Connection.{Env, Cudt, send_to, counts, sent_ack, emit, emit_if, since, syn_interval}

-- Reporting changes nothing of what has arrived.
report_ack_lem :
    {Key C : Type 0} (env : Env Key C) (now wall : ℕ) (c : Cudt C)
    → (c' : Cudt C) × (report_ack env now wall c ≡ some c')
      × (c'.rcv_buffer ≡ c.rcv_buffer)
      × (c'.rcv_last_ack ≡ c.rcv_last_ack)
      × (c'.rcv_curr_seq_no ≡ c.rcv_curr_seq_no)
      × (c'.rcv_loss_list ≡ c.rcv_loss_list)
unfolding report_ack emit
report_ack_lem env now wall c =
    let seq = incack c.ack_seq_no in
    let full = ltb (syn_interval * env.cpu_frequency) (since now c.last_ack_time) in
    let stamped = record c {
      ack_seq_no = seq;
      last_ack_time = if full then now else c.last_ack_time;
    } in
    let (p, sends) =
      send_control_given env 2 (to_word seq) (some (int_bytes (ack_words env full c)))
        (if full then 24 else 16) stamped in
    elim (Bool-cases (ltb_ℤ (pos 0) (seqcmp c.rcv_last_ack c.rcv_last_ack_ack))) [
      | inl new ↦
          rw (new, sends, report_ack)
            (
              emit (counts sent_ack (pos 1)) (record (logged (send_to p) stamped) {
                ack_window = store c.ack_window seq c.rcv_last_ack wall;
              }),
              refl,
              refl,
              refl,
              refl,
              refl,
            )
      | inr known ↦ rw (known, report_ack) (c, refl, refl, refl, refl, refl)
    ]

ack_number_all :
    {C : Type 0} (c : Cudt C)
    → (get_loss_length c.rcv_loss_list ==ℤ pos 0) ≡ true
    → ack_number c ≡ incseq c.rcv_curr_seq_no
unfolding ack_number
ack_number_all c h = rw (h, ack_number) refl

cmp_ahead :
    (b a n : ℕ)
    → b ≤ max_seqno
    → a ≤ max_seqno
    → 0 < n
    → n < 0x1fff_ffff
    → (a ≡ b + n) ⊎ (a + 0x4000_0000 ≡ b + n)
    → ltb_ℤ (pos 0) (seqcmp (pos a) (pos b)) ≡ true
unfolding seqcmp
cmp_ahead b a n hb ha some_one few (inl e) = ground arith
cmp_ahead b a n hb ha some_one few (inr e) = ground arith

-- `sendCtrl(2)` where units have arrived in order behind the acknowledged ones, no number is lost, and
-- the sender is not known to have the ACK: the call returns, the last ACK is the number after the
-- current one, and the ring holds the units for the reader, behind the ones that it held.
pub send_ack-Receiving :
    {Key C : Type 0} (env : Env Key C) (now wall : ℕ) (c : Cudt C) (base : ℕ) (us : List RcvUnit)
    (v : RcvUnit) (vs : List RcvUnit)
    → Receiving c base us (v ∷ vs)
    → length (v ∷ vs) < 0x1fff_ffff
    → (pos ((base + length (v ∷ vs)) % 2 ^ 30) ==ℤ c.rcv_last_ack_ack) ≡ false
    → (c' : Cudt C) × (send_ack env now wall c ≡ some c')
      × Receiving c' ((base + length (v ∷ vs)) % 2 ^ 30) (us ++ v ∷ vs) []
      × SameRing c c'
unfolding send_ack deliver emit emit_if
send_ack-Receiving env now wall c base us v vs r few unknown =
    let n = length (v ∷ vs) in
    let number : ack_number c ≡ pos ((base + n) % 2 ^ 30) =
      ack_number_all c r.none_lost ∙ ap incseq r.curr_is ∙ next_number base n in
    let fresh : (ack_number c ==ℤ c.rcv_last_ack_ack) ≡ false =
      ap (λ (z : ℤ). z ==ℤ c.rcv_last_ack_ack) number ∙ unknown in
    let newer : ltb_ℤ (pos 0) (seqcmp (ack_number c) c.rcv_last_ack) ≡ true =
      ap (λ (z : ℤ). ltb_ℤ (pos 0) (seqcmp z c.rcv_last_ack)) number
      ∙ ap (λ (z : ℤ). ltb_ℤ (pos 0) (seqcmp (pos ((base + n) % 2 ^ 30)) z)) r.last_is
      ∙ cmp_ahead base ((base + n) % 2 ^ 30) n r.base_in (omega arith) (omega arith) few
          (omega arith) in
    let offset : pos_part (seqoff c.rcv_last_ack (ack_number c)) ≡ n =
      ap (λ (z : ℤ). pos_part (seqoff c.rcv_last_ack z)) number
      ∙ ap (λ (z : ℤ). pos_part (seqoff z (pos ((base + n) % 2 ^ 30)))) r.last_is
      ∙ ap pos_part (gap_off base n r.base_in few) in
    let handed = deliver env (ack_number c) c in
    let (c', reports, buffer, last, curr, losses) = report_ack_lem env now wall handed in
    let ring : c'.rcv_buffer ≡ ack_data c.rcv_buffer n =
      buffer ∙ ap (ack_data c.rcv_buffer) offset in
    rw (fresh, newer, send_ack)
      (
        c',
        reports,
        record {
          last_is = last ∙ number;
          base_in = omega arith;
          curr_is = curr ∙ r.curr_is ∙ ap pos (omega arith);
          none_lost = ap (λ (l : RcvLossList). get_loss_length l ==ℤ pos 0) losses ∙ r.none_lost;
          buffer =
              subst (λ (b : RcvBuffer). Ready b (us ++ v ∷ vs) []) (sym ring)
                (ack_data-Ready c.rcv_buffer us (v ∷ vs) r.buffer);
        },
        (
          ap (λ (b : RcvBuffer). b.size) ring ∙ (ack_data-ring c.rcv_buffer n).0,
          ap (λ (b : RcvBuffer). b.notch) ring ∙ (ack_data-ring c.rcv_buffer n).1,
        ),
      )
