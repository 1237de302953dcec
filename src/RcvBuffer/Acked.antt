-- ===== src/RcvBuffer/Acked.antt =====
-- `ackData` of CRcvBuffer hands units to the reader.
use uvudt.Common.{
  ℕ, zero, suc, ◌+◌, ◌-◌, ◌%◌, ◌≤◌, ◌<◌, false, Option, List, [], ◌∷◌, ◌++◌, ◌≡◌, sym, arith, ◌==◌,
  length, length-append,
}
use native.Mathlib.Nat.{mod-lt}
use mathlib.Core.Path.{subst}
use uvudt.RcvBuffer.Stream.{Stored, Holds, Unseen, Notched}
use uvudt.RcvBuffer.Ring.{distance, distance_step, Stored-distance}
use uvudt.RcvBuffer.{RcvUnit, RcvBuffer, step_pos, ack_data}

-- Fewer steps than lie between do not reach the slot.
far-Unseen : (size r k n : ℕ) → k < size → r < size → n ≤ distance size k r → Unseen size r k n
far-Unseen size r k zero k_in r_in far = tt
far-Unseen size r k (suc n) k_in r_in far =
    let other : (k == r) ≡ false = ground arith in
    let (one, step_in) = distance_step size k r k_in r_in other in
    (other, far-Unseen size r (step_pos size k) n step_in r_in (omega (arith, one)))

around :
    (size p : ℕ)
    → p < size
    → (distance size (step_pos size p) p ≡ size - 1) × step_pos size p < size
unfolding step_pos
around size p p_in = ground arith

pub Stored-append :
    (units : ℕ → Option RcvUnit) (size p q r : ℕ) (us vs : List RcvUnit)
    → p < size
    → q < size
    → r < size
    → length us + length vs < size
    → Stored units size p q us
    → Stored units size q r vs
    → Stored units size p r (us ++ vs)
Stored-append units size p q r [] vs p_in q_in r_in fits first second =
    subst (λ k. Stored units size k r vs) (sym first) second
Stored-append units size p q r (u ∷ us) vs p_in q_in r_in fits first second =
    let to_q = Stored-distance units size p q (u ∷ us) p_in q_in first in
    let to_r = Stored-distance units size q r vs q_in r_in second in
    let other : (p == r) ≡ false = ground (arith, to_q, to_r) in
    let (turn, step_in) = around size p p_in in
    let both = length-append us vs in
    (
      first.0,
      other,
      far-Unseen size p (step_pos size p) (length (us ++ vs)) step_in p_in
          (omega (arith, turn, both)),
      Stored-append units size (step_pos size p) q r us vs step_in q_in r_in (omega arith) first.3
          second,
    )

Notched-append : (notch : ℕ) (us vs : List RcvUnit) → Notched notch us → Notched notch (us ++ vs)
Notched-append notch [] [] held = held
Notched-append notch [] (v ∷ vs) held = omega (arith, held)
Notched-append notch (u ∷ us) vs held = held

-- `ackData` for units that have arrived in the slots behind the acknowledged ones: where all of them
-- leave a slot of the ring free, the reader's units are the old ones and then these.
pub ack_data-Holds :
    (b : RcvBuffer) (us vs : List RcvUnit)
    → Holds b us
    → Stored b.units b.size b.last_ack_pos ((b.last_ack_pos + length vs) % b.size) vs
    → b.start_pos < b.size
    → b.last_ack_pos < b.size
    → length us + length vs < b.size
    → Holds (ack_data b (length vs)) (us ++ vs)
unfolding ack_data
ack_data-Holds b us vs held arrived start_in last_in fits = record {
  stored =
      Stored-append b.units b.size b.start_pos b.last_ack_pos
        ((b.last_ack_pos + length vs) % b.size) us vs start_in last_in
        (mod-lt (b.last_ack_pos + length vs) (omega arith)) fits held.stored arrived;
  notched = Notched-append b.notch us vs held.notched;
}
