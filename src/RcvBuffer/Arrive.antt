-- ===== src/RcvBuffer/Arrive.antt =====
-- Units that arrive in order behind the acknowledged ones: `addData` and `ackData` of CRcvBuffer.
use uvudt.Common.{
  ℕ, suc, ◌+◌, ◌%◌, ◌≤◌, ◌<◌, true, false, none, some, List, [], ◌∷◌, ◌++◌, ◌≡◌, ◌∙◌, refl, sym, ap,
  arith, ◌==◌, length, length-append, Option-cases, inl, inr, write, write_self, mod_once,
  mod-add-mod,
}
use native.Mathlib.Nat.{mod-lt}
use mathlib.Core.Path.{subst}
use uvudt.RcvBuffer.Stream.{Stored, Holds}
use uvudt.RcvBuffer.Ring.{Stored-add, data_size-length}
use uvudt.RcvBuffer.Acked.{Stored-append, ack_data-Holds}
use uvudt.RcvBuffer.{RcvUnit, RcvBuffer, step_pos, add_data, ack_data, get_avail_buf_size}

-- The reader's units `us`, the units `vs` that have arrived behind them, and free slots behind those.
pub record Ready (b : RcvBuffer) (us vs : List RcvUnit) : Type 0 where
  pub held : Holds b us
  pub arrived : Stored b.units b.size b.last_ack_pos ((b.last_ack_pos + length vs) % b.size) vs
  pub free :
      (k : ℕ)
      → length vs ≤ k
      → length us + k < b.size
      → b.units ((b.last_ack_pos + k) % b.size) ≡ none
  pub start_in : b.start_pos < b.size
  pub last_in : b.last_ack_pos < b.size
  pub fits : length us + length vs < b.size

-- A unit in the offset's slot is within the size that is told to the sender.
pub Ready-avail :
    (b : RcvBuffer) (us vs : List RcvUnit)
    → Ready b us vs
    → length us + suc (length vs) < b.size
    → length vs < get_avail_buf_size b
Ready-avail b us vs r room = omega (arith, (data_size-length b us r.held r.start_in r.last_in).1)

next_slot :
    (size a k : ℕ) → a < size → k < size → step_pos size ((a + k) % size) ≡ (a + suc k) % size
unfolding step_pos
next_slot size a k ha hk =
    ground (arith, mod_once size (a + k) (omega arith), mod_once size (a + suc k) (omega arith))

other_slot :
    (size a k j : ℕ) → a < size → j < size → k < j → ((a + j) % size == (a + k) % size) ≡ false
other_slot size a k j ha hj h =
    ground (arith, mod_once size (a + j) (omega arith), mod_once size (a + k) (omega arith))

step_other :
    (size p : ℕ) → p < size → 1 < size → ((p == step_pos size p) ≡ false) × step_pos size p < size
unfolding step_pos
step_other size p hp h = (ground arith, ground arith)

-- `addData` at the offset behind the units that have arrived takes the unit there.
pub add_data-Ready :
    (b : RcvBuffer) (us vs : List RcvUnit) (u : RcvUnit)
    → Ready b us vs
    → length us + suc (length vs) < b.size
    → ((add_data b u (length vs)).0 ≡ true)
      × Ready (add_data b u (length vs)).1 us (vs ++ record u { flag = 1 } ∷ [])
unfolding add_data
add_data-Ready b us vs u r room =
    let place = (b.last_ack_pos + length vs) % b.size in
    let empty = r.free (length vs) (omega arith) (omega arith) in
    let w = record u { flag = 1 } in
    let units = write b.units place (some w) in
    let place_in : place < b.size = mod-lt (b.last_ack_pos + length vs) (omega arith) in
    let one : length (vs ++ w ∷ []) ≡ suc (length vs) = omega (arith, length-append vs (w ∷ [])) in
    let step = step_other b.size place place_in (omega arith) in
    let last_one : Stored units b.size place (step_pos b.size place) (w ∷ []) =
      (write_self b.units place (some w), step.0, tt, refl) in
    let all =
      Stored-append units b.size b.last_ack_pos place (step_pos b.size place) vs (w ∷ []) r.last_in
        place_in step.1 (omega arith)
        (Stored-add b.units b.size b.last_ack_pos place place w vs empty r.arrived) last_one in
    let ends : step_pos b.size place ≡ (b.last_ack_pos + length (vs ++ w ∷ [])) % b.size =
      next_slot b.size b.last_ack_pos (length vs) r.last_in (omega arith)
      ∙ ap (λ (n : ℕ). (b.last_ack_pos + n) % b.size) (sym one) in
    rw (empty, add_data)
      (
        refl,
        record {
          held = record {
            stored =
                Stored-add b.units b.size b.start_pos b.last_ack_pos place w us empty r.held.stored;
            notched = r.held.notched;
          };
          arrived = subst (λ q. Stored units b.size b.last_ack_pos q (vs ++ w ∷ [])) ends all;
          free = λ k from below.
              let other =
                other_slot b.size b.last_ack_pos (length vs) k r.last_in (omega arith)
                  (omega (arith, one)) in
              rw other (r.free k (omega (arith, one)) below);
          start_in = r.start_in;
          last_in = r.last_in;
          fits = omega (arith, one);
        },
      )

-- `ackData` of all units that have arrived.
pub ack_data-Ready :
    (b : RcvBuffer) (us vs : List RcvUnit)
    → Ready b us vs
    → Ready (ack_data b (length vs)) (us ++ vs) []
unfolding ack_data
ack_data-Ready b us vs r =
    let sum : (k : ℕ)
        → ((b.last_ack_pos + length vs) % b.size + k) % b.size
          ≡ (b.last_ack_pos + (length vs + k)) % b.size =
      λ k.
        mod-add-mod (b.last_ack_pos + length vs) b.size k
        ∙ ap (λ (n : ℕ). n % b.size) (omega arith) in
    record {
      held = ack_data-Holds b us vs r.held r.arrived r.start_in r.last_in r.fits;
      arrived = sym (sum 0 ∙ ap (λ (n : ℕ). (b.last_ack_pos + n) % b.size) (omega arith));
      free = λ k from below.
          ap b.units (sum k)
          ∙ r.free (length vs + k) (omega arith) (omega (arith, length-append us vs));
      start_in = r.start_in;
      last_in = mod-lt (b.last_ack_pos + length vs) (omega arith);
      fits = omega (arith, length-append us vs, r.fits);
    }

pub add_data-ring :
    (b : RcvBuffer) (u : RcvUnit) (offset : ℕ)
    → ((add_data b u offset).1.size ≡ b.size) × ((add_data b u offset).1.notch ≡ b.notch)
unfolding add_data
add_data-ring b u offset = elim (Option-cases (b.units ((b.last_ack_pos + offset) % b.size))) [
  | inl free ↦ rw (free, add_data) (refl, refl)
  | inr (old, there) ↦ rw (there, add_data) (refl, refl)
]

pub ack_data-ring :
    (b : RcvBuffer) (n : ℕ) → ((ack_data b n).size ≡ b.size) × ((ack_data b n).notch ≡ b.notch)
unfolding ack_data
ack_data-ring b n = (refl, refl)

-- A slot that is taken keeps its unit.
pub add_data-taken :
    (b : RcvBuffer) (u old : RcvUnit) (offset : ℕ)
    → b.units ((b.last_ack_pos + offset) % b.size) ≡ some old
    → ((add_data b u offset).0 ≡ false) × ((add_data b u offset).1.units ≡ b.units)
unfolding add_data
add_data-taken b u old offset there = rw (there, add_data) (refl, refl)
