-- ===== src/RcvLossList/Wraps.antt =====
-- `remove` of CRcvLossList for a range that goes past the largest number.
use uvudt.Common.{
  ℕ, zero, suc, ◌+◌, ◌-◌, ◌%◌, ◌≤◌, ◌<◌, true, false, some, ◌≡◌, ◌∙◌, refl, ap, arith, Bool-cases,
  inl, inr,
}
use native.Mathlib.Nat.{mod-lt}
use uvudt.Common.Int.{ℤ, pos, pos_part, ◌+ℤ◌, ◌-ℤ◌, mod_ℤ, ltb_ℤ, leb_ℤ, ◌==ℤ◌, minus_one}
use uvudt.Seqno.{seqoff, max_seqno}
use uvudt.RcvLossList.Ends.{find_start-stops, before_lem, before, slot_lem}
use uvudt.RcvLossList.{RcvLossList, remove_at, remove_inside, remove, remove_run, remove_range}

-- The list holds the number `m` and nothing else.
pub record Single (l : RcvLossList) (h : ℕ) (m : ℤ) : Type 0 where
  pub head_is : l.head ≡ pos h
  pub in_arrays : h < l.size
  pub holds : l.data1 (pos h) ≡ m
  pub one : l.data2 (pos h) ≡ minus_one
  pub others : (i : ℤ) → (l.data1 i ==ℤ minus_one) ≡ false → i ≡ pos h
  pub real : (m ==ℤ minus_one) ≡ false

remove_at-keeps :
    (l : RcvLossList) (k h x : ℕ) (m : ℤ)
    → Single l h m
    → k < l.size
    → (pos x ==ℤ m) ≡ false
    → remove_at l (pos k) (pos x) ≡ some (false, l)
unfolding remove_at remove_inside
remove_at-keeps l k h x m only k_in other =
    let elsewhere : (pos x ==ℤ l.data1 (pos k)) ≡ false =
      elim (Bool-cases (l.data1 (pos k) ==ℤ minus_one)) [
        | inl empty ↦ ground arith
        | inr full ↦ rw (only.others (pos k) full, only.holds) other
      ] in
    let full : (l.data1 (pos h) ==ℤ minus_one) ≡ false = rw (only.holds) (only.real) in
    let (i, ends, has_data) =
      find_start-stops l.size l.data1 l.size h (before l.size k) only.in_arrays (ground arith) full
        (ground arith) in
    let single : (l.data2 i ==ℤ minus_one) ≡ true = rw (only.others i has_data, only.one) refl in
    rw (elsewhere, before_lem l.size k k_in, ends) (rw single refl)

remove-keeps :
    (l : RcvLossList) (h x : ℕ) (m : ℤ)
    → Single l h m
    → (pos x ==ℤ m) ≡ false
    → remove l (pos x) ≡ some (false, l)
unfolding remove
remove-keeps l h x m only other = elim (Bool-cases (l.length ==ℤ pos 0)) [
  | inl empty ↦ rw empty refl
  | inr some_loss ↦
      let offset = seqoff (l.data1 l.head) (pos x) in
      elim (Bool-cases (ltb_ℤ offset (pos 0))) [
        | inl before_head ↦ rw (some_loss, before_head) refl
        | inr behind ↦
            let place : mod_ℤ (l.head +ℤ offset) l.size ≡ pos ((h + pos_part offset) % l.size) =
              ap (λ z. mod_ℤ (z +ℤ offset) l.size) only.head_is ∙ slot_lem l.size h offset behind in
            let inside = only.in_arrays in
            rw (some_loss, behind, place)
              (remove_at-keeps l ((h + pos_part offset) % l.size) h x m only
                (mod-lt (h + pos_part offset) (omega arith)) other)
      ]
]

remove_run-keeps :
    (n : ℕ) (l : RcvLossList) (h x : ℕ) (m : ℕ)
    → Single l h (pos m)
    → x + n ≤ m
    → remove_run n (pos x) l ≡ some l
unfolding remove_run
remove_run-keeps zero l h x m only below = refl
remove_run-keeps (suc n) l h x m only below =
    let other : (pos x ==ℤ pos m) ≡ false = ground arith in
    let next : pos x +ℤ pos 1 ≡ pos (x + 1) = unfold ◌+ℤ◌ in ground arith in
    rw (remove-keeps l h x (pos m) only other, remove_run)
      (rw next (remove_run-keeps n l h (x + 1) m only (omega arith)))

-- The largest number stays in the list: on a list that holds it alone, `remove` of a range that goes
-- past it, from a first number to a smaller last one, changes nothing, although it is in the range.
pub remove_range-keeps :
    (l : RcvLossList) (h a b : ℕ)
    → Single l h (pos max_seqno)
    → b < a
    → a ≤ max_seqno
    → remove_range l (pos a) (pos b) ≡ some l
unfolding remove_range
remove_range-keeps l h a b only wraps in_range =
    let first : pos_part (pos max_seqno -ℤ pos a) ≡ max_seqno - a = unfold ◌-ℤ◌ in ground arith in
    let second : pos_part (pos b +ℤ pos 1) ≡ b + 1 = unfold ◌+ℤ◌ in ground arith in
    let turns : leb_ℤ (pos a) (pos b) ≡ false = ground arith in
    let run_first = remove_run-keeps (max_seqno - a) l h a max_seqno only (omega arith) in
    let run_second = remove_run-keeps (b + 1) l h 0 max_seqno only (omega arith) in
    rw (turns, first, run_first, remove_range) (rw second run_second)
