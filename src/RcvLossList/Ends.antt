-- ===== src/RcvLossList/Ends.antt =====
-- The search of `remove` of CRcvLossList for the start of a range ends.
use uvudt.Common.{
  ℕ, zero, suc, ◌+◌, ◌-◌, ◌%◌, ◌<◌, Bool, true, false, some, ◌≡◌, ◌∙◌, refl, ap, arith, leb, ◌==◌,
  if◌then◌else◌, Bool-cases, inl, inr, mod_once,
}
use native.Mathlib.Nat.{mod-eq_of_lt, mod-lt}
use uvudt.Common.Int.{
  ℤ, pos, negsuc, pos_part, ◌+ℤ◌, ◌-ℤ◌, mod_ℤ, ltb_ℤ, ◌==ℤ◌, minus_one, IntArray,
}
use uvudt.Seqno.{seqoff}
use uvudt.RcvLossList.{
  RcvLossList, find_start, remove_at, remove_inside, drop_node, shift_node, remove,
}

abbrev pub before : ℕ → ℕ → ℕ
before size k = if k == 0 then size - 1 else k - 1

pub before_lem :
    (size k : ℕ) → k < size → mod_ℤ (pos k -ℤ pos 1 +ℤ pos size) size ≡ pos (before size k)
unfolding mod_ℤ ◌+ℤ◌ ◌-ℤ◌
before_lem size zero h =
    let plain : pos 0 -ℤ pos 1 +ℤ pos size ≡ pos (size - 1) = ground arith in
    let wraps : (size - 1) % size ≡ size - 1 =
      mod-eq_of_lt {n = size - 1} {m = size} (omega arith) in
    ap (λ z. mod_ℤ z size) plain ∙ ap pos wraps
before_lem size (suc k) h =
    let plain : pos (suc k) -ℤ pos 1 +ℤ pos size ≡ pos (k + size) = ground arith in
    let wraps : (k + size) % size ≡ before size (suc k) =
      ground (arith, mod_once size (k + size) (omega arith)) in
    ap (λ z. mod_ℤ z size) plain ∙ ap pos wraps

-- How far back `h` is from `k`.
abbrev back_to : ℕ → ℕ → ℕ → ℕ
back_to size h k = if leb h k then k - h else k + size - h

-- The search from `k` stops, at a slot that has data, as some slot has.
pub find_start-stops :
    (fuel : ℕ) (data1 : IntArray) (size h k : ℕ)
    → h < size
    → k < size
    → (data1 (pos h) ==ℤ minus_one) ≡ false
    → back_to size h k < fuel
    → (i : ℤ) × (find_start fuel data1 size (pos k) ≡ some i) × ((data1 i ==ℤ minus_one) ≡ false)
unfolding find_start
find_start-stops zero data1 size h k h_in k_in full near = absurd (omega arith)
find_start-stops (suc fuel) data1 size h k h_in k_in full near =
    elim (Bool-cases (data1 (pos k) ==ℤ minus_one)) [
      | inr found ↦ (pos k, rw found refl, found)
      | inl empty ↦
          let other : (k == h) ≡ false = elim (Bool-cases (k == h)) [
            | inr apart ↦ apart
            | inl same ↦
                let k_is : k ≡ h = ground arith in
                absurd (ground (arith, ap (λ z. data1 (pos z) ==ℤ minus_one) k_is))
          ] in
          let (i, ends, has_data) =
            find_start-stops fuel data1 size h (before size k) h_in (ground arith) full
              (ground arith) in
          (i, rw (empty, before_lem size k k_in) ends, has_data)
    ]

remove_at-ends :
    (l : RcvLossList) (k h : ℕ) (seqno : ℤ)
    → k < l.size
    → h < l.size
    → (l.data1 (pos h) ==ℤ minus_one) ≡ false
    → (r : Bool × RcvLossList) × (remove_at l (pos k) seqno ≡ some r)
unfolding remove_at
remove_at-ends l k h seqno k_in h_in full = elim (Bool-cases (seqno ==ℤ l.data1 (pos k))) [
  | inl starts ↦ (
    (true, if l.data2 (pos k) ==ℤ minus_one then drop_node l (pos k) else shift_node l (pos k)),
    rw starts refl,
  )
  | inr inside ↦
      let (i, ends, has_data) =
        find_start-stops l.size l.data1 l.size h (before l.size k) h_in (ground arith) full
          (ground arith) in
      (remove_inside l (pos k) seqno i, rw (inside, before_lem l.size k k_in, ends) refl)
]

pub slot_lem :
    (size h : ℕ) (offset : ℤ)
    → ltb_ℤ offset (pos 0) ≡ false
    → mod_ℤ (pos h +ℤ offset) size ≡ pos ((h + pos_part offset) % size)
unfolding mod_ℤ ◌+ℤ◌
slot_lem size h (pos n) at_least = ground arith
slot_lem size h (negsuc n) at_least = absurd (ground arith)

-- `remove` ends: on a list whose head is a slot of the arrays that holds a number, the search for the
-- start of a range stops within as many steps as the arrays have slots, for every number.
pub remove-ends :
    (l : RcvLossList) (h : ℕ) (seqno : ℤ)
    → l.head ≡ pos h
    → h < l.size
    → (l.data1 (pos h) ==ℤ minus_one) ≡ false
    → (r : Bool × RcvLossList) × (remove l seqno ≡ some r)
unfolding remove
remove-ends l h seqno head_is h_in full = elim (Bool-cases (l.length ==ℤ pos 0)) [
  | inl empty ↦ ((false, l), rw empty refl)
  | inr some_loss ↦
      let offset = seqoff (l.data1 l.head) seqno in
      elim (Bool-cases (ltb_ℤ offset (pos 0))) [
        | inl before_head ↦ ((false, l), rw (some_loss, before_head) refl)
        | inr behind ↦
            let place : mod_ℤ (l.head +ℤ offset) l.size ≡ pos ((h + pos_part offset) % l.size) =
              ap (λ z. mod_ℤ (z +ℤ offset) l.size) head_is ∙ slot_lem l.size h offset behind in
            let (r, ends) =
              remove_at-ends l ((h + pos_part offset) % l.size) h seqno
                (mod-lt (h + pos_part offset) (omega arith)) h_in full in
            (r, rw (some_loss, behind, place) ends)
      ]
]
