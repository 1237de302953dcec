-- ===== src/United/Maps.antt =====
-- `std::map<int, A>` and the ordered `std::set<int>`, as CUDTUnited of UDT4/src/api.cpp uses them.
use uvudt.Common.{
  true, false, Option, none, some, List, [], ◌∷◌, ◌≡◌, refl, ◌∙◌, arith, if◌then◌else◌, Bool-cases,
  Option-cases, inl, inr,
}
use uvudt.Common.Int.{ℤ, ltb_ℤ, ◌==ℤ◌, ==ℤ_iff}
use mathlib.Core.Path.{subst}
use uvudt.Epoll.Sets.{IntSet, contains}

module _ {ℓ} {A : Type ℓ} where
  unfoldable pub fetch : List (ℤ × A) → ℤ → Option A
  fetch [] k = none
  fetch ((i, a) ∷ m) k = if i ==ℤ k then some a else fetch m k

  -- The place of a new key.
  unfoldable pub insert_key : List (ℤ × A) → ℤ → A → List (ℤ × A)
  insert_key [] k a = (k, a) ∷ []
  insert_key ((i, b) ∷ m) k a = if ltb_ℤ k i then (k, a) ∷ (i, b) ∷ m else (i, b) ∷ insert_key m k a

  unfoldable pub replace : List (ℤ × A) → ℤ → A → List (ℤ × A)
  replace [] k a = []
  replace ((i, b) ∷ m) k a = if i ==ℤ k then (i, a) ∷ m else (i, b) ∷ replace m k a

  -- `m[k] = a`
  unfoldable pub assign_key : List (ℤ × A) → ℤ → A → List (ℤ × A)
  unfolding fetch insert_key replace
  assign_key m k a = elim (fetch m k) [ none ↦ insert_key m k a | some b ↦ replace m k a ]

  -- `m.erase(k)`
  unfoldable pub discard : List (ℤ × A) → ℤ → List (ℤ × A)
  discard [] k = []
  discard ((i, b) ∷ m) k = if i ==ℤ k then m else (i, b) ∷ discard m k

module _ {A : Type 0} where
  fetch-insert_key :
      (m : List (ℤ × A)) (k j : ℤ) (a : A)
      → fetch m k ≡ none
      → fetch (insert_key m k a) j ≡ (if k ==ℤ j then some a else fetch m j)
  unfolding fetch insert_key
  fetch-insert_key [] k j a gone = ground arith
  fetch-insert_key ((i, b) ∷ m) k j a gone = ground (arith, fetch-insert_key m k j a)

  fetch-replace :
      (m : List (ℤ × A)) (k j : ℤ) (a b : A)
      → fetch m k ≡ some b
      → fetch (replace m k a) j ≡ (if k ==ℤ j then some a else fetch m j)
  unfolding fetch replace
  fetch-replace [] k j a b there = ground arith
  fetch-replace ((i, c) ∷ m) k j a b there = ground (arith, fetch-replace m k j a b)

  pub fetch-assign_key :
      (m : List (ℤ × A)) (k j : ℤ) (a : A)
      → fetch (assign_key m k a) j ≡ (if k ==ℤ j then some a else fetch m j)
  unfolding assign_key
  fetch-assign_key m k j a = elim (Option-cases (fetch m k)) [
    | inl gone ↦ rw (gone, assign_key) (fetch-insert_key m k j a gone)
    | inr (b, there) ↦ rw (there, assign_key) (fetch-replace m k j a b there)
  ]

  -- No key twice.
  abbrev pub Distinct : List (ℤ × A) → Type 0
  Distinct [] = Unit
  Distinct ((i, a) ∷ m) = (fetch m i ≡ none) × Distinct m

  Distinct-insert_key :
      (m : List (ℤ × A)) (k : ℤ) (a : A)
      → fetch m k ≡ none
      → Distinct m
      → Distinct (insert_key m k a)
  unfolding fetch insert_key
  Distinct-insert_key [] k a gone d = (refl, tt)
  Distinct-insert_key ((i, b) ∷ m) k a gone d = elim (Bool-cases (i ==ℤ k)) [
    | inl same ↦ ground (arith, gone, same)
    | inr other ↦
        let rest_gone : fetch m k ≡ none = ground arith in
        elim (Bool-cases (ltb_ℤ k i)) [
          | inl first ↦ rw first (rw other rest_gone, d)
          | inr behind ↦ rw behind (
            fetch-insert_key m k i a rest_gone ∙ ground (arith, d.0, other),
            Distinct-insert_key m k a rest_gone d.1,
          )
        ]
  ]

  fetch-replace_ne :
      (m : List (ℤ × A)) (k j : ℤ) (a : A) → (k ==ℤ j) ≡ false → fetch (replace m k a) j ≡ fetch m j
  unfolding fetch replace
  fetch-replace_ne [] k j a other = refl
  fetch-replace_ne ((i, b) ∷ m) k j a other = ground (arith, fetch-replace_ne m k j a)

  fetch-discard_ne :
      (m : List (ℤ × A)) (k j : ℤ) → (k ==ℤ j) ≡ false → fetch (discard m k) j ≡ fetch m j
  unfolding fetch discard
  fetch-discard_ne [] k j other = refl
  fetch-discard_ne ((i, b) ∷ m) k j other = ground (arith, fetch-discard_ne m k j)

  fetch-discard_self : (m : List (ℤ × A)) (k : ℤ) → Distinct m → fetch (discard m k) k ≡ none
  unfolding fetch discard
  fetch-discard_self [] k d = refl
  fetch-discard_self ((i, b) ∷ m) k d = elim (Bool-cases (i ==ℤ k)) [
    | inl same ↦ rw same (subst (λ j. fetch m j ≡ none) ((==ℤ_iff i k).0 same) d.0)
    | inr other ↦ rw (other, discard, fetch, other) (fetch-discard_self m k d.1)
  ]

  Distinct-replace : (m : List (ℤ × A)) (k : ℤ) (a : A) → Distinct m → Distinct (replace m k a)
  unfolding fetch replace
  Distinct-replace [] k a d = tt
  Distinct-replace ((i, b) ∷ m) k a d = elim (Bool-cases (i ==ℤ k)) [
    | inl same ↦ rw same d
    | inr other ↦
        rw other (fetch-replace_ne m k i a (ground arith) ∙ d.0, Distinct-replace m k a d.1)
  ]

  pub Distinct-assign_key :
      (m : List (ℤ × A)) (k : ℤ) (a : A) → Distinct m → Distinct (assign_key m k a)
  unfolding assign_key
  Distinct-assign_key m k a d = elim (Option-cases (fetch m k)) [
    | inl gone ↦ rw (gone, assign_key) (Distinct-insert_key m k a gone d)
    | inr (b, there) ↦ rw (there, assign_key) (Distinct-replace m k a d)
  ]

  pub fetch-discard :
      (m : List (ℤ × A)) (k j : ℤ)
      → Distinct m
      → fetch (discard m k) j ≡ (if k ==ℤ j then none else fetch m j)
  fetch-discard m k j d = elim (Bool-cases (k ==ℤ j)) [
    | inl same ↦ rw same (
        subst (λ i. fetch (discard m k) i ≡ none) ((==ℤ_iff k j).0 same) (fetch-discard_self m k d))
    | inr other ↦ rw other (fetch-discard_ne m k j other)
  ]

  pub Distinct-discard : (m : List (ℤ × A)) (k : ℤ) → Distinct m → Distinct (discard m k)
  unfolding fetch discard
  Distinct-discard [] k d = tt
  Distinct-discard ((i, b) ∷ m) k d = elim (Bool-cases (i ==ℤ k)) [
    | inl same ↦ rw same d.1
    | inr other ↦ rw other (fetch-discard_ne m k i (ground arith) ∙ d.0, Distinct-discard m k d.1)
  ]

-- The place of a new member.
unfoldable pub insert_member : IntSet → ℤ → IntSet
insert_member [] a = a ∷ []
insert_member (x ∷ xs) a = if ltb_ℤ a x then a ∷ x ∷ xs else x ∷ insert_member xs a

-- `xs.insert(a)`
unfoldable pub add_member : IntSet → ℤ → IntSet
unfolding insert_member
add_member xs a = if contains xs a then xs else insert_member xs a

contains-insert_member :
    (xs : IntSet) (a b : ℤ)
    → contains (insert_member xs a) b ≡ (if b ==ℤ a then true else contains xs b)
unfolding contains insert_member
contains-insert_member [] a b = ground arith
contains-insert_member (x ∷ xs) a b = ground (arith, contains-insert_member xs a b)

pub contains-add_member :
    (xs : IntSet) (a b : ℤ)
    → contains (add_member xs a) b ≡ (if b ==ℤ a then true else contains xs b)
unfolding add_member
contains-add_member xs a b = elim (Bool-cases (contains xs a)) [
  | inl old ↦ rw old (elim (Bool-cases (b ==ℤ a)) [
    | inl same ↦ rw (same, (==ℤ_iff b a).0 same) old
    | inr other ↦ rw other refl
  ])
  | inr new ↦ rw new (contains-insert_member xs a b)
]
