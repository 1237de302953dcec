-- ===== src/Epoll/Sets.antt =====
-- `std::set<int>` as CEPoll of UDT4/src/epoll.cpp uses it: a list without repetitions.
use uvudt.Common.{
  Bool, true, false, ◌||◌, List, [], ◌∷◌, ◌≡◌, refl, arith, if◌then◌else◌, Bool-cases, inl, inr,
}
use uvudt.Common.Int.{ℤ, ◌==ℤ◌, ==ℤ_iff}

abbrev pub IntSet : Type 0
IntSet = List ℤ

unfoldable pub contains : IntSet → ℤ → Bool
contains [] a = false
contains (x ∷ xs) a = if a ==ℤ x then true else contains xs a

unfoldable pub insert : IntSet → ℤ → IntSet
unfolding contains
insert xs a = if contains xs a then xs else a ∷ xs

unfoldable pub erase : IntSet → ℤ → IntSet
erase [] a = []
erase (x ∷ xs) a = if a ==ℤ x then erase xs a else x ∷ erase xs a

unfoldable pub union : IntSet → IntSet → IntSet
union xs [] = xs
union xs (y ∷ ys) = union (insert xs y) ys

abbrev pub is_empty : IntSet → Bool
is_empty [] = true
is_empty (x ∷ xs) = false

pub contains-insert :
    (xs : IntSet) (a b : ℤ) → contains (insert xs a) b ≡ (if b ==ℤ a then true else contains xs b)
unfolding insert
contains-insert xs a b = elim (Bool-cases (contains xs a)) [
  | inl old ↦ rw old (elim (Bool-cases (b ==ℤ a)) [
    | inl same ↦ rw (same, (==ℤ_iff b a).0 same) old
    | inr other ↦ rw other refl
  ])
  | inr new ↦ rw new refl
]

pub contains-erase :
    (xs : IntSet) (a b : ℤ) → contains (erase xs a) b ≡ (if b ==ℤ a then false else contains xs b)
unfolding contains erase
contains-erase [] a b = ground arith
contains-erase (x ∷ xs) a b = ground (arith, contains-erase xs a b)

pub contains-union :
    (xs ys : IntSet) (b : ℤ) → contains (union xs ys) b ≡ contains xs b || contains ys b
unfolding contains union
contains-union xs [] b = ground arith
contains-union xs (y ∷ ys) b =
    ground (arith, contains-union (insert xs y) ys b, contains-insert xs y b)
