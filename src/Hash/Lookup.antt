-- ===== src/Hash/Lookup.antt =====
-- The buckets of CHash as a map in which a number can be there several times.
use uvudt.Common.{
  ℕ, ◌%◌, true, false, some, List, [], ◌∷◌, ◌≡◌, ◌∙◌, refl, sym, ap, arith, ◌==◌, if◌then◌else◌,
  Bool-cases, inl, inr,
}
use uvudt.Hash.{Hash, find_in, lookup, insert, unlink, remove}

find_in-unlink_other :
    {A : Type 0} (id other : ℕ) (l : List (ℕ × A))
    → (other == id) ≡ false
    → find_in other (unlink id l) ≡ find_in other l
unfolding find_in unlink
find_in-unlink_other id other [] h = refl
find_in-unlink_other id other ((key, u) ∷ rest) h =
    let later = find_in-unlink_other id other rest h in
    elim (Bool-cases (id == key)) [
      | inl same ↦
          let apart : (other == key) ≡ false = ground arith in
          rw (same, apart, unlink, find_in) refl
      | inr differs ↦ elim (Bool-cases (other == key)) [
        | inl here ↦ rw (differs, here, unlink, find_in) refl
        | inr beyond ↦ rw (differs, beyond, unlink, find_in) later
      ]
    ]

lookup-insert_one :
    {A : Type 0} (h : Hash A) (id : ℕ) (u : A) (other : ℕ)
    → lookup (insert h id u) other ≡ (if other == id then some u else lookup h other)
unfolding lookup insert find_in
lookup-insert_one h id u other =
    let n = h.hash_size in
    elim (Bool-cases (other == id)) [
      | inl same ↦
          let at : (other % n == id % n) ≡ true =
            (let e : other ≡ id = ground arith in
              let m = ap (λ (x : ℕ). x % n) e in ground (arith, m)) in
          rw (at, same, insert, find_in) refl
      | inr differs ↦ elim (Bool-cases (other % n == id % n)) [
        | inl at ↦
            let where_at : other % n ≡ id % n = ground arith in
            rw (at, differs, insert, find_in)
              (ap (λ (i : ℕ). find_in other (h.bucket i)) (sym where_at))
        | inr away ↦ rw (away, differs, insert) refl
      ]
    ]

remove_other :
    {A : Type 0} (h : Hash A) (id other : ℕ)
    → (other == id) ≡ false
    → lookup (remove h id) other ≡ lookup h other
unfolding lookup remove
remove_other h id other differs =
    let n = h.hash_size in
    elim (Bool-cases (other % n == id % n)) [
      | inl at ↦
          let where_at : other % n ≡ id % n = ground arith in
          rw (at, remove)
            (find_in-unlink_other id other (h.bucket (id % n)) differs
              ∙ ap (λ (i : ℕ). find_in other (h.bucket i)) (sym where_at))
      | inr away ↦ rw (away, remove) refl
    ]

removed_again :
    {A : Type 0} (h : Hash A) (id : ℕ) (u : A) (other : ℕ)
    → lookup (remove (insert h id u) id) other ≡ lookup h other
unfolding lookup remove insert unlink
removed_again h id u other =
    let n = h.hash_size in
    let self : (id % n == id % n) ≡ true = ground arith in
    let same : (id == id) ≡ true = ground arith in
    elim (Bool-cases (other % n == id % n)) [
      | inl at ↦
          let where_at : other % n ≡ id % n = ground arith in
          rw (at, self, same, remove) (ap (λ (i : ℕ). find_in other (h.bucket i)) (sym where_at))
      | inr away ↦ rw (away, remove, insert) refl
    ]

-- The table as a map from socket numbers, for numbers that are the same or fall into one bucket as well
-- as others: a number that is inserted is found with its connection, and every other number as before.
-- A removal leaves the other numbers as they are, and takes back an insertion: then every number is
-- found as before it, also one that had been inserted twice.
pub lookup-insert-remove :
    {A : Type 0} (h : Hash A) (id : ℕ) (u : A) (other : ℕ)
    → (lookup (insert h id u) other ≡ (if other == id then some u else lookup h other))
      × (lookup (remove (insert h id u) id) other ≡ lookup h other)
      × ((other == id) ≡ false → lookup (remove h id) other ≡ lookup h other)
lookup-insert-remove h id u other =
    (lookup-insert_one h id u other, removed_again h id u other, remove_other h id other)
