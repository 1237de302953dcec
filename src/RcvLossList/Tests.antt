-- ===== src/RcvLossList/Tests.antt =====
-- The theorems on a receiver's loss list with two ranges, 5 to 9 and 12.
use uvudt.Common.{
  ◌+◌, ◌≤◌, Bool, true, Option, some, none, List, [], ◌∷◌, ◌≡◌, refl, arith, length, false,
  Bool-cases, inl, inr,
}
use uvudt.Common.Int.{ℤ, pos, ◌+ℤ◌, ◌-ℤ◌, mod_ℤ, minus_one, put, abs, ◌==ℤ◌, ==ℤ_iff}
use uvudt.Seqno.{seqoff, seqcmp, seqlen, incseq, decseq, max_seqno}
use uvudt.Seqno.Circular.{off, cmp, len, next, prev}
use uvudt.RcvLossList.Reports.{find-meets, get_loss_array_lem, words}
use uvudt.RcvLossList.Insert.{insert-Inserted, Inserted}
use uvudt.RcvLossList.Ends.{remove-ends}
use uvudt.RcvLossList.Wraps.{Single, remove_range-keeps}
use uvudt.RcvLossList.{
  RcvLossList, remove_range, create, insert, insert_first, insert_node, extend_tail, find,
  get_loss_array, remove, remove_at, remove_inside, find_start, split_node, trim_node,
}

abbrev two : RcvLossList
two = record {
  data1 = put (put (λ i. minus_one) (pos 0) (pos 5)) (pos 7) (pos 12);
  data2 = put (λ i. minus_one) (pos 0) (pos 9);
  next = put (put (λ i. minus_one) (pos 0) (pos 7)) (pos 7) minus_one;
  prior = put (put (λ i. minus_one) (pos 0) minus_one) (pos 7) (pos 0);
  head = pos 0;
  tail = pos 7;
  length = pos 6;
  size = 64;
}

abbrev two_nodes : List ℤ
two_nodes = pos 0 ∷ pos 7 ∷ []

abbrev summary : RcvLossList → ℤ × ℤ × ℤ × ℤ × ℤ × ℤ
summary l = (l.head, l.tail, l.length, l.data1 (pos 7), l.data2 (pos 0), l.next (pos 0))

abbrev fresh : RcvLossList
fresh = create (λ i. minus_one) (λ i. minus_one) 64

-- What the list is after the two calls of `insert`.
two_made : summary (insert (insert fresh (pos 5) (pos 9)) (pos 12) (pos 12)) ≡ summary two
unfolding create insert insert_first insert_node extend_tail seqoff seqlen incseq off len next abs
    ◌+ℤ◌ ◌-ℤ◌ mod_ℤ
two_made = refl

abbrev left : Option (Bool × RcvLossList) → Option (Bool × ℤ × ℤ × ℤ)
left none = none
left (some (b, l)) = some (b, l.length, l.data2 (pos 0), l.data1 (pos 3))

-- 7 leaves 5 to 6 and 8 to 9.
splits : left (remove two (pos 7)) ≡ some (true, pos 5, pos 6, pos 8)
unfolding remove remove_at remove_inside find_start split_node trim_node seqoff seqcmp seqlen incseq
    decseq off cmp len next prev abs ◌+ℤ◌ ◌-ℤ◌ mod_ℤ
splits = refl

-- The numbers 5 to 9 and 12, counted from 5; 9 to 11 meets the first range in its last number.
find-meets_example : find two (pos 9) (pos 11) ≡ some true
find-meets_example =
    find-meets two 5 4 6 two_nodes ((0, 4) ∷ (7, 7) ∷ []) (refl, refl, (refl, refl, refl))
      (omega arith) refl
      ((omega arith, refl, inr (refl, omega arith)), ((omega arith, refl, inl (refl, refl)), tt))
      (omega arith) (omega arith)

get_loss_array_lem_example :
    (length (get_loss_array two (pos 4)) ≤ 4)
    × (length (words two two_nodes) + 1 ≤ 4 → get_loss_array two (pos 4) ≡ words two two_nodes)
get_loss_array_lem_example =
    get_loss_array_lem two 4 two_nodes (refl, refl, (refl, refl, refl)) (omega arith)

insert-Inserted_example : Inserted two two_nodes (pos 20) (pos 22) (insert two (pos 20) (pos 22))
unfolding seqoff off abs ◌+ℤ◌ ◌-ℤ◌ mod_ℤ
insert-Inserted_example =
    insert-Inserted two two_nodes (pos 20) (pos 22)
      (record {
        link = (refl, refl, (refl, refl, refl));
        at_end = refl;
        distinct = ((refl, tt), (tt, tt));
      })
      refl (refl, (refl, tt)) refl refl

remove-ends_example : (r : Bool × RcvLossList) × (remove two (pos 20) ≡ some r)
remove-ends_example = remove-ends two 0 (pos 20) refl (omega arith) refl

-- Only the largest number is lost.
abbrev last_number : RcvLossList
last_number = record two {
  data1 = put (λ i. minus_one) (pos 0) (pos max_seqno);
  data2 = λ i. minus_one;
  next = λ i. minus_one;
  tail = pos 0;
  length = pos 1;
}

last_number-Single : Single last_number 0 (pos max_seqno)
last_number-Single = record {
  head_is = refl;
  in_arrays = omega arith;
  holds = refl;
  one = refl;
  others = at_0;
  real = refl;
}
  where
    at_0 : (i : ℤ) → (last_number.data1 i ==ℤ minus_one) ≡ false → i ≡ pos 0
    at_0 i h = elim (Bool-cases (i ==ℤ pos 0)) [
      | inl same ↦ (==ℤ_iff i (pos 0)).0 same
      | inr other ↦ absurd (ground arith)
    ]

remove_range-keeps_example : remove_range last_number (pos 0x3fff_fffe) (pos 1) ≡ some last_number
remove_range-keeps_example =
    remove_range-keeps last_number 0 0x3fff_fffe 1 last_number-Single (omega arith) (omega arith)
