-- ===== src/SndLossList/Tests.antt =====
-- The theorems on a sender's loss list with two ranges, 5 to 9 and 12.
use uvudt.Common.{Option, some, none, [], ◌∷◌, ◌≡◌, refl}
use uvudt.Common.Int.{ℤ, pos, ◌+ℤ◌, ◌-ℤ◌, mod_ℤ, minus_one, put, abs}
use uvudt.Seqno.{seqoff, seqcmp, seqlen, incseq}
use uvudt.Seqno.Circular.{off, cmp, len, next}
use uvudt.SndLossList.First.{Taken, get_lost_seq-Taken}
use uvudt.SndLossList.{
  SndLossList, insert, insert_first, place, insert_before, widen, grown, find_prior, search_start,
  insert_behind, insert_head, merge, coalesce, get_lost_seq, remove_head, remove, remove_start,
  remove_inside, clear,
}

abbrev two : SndLossList
two = record {
  data1 = put (put (λ i. minus_one) (pos 0) (pos 5)) (pos 7) (pos 12);
  data2 = put (λ i. minus_one) (pos 0) (pos 9);
  next = put (put (λ i. minus_one) (pos 0) (pos 7)) (pos 7) minus_one;
  head = pos 0;
  length = pos 6;
  size = 64;
  last_insert_pos = pos 7;
}

abbrev summary : Option (ℤ × SndLossList) → Option (ℤ × ℤ × ℤ × ℤ × ℤ)
summary none = none
summary (some (n, l)) = some (n, l.length, l.data1 l.head, l.data2 l.head, l.next l.head)

-- The range 8 to 14 joins both nodes: four new losses, and one node from 5 to 14.
joins_both : summary (insert two (pos 8) (pos 14)) ≡ some (pos 4, pos 10, pos 5, pos 14, minus_one)
unfolding insert insert_first place insert_before widen grown find_prior search_start insert_behind
    insert_head merge coalesce seqoff seqcmp seqlen incseq off cmp len next abs ◌+ℤ◌ ◌-ℤ◌ mod_ℤ
joins_both = refl

-- Everything up to 7 is gone.
abbrev left : Option SndLossList → Option (ℤ × ℤ × ℤ)
left none = none
left (some l) = some (l.length, l.data1 l.head, l.data2 l.head)

removes_start : left (remove two (pos 7)) ≡ some (pos 3, pos 8, pos 9)
unfolding remove remove_head remove_start remove_inside clear find_prior seqoff seqcmp seqlen incseq
    off cmp len next abs ◌+ℤ◌ ◌-ℤ◌ mod_ℤ
removes_start = refl

get_lost_seq-Taken_example :
    ((get_lost_seq two).0 ≡ pos 5) × Taken two (pos 0 ∷ pos 7 ∷ []) (get_lost_seq two).1
unfolding ◌+ℤ◌ mod_ℤ
get_lost_seq-Taken_example =
    get_lost_seq-Taken two (pos 0) (pos 7 ∷ []) refl (refl, refl, (refl, refl, refl))
      ((refl, tt), (tt, tt)) (refl, (refl, tt)) refl refl
