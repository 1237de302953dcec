-- ===== src/SndLossList/First.antt =====
-- `getLostSeq` of CSndLossList, as an operation on the list of the ranges.
use uvudt.Common.{
  true, false, some, List, [], ◌∷◌, ◌≡◌, ◌∙◌, refl, sym, ap, arith, if◌then◌else◌, Bool-cases, inl,
  inr,
}
use mathlib.Core.Path.{subst}
use uvudt.Common.Int.{ℤ, pos, ◌+ℤ◌, ◌-ℤ◌, mod_ℤ, ltb_ℤ, ◌==ℤ◌, minus_one, IntArray, put, put_self}
use uvudt.Seqno.{incseq, seqcmp}
use uvudt.RcvLossList.Chain.{Linked, Free, Distinct, ranges, Linked-put, ranges-put₁, ranges-put₂}
use uvudt.SndLossList.{SndLossList, get_lost_seq, remove, remove_head, rest_end}

-- The ranges without the first number.
abbrev pub take_first : List (ℤ × ℤ) → List (ℤ × ℤ)
take_first [] = []
take_first ((x, y) ∷ rs) =
    if y ==ℤ minus_one
    then rs
    else (incseq x, if ltb_ℤ (pos 0) (seqcmp y (incseq x)) then y else minus_one) ∷ rs

-- A list whose first number is taken.
pub record Taken (l : SndLossList) (ps : List ℤ) (l' : SndLossList) : Type 0 where
  pub nodes : List ℤ
  pub link : Linked l'.next l'.head nodes
  pub distinct : Distinct nodes
  pub content : ranges l'.data1 l'.data2 nodes ≡ take_first (ranges l.data1 l.data2 ps)
  pub counted : l'.length ≡ l.length -ℤ pos 1

moved_range :
    (data1 data2 : IntArray) (h loc : ℤ) (qs : List ℤ) (x : ℤ) (end : IntArray)
    → Free h qs
    → Free loc (h ∷ qs)
    → (if ltb_ℤ (pos 0) (seqcmp (data2 h) (incseq x)) then put data2 loc (data2 h) else data2) ≡ end
    → data2 loc ≡ minus_one
    → ranges (put (put data1 loc (incseq x)) h minus_one) (put end h minus_one) (loc ∷ qs)
      ≡ (incseq x, if ltb_ℤ (pos 0) (seqcmp (data2 h) (incseq x)) then data2 h else minus_one)
        ∷ ranges data1 data2 qs
moved_range data1 data2 h loc qs x end not_head free is_end empty =
    let back : (loc ==ℤ h) ≡ false = ground (arith, free.0) in
    let cleared =
      ranges-put₂ (put (put data1 loc (incseq x)) h minus_one) end h minus_one qs not_head in
    let first = ranges-put₁ (put data1 loc (incseq x)) end h minus_one qs not_head in
    let second = ranges-put₁ data1 end loc (incseq x) qs free.1 in
    let third = ranges-put₂ data1 data2 loc (data2 h) qs free.1 in
    elim (Bool-cases (ltb_ℤ (pos 0) (seqcmp (data2 h) (incseq x)))) [
      | inl longer ↦
          let is : put data2 loc (data2 h) ≡ end = rw longer at is_end in
          let at_loc : end loc ≡ data2 h = rw (sym is) (put_self data2 loc (data2 h)) in
          let rest : ranges data1 end qs ≡ ranges data1 data2 qs = rw (sym is) third in
          rw (back, put_self data1 loc (incseq x), longer, at_loc)
            (ap (λ r. (incseq x, data2 h) ∷ r) (cleared ∙ first ∙ second ∙ rest))
      | inr ends ↦
          let is : data2 ≡ end = rw ends at is_end in
          let at_loc : end loc ≡ minus_one = rw (sym is) empty in
          let rest : ranges data1 end qs ≡ ranges data1 data2 qs = rw (sym is) refl in
          rw (back, put_self data1 loc (incseq x), ends, at_loc)
            (ap (λ r. (incseq x, minus_one) ∷ r) (cleared ∙ first ∙ second ∙ rest))
    ]

remove_head-Taken :
    (l : SndLossList) (loc : ℤ) (qs : List ℤ)
    → Linked l.next (l.next l.head) qs
    → Distinct (l.head ∷ qs)
    → Free loc (l.head ∷ qs)
    → (loc ==ℤ minus_one) ≡ false
    → l.data2 loc ≡ minus_one
    → Taken l (l.head ∷ qs) (remove_head l loc (l.data1 l.head))
unfolding remove_head
remove_head-Taken l loc qs link distinct free ok empty =
    elim (Bool-cases (l.data2 l.head ==ℤ minus_one)) [
      | inl one ↦
          rw (one, remove_head)
            (record {
              nodes = qs;
              link = link;
              distinct = distinct.1;
              content = rw one (ranges-put₁ l.data1 l.data2 l.head minus_one qs distinct.0);
              counted = refl;
            })
      | inr more ↦
          rw (more, remove_head)
            (record {
              nodes = loc ∷ qs;
              link = (
                refl,
                ok,
                subst (λ p. Linked (put l.next loc (l.next l.head)) p qs)
                    (sym (put_self l.next loc (l.next l.head)))
                    (Linked-put l.next loc (l.next l.head) (l.next l.head) qs free.1 link),
              );
              distinct = (free.1, distinct.1);
              content = rw more (
                  moved_range l.data1 l.data2 l.head loc qs (l.data1 l.head)
                    (rest_end l l.head loc (l.data1 l.head)) distinct.0 free refl empty);
              counted = refl;
            })
    ]

-- `getLostSeq` on a list that is not empty, and whose next slot is free and clear: it gives the first
-- number of the ranges, and leaves the ranges without that number and a length that is one less.
pub get_lost_seq-Taken :
    (l : SndLossList) (q : ℤ) (qs : List ℤ)
    → (l.length ==ℤ pos 0) ≡ false
    → Linked l.next l.head (q ∷ qs)
    → Distinct (q ∷ qs)
    → Free (mod_ℤ (l.head +ℤ pos 1) l.size) (q ∷ qs)
    → (mod_ℤ (l.head +ℤ pos 1) l.size ==ℤ minus_one) ≡ false
    → l.data2 (mod_ℤ (l.head +ℤ pos 1) l.size) ≡ minus_one
    → ((get_lost_seq l).0 ≡ l.data1 q) × Taken l (q ∷ qs) (get_lost_seq l).1
unfolding get_lost_seq
get_lost_seq-Taken l q qs count link distinct free ok empty =
    let loc = mod_ℤ (l.head +ℤ pos 1) l.size in
    let back = sym (link.0) in
    let taken =
      remove_head-Taken l loc qs link.2 (subst (λ h. Distinct (h ∷ qs)) back distinct)
        (subst (λ h. Free loc (h ∷ qs)) back free) ok empty in
    rw (count, get_lost_seq)
      (
        ap l.data1 link.0,
        subst (λ h. Taken l (h ∷ qs) (remove_head l loc (l.data1 l.head))) link.0 taken,
      )

pub get_lost_seq_empty :
    (l : SndLossList) → (l.length ==ℤ pos 0) ≡ true → get_lost_seq l ≡ (minus_one, l)
unfolding get_lost_seq
get_lost_seq_empty l h = rw (h, get_lost_seq) refl

pub remove_empty :
    (l : SndLossList) (seqno : ℤ) → (l.length ==ℤ pos 0) ≡ true → remove l seqno ≡ some l
unfolding remove
remove_empty l seqno h = rw (h, remove) refl
