-- ===== src/RcvLossList/Insert.antt =====
-- `insert` of CRcvLossList, as an operation on the list of the ranges.
use uvudt.Common.{
  Bool, true, false, not, ◌&&◌, List, [], ◌∷◌, ◌++◌, ◌≡◌, refl, sym, ap, arith, if◌then◌else◌,
  Bool-cases, inl, inr,
}
use mathlib.Core.Path.{subst}
use uvudt.Common.Int.{ℤ, pos, ◌+ℤ◌, mod_ℤ, ◌==ℤ◌, minus_one, IntArray, put, put_self}
use uvudt.Seqno.{incseq, seqoff, seqlen}
use uvudt.RcvLossList.Chain.{Linked, Free, Distinct, ranges, last}
use uvudt.RcvLossList.{RcvLossList, insert, insert_first, insert_node, extend_tail}

-- The nodes of a list: they are linked from the head to the tail, and none comes twice.
pub record Holds (l : RcvLossList) (ps : List ℤ) : Type 0 where
  pub link : Linked l.next l.head ps
  pub at_end : l.tail ≡ last l.tail ps
  pub distinct : Distinct ps

abbrev range : ℤ → ℤ → ℤ × ℤ
range a b = (a, if b ==ℤ a then minus_one else b)

-- A range at the end: it joins a last range of several numbers that it follows directly.
abbrev pub join : List (ℤ × ℤ) → ℤ → ℤ → List (ℤ × ℤ)
join [] a b = range a b ∷ []
join ((x, y) ∷ []) a b =
    if not (y ==ℤ minus_one) && incseq y ==ℤ a then (x, b) ∷ [] else (x, y) ∷ range a b ∷ []
join (r ∷ r' ∷ rs) a b = r ∷ join (r' ∷ rs) a b

abbrev pub is_nil : List ℤ → Bool
is_nil [] = true
is_nil (q ∷ qs) = false

-- Where `insert` puts a new node.
abbrev pub slot : RcvLossList → ℤ → ℤ
slot l a = if l.length ==ℤ pos 0 then pos 0 else mod_ℤ (l.head +ℤ seqoff (l.data1 l.head) a) l.size

Free-last : (p q : ℤ) (qs : List ℤ) → Free p (q ∷ qs) → (last q qs ==ℤ p) ≡ false
Free-last p q [] free = free.0
Free-last p q (r ∷ rs) free = Free-last p r rs free.1

Linked-append :
    (next : IntArray) (loc p q : ℤ) (qs : List ℤ)
    → Linked next p (q ∷ qs)
    → Distinct (q ∷ qs)
    → Free loc (q ∷ qs)
    → (loc ==ℤ minus_one) ≡ false
    → Linked (put (put next (last q qs) loc) loc minus_one) p ((q ∷ qs) ++ loc ∷ [])
Linked-append next loc p q [] link distinct free ok =
    let goes : put (put next q loc) loc minus_one p ≡ loc = ground (arith, link.0, free.0) in
    (link.0, link.1, (goes, rw goes ok, rw goes (ground arith)))
Linked-append next loc p q (r ∷ rs) link distinct free ok =
    let other = Free-last q r rs distinct.0 in
    let goes : put (put next (last r rs) loc) loc minus_one p ≡ next p =
      ground (arith, link.0, free.0, other) in
    (link.0, link.1, rw goes (Linked-append next loc (next p) r rs link.2 distinct.1 free.1 ok))

abbrev joins : ℤ → ℤ → Bool
joins y a = not (y ==ℤ minus_one) && incseq y ==ℤ a

join-new :
    (data1 data2 : IntArray) (loc a b q : ℤ) (qs : List ℤ)
    → Free loc (q ∷ qs)
    → data2 loc ≡ minus_one
    → joins (data2 (last q qs)) a ≡ false
    → ranges (put data1 loc a) (if b ==ℤ a then data2 else put data2 loc b) ((q ∷ qs) ++ loc ∷ [])
      ≡ join (ranges data1 data2 (q ∷ qs)) a b
join-new data1 data2 loc a b q [] free empty apart = elim (Bool-cases (b ==ℤ a)) [
  | inl one ↦ rw (one, apart, free.0, put_self data1 loc a, empty) refl
  | inr more ↦ rw (more, apart, free.0, put_self data1 loc a, put_self data2 loc b) refl
]
join-new data1 data2 loc a b q (r ∷ rs) free empty apart = elim (Bool-cases (b ==ℤ a)) [
  | inl one ↦
      let rest = rw one at (join-new data1 data2 loc a b r rs free.1 empty apart) in
      rw (one, free.0) (ap (λ x. (data1 q, data2 q) ∷ x) rest)
  | inr more ↦
      let rest = rw more at (join-new data1 data2 loc a b r rs free.1 empty apart) in
      rw (more, free.0) (ap (λ x. (data1 q, data2 q) ∷ x) rest)
]

join-extend :
    (data1 data2 : IntArray) (a b q : ℤ) (qs : List ℤ)
    → Distinct (q ∷ qs)
    → joins (data2 (last q qs)) a ≡ true
    → ranges data1 (put data2 (last q qs) b) (q ∷ qs) ≡ join (ranges data1 data2 (q ∷ qs)) a b
join-extend data1 data2 a b q [] distinct follows = rw (follows, put_self data2 q b) refl
join-extend data1 data2 a b q (r ∷ rs) distinct follows =
    let other = Free-last q r rs distinct.0 in
    let back : (q ==ℤ last r rs) ≡ false = ground arith in
    rw back (ap (λ x. (data1 q, data2 q) ∷ x) (join-extend data1 data2 a b r rs distinct.1 follows))

Free-sym : (p q : ℤ) → (p ==ℤ q) ≡ false → (q ==ℤ p) ≡ false
Free-sym p q h = ground arith

Free-append : (p loc : ℤ) (qs : List ℤ) → Free p qs → (loc ==ℤ p) ≡ false → Free p (qs ++ loc ∷ [])
Free-append p loc [] free other = (other, tt)
Free-append p loc (q ∷ qs) free other = (free.0, Free-append p loc qs free.1 other)

Distinct-append : (loc : ℤ) (qs : List ℤ) → Distinct qs → Free loc qs → Distinct (qs ++ loc ∷ [])
Distinct-append loc [] distinct free = (tt, tt)
Distinct-append loc (q ∷ qs) distinct free = (
  Free-append q loc qs distinct.0 (Free-sym q loc free.0),
  Distinct-append loc qs distinct.1 free.1,
)

last-append : (p loc : ℤ) (qs : List ℤ) → last p (qs ++ loc ∷ []) ≡ loc
last-append p loc [] = refl
last-append p loc (q ∷ qs) = last-append q loc qs

-- A list after `insert`: its nodes, what they hold, and the number of lost packets.
pub record Inserted (l : RcvLossList) (ps : List ℤ) (a b : ℤ) (l' : RcvLossList) : Type 0 where
  pub nodes : List ℤ
  pub holds : Holds l' nodes
  pub content : ranges l'.data1 l'.data2 nodes ≡ join (ranges l.data1 l.data2 ps) a b
  pub counted : l'.length ≡ l.length +ℤ seqlen a b

insert_first-Inserted :
    (l : RcvLossList) (a b : ℤ)
    → l.data2 (pos 0) ≡ minus_one
    → Inserted l [] a b (insert_first l a b)
unfolding insert_first
insert_first-Inserted l a b empty = record {
  nodes = pos 0 ∷ [];
  holds = record { link = (refl, refl, refl); at_end = refl; distinct = (tt, tt) };
  content = elim (Bool-cases (b ==ℤ a)) [
    | inl one ↦ rw (one, empty) refl
    | inr more ↦ rw more refl
  ];
  counted = refl;
}

extend_tail-Inserted :
    (l : RcvLossList) (q : ℤ) (qs : List ℤ) (a b : ℤ)
    → Holds l (q ∷ qs)
    → joins (l.data2 (last q qs)) a ≡ true
    → Inserted l (q ∷ qs) a b (extend_tail l a b)
unfolding extend_tail
extend_tail-Inserted l q qs a b held follows = record {
  nodes = q ∷ qs;
  holds = record { link = held.link; at_end = held.at_end; distinct = held.distinct };
  content =
      subst
        (λ t.
          ranges l.data1 (put l.data2 t b) (q ∷ qs) ≡ join (ranges l.data1 l.data2 (q ∷ qs)) a b)
        (sym held.at_end) (join-extend l.data1 l.data2 a b q qs held.distinct follows);
  counted = refl;
}

insert_node-Inserted :
    (l : RcvLossList) (loc q : ℤ) (qs : List ℤ) (a b : ℤ)
    → Holds l (q ∷ qs)
    → Free loc (q ∷ qs)
    → (loc ==ℤ minus_one) ≡ false
    → l.data2 loc ≡ minus_one
    → joins (l.data2 (last q qs)) a ≡ false
    → Inserted l (q ∷ qs) a b (insert_node l loc a b)
unfolding insert_node
insert_node-Inserted l loc q qs a b held free ok empty apart = record {
  nodes = (q ∷ qs) ++ loc ∷ [];
  holds = record {
    link =
        subst (λ t. Linked (put (put l.next t loc) loc minus_one) l.head ((q ∷ qs) ++ loc ∷ []))
          (sym held.at_end) (Linked-append l.next loc l.head q qs held.link held.distinct free ok);
    at_end = sym (last-append q loc qs);
    distinct = Distinct-append loc (q ∷ qs) held.distinct free;
  };
  content = join-new l.data1 l.data2 loc a b q qs free empty apart;
  counted = refl;
}

-- `insert` is `join` on the ranges of the list, as long as the slot for the number is free and clear:
-- the links still lead from the head to the tail, the nodes hold the joined ranges, and the length
-- grows by the numbers of the new range.
pub insert-Inserted :
    (l : RcvLossList) (ps : List ℤ) (a b : ℤ)
    → Holds l ps
    → (l.length ==ℤ pos 0) ≡ is_nil ps
    → Free (slot l a) ps
    → (slot l a ==ℤ minus_one) ≡ false
    → l.data2 (slot l a) ≡ minus_one
    → Inserted l ps a b (insert l a b)
unfolding insert
insert-Inserted l [] a b held count free ok empty =
    let clear : l.data2 (pos 0) ≡ minus_one = rw count at empty in
    rw (count, insert) (insert_first-Inserted l a b clear)
insert-Inserted l (q ∷ qs) a b held count free ok empty =
    let loc = mod_ℤ (l.head +ℤ seqoff (l.data1 l.head) a) l.size in
    let is_slot : slot l a ≡ loc = rw count refl in
    elim (Bool-cases (joins (l.data2 (last q qs)) a)) [
      | inl follows ↦
          let at_tail : joins (l.data2 l.tail) a ≡ true = rw (held.at_end) follows in
          rw (count, at_tail, insert) (extend_tail-Inserted l q qs a b held follows)
      | inr apart ↦
          let at_tail : joins (l.data2 l.tail) a ≡ false = rw (held.at_end) apart in
          rw (count, at_tail, insert)
            (insert_node-Inserted l loc q qs a b held (subst (λ x. Free x (q ∷ qs)) is_slot free)
              (subst (λ x. (x ==ℤ minus_one) ≡ false) is_slot ok)
              (subst (λ x. l.data2 x ≡ minus_one) is_slot empty) apart)
    ]
