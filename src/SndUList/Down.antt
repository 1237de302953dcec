-- ===== src/SndUList/Down.antt =====
-- The loop of `remove_` repairs the heap order below the place that was filled.
use uvudt.Common.{
  ℕ, zero, suc, ◌+◌, ◌*◌, ◌≤◌, ◌<◌, ◌≡◌, ◌≢◌, refl, none, some, arith, ◌∙◌, ◌↔◌, ◌⊎◌, inl, inr,
  ◌==◌, if◌then◌else◌,
}
use native.Mathlib.Decide.{ℕ_discrete}
use uvudt.SndUList.{SndUList, key, parent, sink, sift_down, smaller_child}
use uvudt.SndUList.Order.{IsHeap}

-- Every edge is in order but those below `q`, and the two ends of those bridge `q`.
pub record IsHeapAbove (u : SndUList) (q : ℕ) : Type 0 where
  pub edges : (c : ℕ) → 0 < c → c < u.count → parent c ≢ q → key u (parent c) ≤ key u c
  pub bridge : (c : ℕ) → 0 < c → c < u.count → parent c ≡ q → 0 < q → key u (parent q) ≤ key u c

key-sink :
    (u : SndUList) (q p c : ℕ)
    → key (sink u q p) c ≡ (if c == q then key u p else if c == p then key u q else key u c)
unfolding sink
key-sink u q p c = ground arith

-- The child that the loop compares is due no later than the other one.
pub smaller_child_lem :
    (u : SndUList) (q : ℕ)
    → q * 2 + 1 < u.count
    → (smaller_child u q < u.count)
      × (parent (smaller_child u q) ≡ q)
      × (q < smaller_child u q)
      × (key u (smaller_child u q) ≤ key u (q * 2 + 1))
      × (q * 2 + 2 < u.count → key u (smaller_child u q) ≤ key u (q * 2 + 2))
unfolding smaller_child
smaller_child_lem u q h = ground arith

sift_down_cases :
    (fuel : ℕ) (u : SndUList) (q : ℕ)
    → let p = smaller_child u q in
      ((sift_down (suc fuel) u q ≡ u)
        × ((u.count ≤ q * 2 + 1) ⊎ ((q * 2 + 1 < u.count) × (key u q ≤ key u p))))
      ⊎ ((q * 2 + 1 < u.count)
          × (key u p < key u q)
          × (sift_down (suc fuel) u q ≡ sift_down fuel (sink u q p) p))
unfolding sift_down
sift_down_cases fuel u q = ground arith

two : {q : ℕ} (c : ℕ) → 0 < c → parent c ≡ q → (c ≡ q * 2 + 1) ⊎ (c ≡ q * 2 + 2)
two c c0 e = omega arith

module _ (u : SndUList) (q p : ℕ) (below : p < u.count) (up : parent p ≡ q) (later : q < p) where
  sink-IsHeapAbove :
      key u p < key u q
      → key u p ≤ key u (q * 2 + 1)
      → (q * 2 + 2 < u.count → key u p ≤ key u (q * 2 + 2))
      → IsHeapAbove u q
      → IsHeapAbove (sink u q p) p
  unfolding sink
  sink-IsHeapAbove less left right h = record {
    edges = λ c c0 cn ne.
        ground
          (arith, key-sink u q p c, key-sink u q p (parent c), h.edges c, h.bridge p, sibling c);
    bridge = λ c c0 cn e p0. ground (arith, key-sink u q p c, key-sink u q p q, h.edges c);
  }
    where
      sibling : (c : ℕ) → 0 < c → c < u.count → parent c ≡ q → key u p ≤ key u c
      sibling c c0 cn e = elim (two c c0 e) [
        | inl l ↦ rw l left
        | inr r ↦ rw r (right (omega arith))
      ]

-- Every node but `n` knows its place, and `n` is not an entry.
pub record IsPlacedWithout (u : SndUList) (n : ℕ) : Type 0 where
  pub gone : (i : ℕ) → i < u.count → u.heap i ≢ n
  pub at_entry : (i : ℕ) → i < u.count → u.loc (u.heap i) ≡ some i
  pub entry_at : (m i : ℕ) → m ≢ n → u.loc m ≡ some i → (i < u.count) × (u.heap i ≡ m)

-- What the loop leaves alone.
pub record IsSameWithout (n : ℕ) (u v : SndUList) : Type 0 where
  pub count_same : v.count ≡ u.count
  pub stamps : v.time_stamp ≡ u.time_stamp
  pub length_same : v.array_length ≡ u.array_length
  pub members : (m : ℕ) → m ≢ n → (v.loc m ≡ none) ↔ (u.loc m ≡ none)

sink-IsPlacedWithout :
    (u : SndUList) (q p n : ℕ)
    → q < u.count
    → p < u.count
    → IsPlacedWithout u n
    → IsPlacedWithout (sink u q p) n
unfolding sink
sink-IsPlacedWithout u q p n hq hp h = record {
  gone = λ i below. ground (arith, h.gone i, h.gone p, h.gone q);
  at_entry = λ i below. ground (arith, h.at_entry i, h.at_entry p, h.at_entry q);
  entry_at = λ m i ne e. ground (arith, h.at_entry p, h.at_entry q, h.entry_at m i);
}

sink-IsSameWithout :
    (u v : SndUList) (q p n : ℕ)
    → q < v.count
    → p < v.count
    → IsPlacedWithout v n
    → IsSameWithout n u v
    → IsSameWithout n u (sink v q p)
unfolding sink
sink-IsSameWithout u v q p n hq hp h s = record {
  count_same = s.count_same;
  stamps = s.stamps;
  length_same = s.length_same;
  members = λ m ne. ground (arith, s.members m, h.at_entry p, h.at_entry q);
}

same_refl : (n : ℕ) (u : SndUList) → IsSameWithout n u u
same_refl n u = record {
  count_same = refl;
  stamps = refl;
  length_same = refl;
  members = λ m ne. (λ e. e, λ e. e);
}

stopped :
    (u : SndUList) (q c : ℕ)
    → IsHeapAbove u q
    → (u.count ≤ q * 2 + 1) ⊎ ((q * 2 + 1 < u.count) × (key u q ≤ key u (smaller_child u q)))
    → 0 < c
    → c < u.count
    → key u (parent c) ≤ key u c
stopped u q c h stop c0 cn = elim (ℕ_discrete (parent c) q) [
  | no other ↦ h.edges c c0 cn other
  | yes e ↦ elim (two c c0 e) [
    | inl l ↦ ground (arith, smaller_child_lem u q)
    | inr r ↦ ground (arith, smaller_child_lem u q)
  ]
]

same_trans :
    (n : ℕ) (u v w : SndUList) → IsSameWithout n u v → IsSameWithout n v w → IsSameWithout n u w
same_trans n u v w s t = record {
  count_same = t.count_same ∙ s.count_same;
  stamps = t.stamps ∙ s.stamps;
  length_same = t.length_same ∙ s.length_same;
  members = λ m ne. (
    λ e. (s.members m ne).0 ((t.members m ne).0 e),
    λ e. (t.members m ne).1 ((s.members m ne).1 e),
  );
}

-- The loop, begun at `q` with a heap above and below it, ends with a heap of the same nodes.
pub sift_down-ends :
    (fuel : ℕ) (u : SndUList) (q n : ℕ)
    → u.count ≤ fuel + q
    → IsHeapAbove u q
    → IsPlacedWithout u n
    → IsHeap (sift_down fuel u q)
      × IsPlacedWithout (sift_down fuel u q) n
      × IsSameWithout n u (sift_down fuel u q)
sift_down-ends zero u q n f h placed =
    unfold sift_down in (λ c c0 cn. h.edges c c0 cn (omega arith), placed, same_refl n u)
sift_down-ends (suc fuel) u q n f h placed = elim (sift_down_cases fuel u q) [
  | inl (e, stop) ↦ rw e ((λ c c0 cn. stopped u q c h stop c0 cn), placed, same_refl n u)
  | inr (child, less, e) ↦
      let (below, up, later, left, right) = smaller_child_lem u q child in
      let (heap, places, same) =
        sift_down-ends fuel (sink u q (smaller_child u q)) (smaller_child u q) n
          (unfold sink in omega arith)
          (sink-IsHeapAbove u q (smaller_child u q) below up later less left right h)
          (sink-IsPlacedWithout u q (smaller_child u q) n (omega arith) below placed) in
      rw e (
        heap,
        places,
        same_trans n u (sink u q (smaller_child u q)) _
            (sink-IsSameWithout u u q (smaller_child u q) n (omega arith) below placed
              (same_refl n u))
            same,
      )
]
