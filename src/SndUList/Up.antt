-- ===== src/SndUList/Up.antt =====
-- The loop of `insert_` repairs the heap order and keeps the entries.
use uvudt.Common.{
  ℕ, zero, suc, ◌≤◌, ◌<◌, ◌≡◌, ◌≢◌, refl, none, some, arith, ◌↔◌, ◌⊎◌, inl, inr, ◌==◌,
  if◌then◌else◌,
}
use uvudt.SndUList.{SndUList, key, parent, rise, sift_up}
use uvudt.SndUList.Order.{IsHeap}

-- Every edge is in order but the one above `q`, and its two ends bridge `q`.
pub record IsHeapBut (u : SndUList) (q : ℕ) : Type 0 where
  pub edges : (c : ℕ) → 0 < c → c < u.count → c ≢ q → key u (parent c) ≤ key u c
  pub bridge : (c : ℕ) → 0 < c → c < u.count → parent c ≡ q → 0 < q → key u (parent q) ≤ key u c

key-rise :
    (u : SndUList) (p q c : ℕ)
    → key (rise u p q) c ≡ (if c == q then key u p else if c == p then key u q else key u c)
unfolding rise
key-rise u p q c = ground arith

rise-IsHeapBut :
    (u : SndUList) (q : ℕ)
    → 0 < q
    → q < u.count
    → key u q < key u (parent q)
    → IsHeapBut u q
    → IsHeapBut (rise u (parent q) q) (parent q)
unfolding rise
rise-IsHeapBut u q pos below less h = record {
  edges = λ c c0 cn ne.
      ground (
        arith,
        key-rise u (parent q) q (parent c),
        key-rise u (parent q) q c,
        h.edges c,
        h.bridge c,
      );
  bridge = λ c c0 cn e p0. ground (
    arith,
    key-rise u (parent q) q (parent (parent q)),
    key-rise u (parent q) q c,
    h.edges c,
    h.edges (parent q),
  );
}

sift_up_cases :
    (fuel : ℕ) (u : SndUList) (q : ℕ)
    → ((sift_up (suc fuel) u q ≡ (u, q)) × ((q ≡ 0) ⊎ (key u (parent q) ≤ key u q)))
      ⊎ ((0 < q)
          × (key u q < key u (parent q))
          × (sift_up (suc fuel) u q ≡ sift_up fuel (rise u (parent q) q) (parent q)))
unfolding sift_up
sift_up_cases fuel u q = ground arith

-- What each round keeps holds at the end, and the loop ends by its test.
pub sift_up_inv {ℓ} :
    (P : SndUList → ℕ → Type ℓ)
    → ((u : SndUList) (q : ℕ)
        → 0 < q
        → key u q < key u (parent q)
        → P u q
        → P (rise u (parent q) q) (parent q))
    → (fuel : ℕ) (u : SndUList) (q : ℕ) → q < fuel
    → P u q
    → P (sift_up fuel u q).0 (sift_up fuel u q).1
      × (((sift_up fuel u q).1 ≡ 0)
          ⊎ (key (sift_up fuel u q).0 (parent (sift_up fuel u q).1)
              ≤ key (sift_up fuel u q).0 (sift_up fuel u q).1))
sift_up_inv P keep zero u q f h = absurd (omega arith)
sift_up_inv P keep (suc fuel) u q f h = elim (sift_up_cases fuel u q) [
  | inl (e, stop) ↦ rw e (h, stop)
  | inr (pos, less, e) ↦
      rw e (
        sift_up_inv P keep fuel (rise u (parent q) q) (parent q) (omega arith)
          (keep u q pos less h))
]

-- Every node but `n`, which is at `q`, knows its place.
pub record IsPlacedBut (u : SndUList) (q n : ℕ) : Type 0 where
  pub within : q < u.count
  pub hole : u.heap q ≡ n
  pub absent : u.loc n ≡ none
  pub at_entry : (i : ℕ) → i < u.count → i ≢ q → u.loc (u.heap i) ≡ some i
  pub entry_at : (m i : ℕ) → u.loc m ≡ some i → (i < u.count) × (u.heap i ≡ m)

rise-IsPlacedBut :
    (u : SndUList) (q n : ℕ)
    → 0 < q
    → IsPlacedBut u q n
    → IsPlacedBut (rise u (parent q) q) (parent q) n
unfolding rise
rise-IsPlacedBut u q n pos h = record {
  within = omega (arith, h.within);
  hole = ground (arith, h.hole);
  absent = ground (arith, h.absent, h.at_entry (parent q), h.within);
  at_entry = λ i below ne. ground (arith, h.within, h.hole, h.at_entry (parent q), h.at_entry i);
  entry_at =
      λ m i e. ground (arith, h.within, h.absent, h.hole, h.at_entry (parent q), h.entry_at m i);
}

no_exception :
    (v : SndUList) (r : ℕ) → (r ≡ 0) ⊎ (key v (parent r) ≤ key v r) → IsHeapBut v r → IsHeap v
no_exception v r stop h = λ c c0 cn. ground (arith, h.edges c)

-- What the loop leaves alone.
pub record IsSame (u v : SndUList) : Type 0 where
  pub count_same : v.count ≡ u.count
  pub stamps : v.time_stamp ≡ u.time_stamp
  pub length_same : v.array_length ≡ u.array_length
  pub members : (m : ℕ) → (v.loc m ≡ none) ↔ (u.loc m ≡ none)

rise-IsSame :
    (u v : SndUList) (q n : ℕ)
    → 0 < q
    → IsPlacedBut v q n
    → IsSame u v
    → IsSame u (rise v (parent q) q)
unfolding rise
rise-IsSame u v q n pos h s = record {
  count_same = s.count_same;
  stamps = s.stamps;
  length_same = s.length_same;
  members = λ m. ground (arith, s.members m, h.within, h.at_entry (parent q));
}

-- What holds in each round of the loop for the node `n`, begun at `u`.
record UpInv (u : SndUList) (n : ℕ) (v : SndUList) (q : ℕ) : Type 0 where
  ordered : IsHeapBut v q
  placed : IsPlacedBut v q n
  same : IsSame u v

-- The loop ends with a heap; `n` is where it ends, and the others know their places.
pub sift_up-ends :
    (u : SndUList) (q n : ℕ)
    → IsHeapBut u q
    → IsPlacedBut u q n
    → let (v, r) = sift_up (suc q) u q in IsHeap v × IsPlacedBut v r n × IsSame u v
sift_up-ends u q n h placed =
    let (inv, stop) =
      sift_up_inv (UpInv u n)
        (λ v r pos less g. record {
          ordered = rise-IsHeapBut v r pos g.placed.within less g.ordered;
          placed = rise-IsPlacedBut v r n pos g.placed;
          same = rise-IsSame u v r n pos g.placed g.same;
        })
        (suc q) u q (omega arith)
        (record {
          ordered = h;
          placed = placed;
          same = record {
            count_same = refl;
            stamps = refl;
            length_same = refl;
            members = λ m. (λ e. e, λ e. e);
          };
        }) in
    (
      no_exception (sift_up (suc q) u q).0 (sift_up (suc q) u q).1 stop inv.ordered,
      inv.placed,
      inv.same,
    )
