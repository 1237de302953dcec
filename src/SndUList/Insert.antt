-- ===== src/SndUList/Insert.antt =====
-- `insert_` of CSndUList keeps the heap and adds one node.
use uvudt.Common.{ℕ, suc, ◌+◌, ◌≡◌, ◌≢◌, ◌↔◌, inl, inr, refl, none, arith, Option-cases, write}
use uvudt.SndUList.{SndUList, parent, append, settle, sift_up, insert_new, insert_node, create}
use uvudt.SndUList.Order.{IsHeap, IsPlaced}
use uvudt.SndUList.Up.{IsHeapBut, IsPlacedBut, IsSame, sift_up-ends}

pub record IsValid (u : SndUList) : Type 0 where
  pub ordered : IsHeap u
  pub placed : IsPlaced u

append-IsHeapBut :
    (u : SndUList) (ts n : ℕ) → IsValid u → u.loc n ≡ none → IsHeapBut (append u ts n) u.count
unfolding append
append-IsHeapBut u ts n v absent = record {
  edges =
      λ c c0 cn ne. ground (arith, v.ordered c, v.placed.at_entry c, v.placed.at_entry (parent c));
  bridge = λ c c0 cn e q0. absurd (omega arith);
}

append-IsPlacedBut :
    (u : SndUList) (ts n : ℕ) → IsValid u → u.loc n ≡ none → IsPlacedBut (append u ts n) u.count n
unfolding append
append-IsPlacedBut u ts n v absent = record {
  within = omega arith;
  hole = ground arith;
  absent = absent;
  at_entry = λ i below ne. ground (arith, v.placed.at_entry i);
  entry_at = λ m i e. ground (arith, v.placed.entry_at m i);
}

settle-IsValid : (u : SndUList) (q n : ℕ) → IsHeap u → IsPlacedBut u q n → IsValid (settle u n q)
unfolding settle
settle-IsValid u q n h p = record {
  ordered = h;
  placed = record {
    at_entry = λ i below. ground (arith, p.hole, p.absent, p.at_entry i);
    entry_at = λ m i e. ground (arith, p.hole, p.within, p.entry_at m i);
  };
}

-- What it is to add `n`, due at `ts`, and nothing else.
pub record Adds (u : SndUList) (ts n : ℕ) (v : SndUList) : Type 0 where
  pub one_more : v.count ≡ u.count + 1
  pub present : v.loc n ≢ none
  pub others : (m : ℕ) → m ≢ n → (v.loc m ≡ none) ↔ (u.loc m ≡ none)
  pub due : v.time_stamp ≡ write u.time_stamp n ts

settle-Adds : (u v : SndUList) (ts n q : ℕ) → IsSame (append u ts n) v → Adds u ts n (settle v n q)
unfolding settle append
settle-Adds u v ts n q s = record {
  one_more = s.count_same;
  present = ground arith;
  others = λ m ne. ground (arith, s.members m);
  due = s.stamps;
}

insert_new_lem :
    (u : SndUList) (ts n : ℕ)
    → IsValid u
    → u.loc n ≡ none
    → IsValid (insert_new u ts n) × Adds u ts n (insert_new u ts n)
unfolding insert_new
insert_new_lem u ts n v absent =
    let (h, p, s) =
      sift_up-ends (append u ts n) u.count n (append-IsHeapBut u ts n v absent)
        (append-IsPlacedBut u ts n v absent) in
    (
      settle-IsValid (sift_up (suc u.count) (append u ts n) u.count).0
          (sift_up (suc u.count) (append u ts n) u.count).1 n h p,
      settle-Adds u (sift_up (suc u.count) (append u ts n) u.count).0 ts n
          (sift_up (suc u.count) (append u ts n) u.count).1 s,
    )

-- `insert_` keeps the heap order and every node's knowledge of its place. A node that is in the
-- heap already changes nothing, also not when it is due; any other node is added, due at `ts`, and
-- no other node comes, goes or gets another time.
pub insert_node_lem :
    (u : SndUList) (ts n : ℕ)
    → IsValid u
    → IsValid (insert_node u ts n)
      × (u.loc n ≢ none → insert_node u ts n ≡ u)
      × (u.loc n ≡ none → Adds u ts n (insert_node u ts n))
unfolding insert_node
insert_node_lem u ts n v = elim (Option-cases (u.loc n)) [
  | inl absent ↦
      let (valid, adds) = insert_new_lem u ts n v absent in
      rw (absent, insert_node) (valid, λ present. absurd (present refl), λ e. adds)
  | inr (i, here) ↦ rw (here, insert_node) (v, λ present. refl, λ e. cc)
]

pub create-IsValid : (heap stamps : ℕ → ℕ) → IsValid (create heap stamps)
unfolding create
create-IsValid heap stamps = record {
  ordered = λ c c0 cn. absurd (omega arith);
  placed = record { at_entry = λ i below. absurd (omega arith); entry_at = λ n i e. cc };
}
