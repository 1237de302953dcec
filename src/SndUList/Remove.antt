-- ===== src/SndUList/Remove.antt =====
-- `remove_` and `pop` of CSndUList: which removals keep the heap, and what `pop` takes.
use uvudt.Common.{
  ℕ, zero, suc, ◌+◌, ◌-◌, ◌≤◌, ◌<◌, ◌≡◌, ◌≢◌, ◌↔◌, ◌⊎◌, inl, inr, refl, Option, none, some, arith,
  if◌then◌else◌, Bool, true, false, ltb,
}
use uvudt.SndUList.{
  SndUList, Socket, key, parent, fill_gap, leave, wake_last, sift_down, smaller_child, remove_node,
  pop, send,
}
use uvudt.SndUList.Order.{IsHeap, IsPlaced, root_least}
use uvudt.SndUList.Insert.{IsValid, insert_node_lem}
use uvudt.SndUList.Down.{
  IsHeapAbove, IsPlacedWithout, IsSameWithout, sift_down-ends, smaller_child_lem,
}

module _ (u : SndUList) (n i : ℕ) (v : IsValid u) (here : u.loc n ≡ some i) where
  fill_gap-IsHeapAbove :
      (i ≡ 0) ⊎ (key u (parent i) ≤ key u (u.count - 1)) → IsHeapAbove (fill_gap u i) i
  unfolding fill_gap
  fill_gap-IsHeapAbove fits = record {
    edges = λ c c0 cn ne. ground (arith, v.ordered c);
    bridge = λ c c0 cn e i0. ground (arith, v.ordered c, v.ordered i, v.placed.entry_at n i);
  }

  fill_gap-IsPlacedWithout : IsPlacedWithout (fill_gap u i) n
  unfolding fill_gap
  fill_gap-IsPlacedWithout = record {
    gone = λ j below.
        ground
          (arith, v.placed.entry_at n i here, v.placed.at_entry j, v.placed.at_entry (u.count - 1));
    at_entry = λ j below.
        ground
          (arith, v.placed.entry_at n i here, v.placed.at_entry j, v.placed.at_entry (u.count - 1));
    entry_at = λ m j ne e.
        ground (
          arith,
          v.placed.entry_at n i here,
          v.placed.entry_at m j,
          v.placed.at_entry (u.count - 1),
        );
  }

  fill_gap-IsSame : (m : ℕ) → m ≢ n → ((fill_gap u i).loc m ≡ none) ↔ (u.loc m ≡ none)
  unfolding fill_gap
  fill_gap-IsSame m ne = ground (arith, v.placed.entry_at n i here, v.placed.at_entry (u.count - 1))

leave-IsPlaced : (u : SndUList) (n : ℕ) → IsPlacedWithout u n → IsPlaced (wake_last (leave u n))
unfolding leave wake_last
leave-IsPlaced u n p = record {
  at_entry = λ i below. ground (arith, p.gone i, p.at_entry i);
  entry_at = λ m i e. ground (arith, p.entry_at m i);
}

-- What it is to take `n` out, and nothing else.
pub record Removes (u : SndUList) (n : ℕ) (v : SndUList) : Type 0 where
  pub one_less : v.count + 1 ≡ u.count
  pub absent : v.loc n ≡ none
  pub others : (m : ℕ) → m ≢ n → (v.loc m ≡ none) ↔ (u.loc m ≡ none)
  pub stamps : v.time_stamp ≡ u.time_stamp

leave-Removes :
    (u w : SndUList) (n i : ℕ)
    → IsValid u
    → u.loc n ≡ some i
    → IsSameWithout n (fill_gap u i) w
    → Removes u n (wake_last (leave w n))
unfolding leave wake_last
leave-Removes u w n i v here s =
    let gap = fill_gap-IsSame u n i v here in
    let (below, at) = v.placed.entry_at n i here in
    record {
      one_less = unfold fill_gap in omega (arith, s.count_same);
      absent = ground arith;
      others = λ m ne. ground (arith, s.members m ne, gap m ne);
      stamps = unfold fill_gap in s.stamps;
    }

-- For a valid list and a node at the place `i`, where the place is the root or the last entry of
-- the array is due no earlier than the parent of the place, `remove_` takes out that node and no
-- other, and the list stays valid.
pub remove_node_lem :
    (u : SndUList) (n i : ℕ)
    → IsValid u
    → u.loc n ≡ some i
    → (i ≡ 0) ⊎ (key u (parent i) ≤ key u (u.count - 1))
    → IsValid (remove_node u n) × Removes u n (remove_node u n)
unfolding remove_node
remove_node_lem u n i v here fits =
    let (heap, places, same) =
      sift_down-ends u.count (fill_gap u i) i n (unfold fill_gap in omega arith)
        (fill_gap-IsHeapAbove u n i v here fits) (fill_gap-IsPlacedWithout u n i v here) in
    let w = sift_down u.count (fill_gap u i) i in
    rw (here, remove_node)
      (
        record { ordered = unfold leave wake_last in heap; placed = leave-IsPlaced w n places },
        leave-Removes u w n i v here same,
      )

sift_down_stops :
    (fuel : ℕ) (u : SndUList) (q : ℕ)
    → ((c : ℕ) → 0 < c → c < u.count → parent c ≡ q → key u q ≤ key u c)
    → sift_down fuel u q ≡ u
unfolding sift_down
sift_down_stops zero u q h = refl
sift_down_stops (suc fuel) u q h = ground (arith, smaller_child_lem u q, h (smaller_child u q))

remove_node-stops :
    (u : SndUList) (n i : ℕ)
    → u.loc n ≡ some i
    → sift_down u.count (fill_gap u i) i ≡ fill_gap u i
    → remove_node u n ≡ wake_last (leave (fill_gap u i) n)
unfolding remove_node
remove_node-stops u n i here stops = rw (here, remove_node, stops)

not-IsHeap-fill_gap :
    (u : SndUList) (n i : ℕ)
    → 0 < i
    → i < u.count - 1
    → key u (u.count - 1) < key u (parent i)
    → ¬ IsHeap (wake_last (leave (fill_gap u i) n))
unfolding fill_gap leave wake_last
not-IsHeap-fill_gap u n i i0 inner early h = ground (arith, h i i0 inner)

-- The other removals break the heap: where the node is inside the array and the last entry is due
-- before the parent of the node's place, the list after `remove_` is no heap, for every valid list.
pub remove_node_breaks :
    (u : SndUList) (n i : ℕ)
    → IsValid u
    → u.loc n ≡ some i
    → 0 < i
    → i < u.count - 1
    → key u (u.count - 1) < key u (parent i)
    → ¬ IsHeap (remove_node u n)
remove_node_breaks u n i v here i0 inner early h =
    let stops =
      sift_down_stops u.count (fill_gap u i) i
        (unfold fill_gap in λ c c0 cn e. ground (arith, v.ordered c, v.ordered i)) in
    not-IsHeap-fill_gap u n i i0 inner early (rw (remove_node-stops u n i here stops) at h)

IsValid-if : {x y : SndUList} (b : Bool) → IsValid x → IsValid y → IsValid (if b then x else y)
IsValid-if true p q = p
IsValid-if false p q = q

send-IsValid :
    (u : SndUList) (sockets : ℕ → Socket) (now n : ℕ)
    → IsValid u
    → IsValid (send u sockets now n).1
      × (((send u sockets now n).0 ≡ none) ⊎ ((send u sockets now n).0 ≡ some n))
unfolding send
send-IsValid u sockets now n v = go (sockets n).ready ((sockets n).pack_data now) refl refl
  where
    go :
        (r : Bool) (p : Option ℕ)
        → (sockets n).ready ≡ r
        → (sockets n).pack_data now ≡ p
        → IsValid (send u sockets now n).1
          × (((send u sockets now n).0 ≡ none) ⊎ ((send u sockets now n).0 ≡ some n))
    go false p e f = rw e (v, inl refl)
    go true none e f = rw (e, f, send) (v, inl refl)
    go true (some zero) e f = rw (e, f, send) (v, inr refl)
    go true (some (suc ts)) e f =
        rw (e, f, send) (IsValid-if (ltb 0 (suc ts)) (insert_node_lem u (suc ts) n v).0 v, inr refl)

pop_cases :
    (u : SndUList) (sockets : ℕ → Socket) (now : ℕ)
    → ((pop u sockets now ≡ (none, u)) × ((u.count ≡ 0) ⊎ (now < key u 0)))
      ⊎ ((0 < u.count)
          × (key u 0 ≤ now)
          × (pop u sockets now ≡ send (remove_node u (u.heap 0)) sockets now (u.heap 0)))
unfolding pop
pop_cases u sockets now = ground arith

-- `pop` keeps the list valid. A list whose first node is not due yet is left as it is and gives
-- nothing. A node that `pop` gives is due, and no node of the list is due before it.
pub pop_lem :
    (u : SndUList) (sockets : ℕ → Socket) (now : ℕ)
    → IsValid u
    → IsValid (pop u sockets now).1
      × (now < key u 0 → pop u sockets now ≡ (none, u))
      × ((n : ℕ)
          → (pop u sockets now).0 ≡ some n
          → (0 < u.count)
            × (u.time_stamp n ≤ now)
            × ((i : ℕ) → i < u.count → u.time_stamp n ≤ key u i))
pop_lem u sockets now v = elim (pop_cases u sockets now) [
  | inl (e, idle) ↦ rw e (v, λ early. refl, λ n g. cc)
  | inr (some_left, due, e) ↦
      let here = v.placed.at_entry 0 some_left in
      let (valid, removed) = remove_node_lem u (u.heap 0) 0 v here (inl refl) in
      let (kept, gives) = send-IsValid (remove_node u (u.heap 0)) sockets now (u.heap 0) valid in
      rw e (kept, λ early. absurd (omega arith), λ n g. first n (gave n g gives) due some_left)
]
  where
    gave : {o : Option ℕ} (n : ℕ) → o ≡ some n → (o ≡ none) ⊎ (o ≡ some (u.heap 0)) → u.heap 0 ≡ n
    gave n g (inl e) = cc
    gave n g (inr e) = cc

    first :
        (n : ℕ)
        → u.heap 0 ≡ n
        → key u 0 ≤ now
        → 0 < u.count
        → (0 < u.count)
          × (u.time_stamp n ≤ now)
          × ((i : ℕ) → i < u.count → u.time_stamp n ≤ key u i)
    first n e due h = rw (← e) (h, due, λ i p. root_least u i v.ordered p)
