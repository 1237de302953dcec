-- ===== src/SndUList/Order.antt =====
-- The heap order of CSndUList, and where the nodes are.
use uvudt.Common.{ℕ, zero, suc, ◌≤◌, ◌<◌, ◌≡◌, some, arith}
use uvudt.SndUList.{SndUList, key, parent}

-- No node is due before its parent.
abbrev pub IsHeap : SndUList → Type 0
IsHeap u = (c : ℕ) → 0 < c → c < u.count → key u (parent c) ≤ key u c

-- A node knows its place exactly if it is in the heap.
pub record IsPlaced (u : SndUList) : Type 0 where
  pub at_entry : (i : ℕ) → i < u.count → u.loc (u.heap i) ≡ some i
  pub entry_at : (n i : ℕ) → u.loc n ≡ some i → (i < u.count) × (u.heap i ≡ n)

root_least_below :
    (k : ℕ) (u : SndUList) (i : ℕ) → IsHeap u → i < k → i < u.count → key u 0 ≤ key u i
root_least_below zero u i h f p = absurd (omega arith)
root_least_below (suc k) u zero h f p = omega arith
root_least_below (suc k) u (suc i) h f p = omega (
  arith,
  h (suc i) (omega arith) p,
  root_least_below k u (parent (suc i)) h (omega arith) (omega arith),
)

-- The root of a heap is due first.
pub root_least : (u : SndUList) (i : ℕ) → IsHeap u → i < u.count → key u 0 ≤ key u i
root_least u i h p = root_least_below (suc i) u i h (omega arith) p
