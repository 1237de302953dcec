-- ===== src/SndUList.antt =====
-- CSndUList of UDT4/src/queue.h and UDT4/src/queue.cpp: the sockets that have something to send,
-- in a binary heap by the time of their next packet. A node is a number, and stands for its socket
-- too (`u->m_pSNode`). `count` is `m_iLastEntry + 1`, and `loc` is `none` for `m_iHeapLoc == -1`.
-- The calls of `m_pTimer->interrupt()` and of `pthread_cond_signal` are counted.
pub mod Order
pub mod Up
pub mod Down
pub mod Insert
pub mod Remove
mod Tests
use uvudt.Common.{
  ℕ, zero, suc, ◌+◌, ◌-◌, ◌*◌, ◌/◌, Bool, true, false, ◌&&◌, Option, none, some, ltb, leb, ◌==◌,
  if◌then◌else◌, write,
}

pub record SndUList : Type 0 where
  pub heap : ℕ → ℕ
  pub array_length : ℕ
  pub count : ℕ
  pub time_stamp : ℕ → ℕ
  pub loc : ℕ → Option ℕ
  pub interrupts : ℕ
  pub signals : ℕ

-- The array holds whatever `new` found in the memory, and each node starts outside of the list.
pub create : (ℕ → ℕ) → (ℕ → ℕ) → SndUList
create heap stamps = record {
  heap = heap;
  array_length = 4096;
  count = 0;
  time_stamp = stamps;
  loc = λ n. none;
  interrupts = 0;
  signals = 0;
}

abbrev pub key : SndUList → ℕ → ℕ
key u i = u.time_stamp (u.heap i)

abbrev pub parent : ℕ → ℕ
parent c = (c - 1) / 2

-- One round of the loop of `insert_`: the nodes at `p` and `q` trade places, and the one that moves
-- down is told so.
pub rise : SndUList → ℕ → ℕ → SndUList
rise u p q = record u {
  heap = write (write u.heap p (u.heap q)) q (u.heap p);
  loc = write u.loc (u.heap p) (some q);
}

-- The loop of `insert_`, and where it ends; `fuel` is above `q`.
pub sift_up : ℕ → SndUList → ℕ → SndUList × ℕ
unfolding rise
sift_up zero u q = (u, q)
sift_up (suc fuel) u q =
    let rest = sift_up fuel (rise u (parent q) q) (parent q) in
    if q == 0 then (u, q) else if ltb (key u q) (key u (parent q)) then rest else (u, q)

-- The node goes to the end of the array.
pub append : SndUList → ℕ → ℕ → SndUList
append u ts n = record u {
  heap = write u.heap u.count n;
  count = u.count + 1;
  time_stamp = write u.time_stamp n ts;
}

-- The end of `insert_`: the node learns its place, and the sender is woken.
pub settle : SndUList → ℕ → ℕ → SndUList
settle u n q = record u {
  loc = write u.loc n (some q);
  interrupts = if q == 0 then u.interrupts + 1 else u.interrupts;
  signals = if u.count == 1 then u.signals + 1 else u.signals;
}

pub insert_new : SndUList → ℕ → ℕ → SndUList
unfolding append settle
insert_new u ts n = let (v, q) = sift_up (suc u.count) (append u ts n) u.count in settle v n q

-- `insert_`: a node that is in the heap is left there.
pub insert_node : SndUList → ℕ → ℕ → SndUList
insert_node u ts n = elim (u.loc n) [ some i ↦ u | none ↦ insert_new u ts n ]

-- `insert`: the array doubles when it is full; `room` says whether the allocation succeeds.
pub insert : SndUList → ℕ → ℕ → Bool → SndUList
insert u ts n room =
    if u.count == u.array_length
    then if room then insert_node (record u { array_length = u.array_length * 2 }) ts n else u
    else insert_node u ts n

-- The child of the loop of `remove_` that is compared.
pub smaller_child : SndUList → ℕ → ℕ
smaller_child u q =
    let p = q * 2 + 1 in if ltb (p + 1) u.count && ltb (key u (p + 1)) (key u p) then p + 1 else p

-- One round of the loop of `remove_`.
pub sink : SndUList → ℕ → ℕ → SndUList
sink u q p = record u {
  heap = write (write u.heap p (u.heap q)) q (u.heap p);
  loc = write (write u.loc (u.heap q) (some p)) (u.heap p) (some q);
}

-- The loop of `remove_`; `fuel` is at least the number of entries.
pub sift_down : ℕ → SndUList → ℕ → SndUList
unfolding smaller_child sink
sift_down zero u q = u
sift_down (suc fuel) u q =
    let p = smaller_child u q in
    let rest = sift_down fuel (sink u q p) p in
    if ltb (q * 2 + 1) u.count then if ltb (key u p) (key u q) then rest else u else u

-- `remove_`: the last entry takes the place `i` of the node.
pub fill_gap : SndUList → ℕ → SndUList
fill_gap u i = record u {
  heap = write u.heap i (u.heap (u.count - 1));
  count = u.count - 1;
  loc = write u.loc (u.heap (u.count - 1)) (some i);
}

pub leave : SndUList → ℕ → SndUList
leave u n = record u { loc = write u.loc n none }

-- The end of `remove_`.
pub wake_last : SndUList → SndUList
wake_last u = record u { interrupts = if u.count == 1 then u.interrupts + 1 else u.interrupts }

pub remove_node : SndUList → ℕ → SndUList
unfolding wake_last leave fill_gap
remove_node u n = elim (u.loc n) [
  | none ↦ wake_last u
  | some i ↦ wake_last (leave (sift_down u.count (fill_gap u i) i) n)
]

pub remove : SndUList → ℕ → SndUList
remove u n = remove_node u n

pub update : SndUList → ℕ → Bool → SndUList
update u n reschedule = elim (u.loc n) [
  | none ↦ insert_node u 1 n
  | some i ↦
      if reschedule
      then if i == 0
        then record u { time_stamp = write u.time_stamp n 1; interrupts = u.interrupts + 1 }
        else insert_node (remove_node u n) 1 n
      else u
]

pub get_next_proc_time : SndUList → ℕ
get_next_proc_time u = if u.count == 0 then 0 else key u 0

-- The socket of a node, as `pop` uses it: whether it is connected and not broken, and
-- `packData(pkt, ts)`, which is `none` if there is nothing to send and the next time otherwise.
pub record Socket : Type 0 where
  pub ready : Bool
  pub pack_data : ℕ → Option ℕ

-- After the node at the root has left the heap: the node, if it sends.
pub send : SndUList → (ℕ → Socket) → ℕ → ℕ → Option ℕ × SndUList
send u sockets now n =
    if (sockets n).ready
    then elim ((sockets n).pack_data now) [
      | none ↦ (none, u)
      | some ts ↦ (some n, if ltb 0 ts then insert_node u ts n else u)
    ]
    else (none, u)

-- `now` is the time that `rdtsc` reads.
pub pop : SndUList → (ℕ → Socket) → ℕ → Option ℕ × SndUList
pop u sockets now =
    if u.count == 0
    then (none, u)
    else if ltb now (key u 0)
    then (none, u)
    else send (remove_node u (u.heap 0)) sockets now (u.heap 0)
