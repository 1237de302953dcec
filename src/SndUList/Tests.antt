-- ===== src/SndUList/Tests.antt =====
-- Runs of the heap, and its theorems at concrete heaps.
use uvudt.Common.{ℕ, ◌≡◌, ◌≢◌, refl, none, some, arith, ◌==◌, ltb, if◌then◌else◌, true}
use uvudt.SndUList.{
  SndUList, Socket, key, insert_node, insert_new, remove_node, pop, send, sift_up, sift_down,
  smaller_child,
}
use uvudt.SndUList.Order.{IsHeap}
use uvudt.SndUList.Insert.{IsValid, Adds, insert_node_lem}
use uvudt.SndUList.Remove.{remove_node_breaks, pop_lem}

-- Six nodes, each at the place of its number; the last entry is due before the parent of place 3.
abbrev six : SndUList
six = record {
  heap = λ i. i;
  array_length = 4096;
  count = 6;
  time_stamp = λ n.
      if n == 0
      then 1
      else if n == 1
      then 10
      else if n == 2
      then 2
      else if n == 3
      then 11
      else if n == 4
      then 12
      else if n == 5
      then 3
      else 0;
  loc = λ n. if ltb n 6 then some n else none;
  interrupts = 0;
  signals = 0;
}

six-IsValid : IsValid six
six-IsValid = record {
  ordered = λ c c0 cn. ground arith;
  placed = record { at_entry = λ i below. ground arith; entry_at = λ n i e. ground arith };
}

-- Every socket sends, and wants to go on at 100.
abbrev sockets : ℕ → Socket
sockets n = record { ready = true; pack_data = λ now. some 100 }

insert_node_lem_example :
    IsValid (insert_node six 5 7)
    × (six.loc 7 ≢ none → insert_node six 5 7 ≡ six)
    × (six.loc 7 ≡ none → Adds six 5 7 (insert_node six 5 7))
insert_node_lem_example = insert_node_lem six 5 7 six-IsValid

-- The new node stays at the end, since its parent there is due at 2.
insert_node_run : (insert_node six 5 7).loc 7 ≡ some 6
unfolding insert_node insert_new sift_up
insert_node_run = refl

remove_node_breaks_example : ¬ IsHeap (remove_node six 3)
remove_node_breaks_example =
    remove_node_breaks six 3 3 six-IsValid refl (omega arith) (omega arith) (omega arith)

pop_lem_example : IsValid (pop six sockets 4).1
pop_lem_example = (pop_lem six sockets 4 six-IsValid).0

pop_run : (pop six sockets 4).0 ≡ some 0
unfolding pop send
pop_run = refl

-- The root is then node 2, and node 0 is back at the end.
pop_next : key (pop six sockets 4).1 0 ≡ 2
unfolding pop send remove_node sift_down smaller_child insert_node insert_new sift_up
pop_next = refl
