-- ===== src/RcvLossList.antt =====
-- CRcvLossList of UDT4/src/list.h and UDT4/src/list.cpp: the sequence numbers that the receiver
-- misses, as ranges in a linked list that lives in four arrays. Indices and numbers are `int`s, and
-- -1 is the code's mark for "no node" and "no number". A loop runs on fuel, and `none` is a loop
-- that did not end within it.
pub mod Chain
pub mod Reports
pub mod Insert
pub mod Ends
pub mod Wraps
mod Tests
use uvudt.Common.{
  ℕ, zero, suc, Bool, true, false, not, ◌&&◌, ◌||◌, Option, none, some, if◌then◌else◌, List, [],
  ◌∷◌,
}
use mathlib.Core.Option
use uvudt.Common.Int.{
  ℤ, pos, pos_part, ◌+ℤ◌, ◌-ℤ◌, mod_ℤ, ltb_ℤ, leb_ℤ, ◌==ℤ◌, minus_one, IntArray, put,
}
use uvudt.Seqno.{seqlen, seqoff, seqcmp, incseq, decseq, max_seqno}

pub record RcvLossList : Type 0 where
  pub data1 : IntArray
  pub data2 : IntArray
  pub next : IntArray
  pub prior : IntArray
  pub head : ℤ
  pub tail : ℤ
  pub length : ℤ
  pub size : ℕ

-- The link arrays hold whatever `new` found in the memory.
pub create : IntArray → IntArray → ℕ → RcvLossList
create next prior size = record {
  data1 = λ i. minus_one;
  data2 = λ i. minus_one;
  next = next;
  prior = prior;
  head = minus_one;
  tail = minus_one;
  length = pos 0;
  size = size;
}

insert_first : RcvLossList → ℤ → ℤ → RcvLossList
insert_first l seqno1 seqno2 = record {
  data1 = put l.data1 (pos 0) seqno1;
  data2 = if seqno2 ==ℤ seqno1 then l.data2 else put l.data2 (pos 0) seqno2;
  next = put l.next (pos 0) minus_one;
  prior = put l.prior (pos 0) minus_one;
  head = pos 0;
  tail = pos 0;
  length = l.length +ℤ seqlen seqno1 seqno2;
  size = l.size;
}

-- A new node at `loc`, behind the tail.
insert_node : RcvLossList → ℤ → ℤ → ℤ → RcvLossList
insert_node l loc seqno1 seqno2 = record {
  data1 = put l.data1 loc seqno1;
  data2 = if seqno2 ==ℤ seqno1 then l.data2 else put l.data2 loc seqno2;
  next = put (put l.next l.tail loc) loc minus_one;
  prior = put l.prior loc l.tail;
  head = l.head;
  tail = loc;
  length = l.length +ℤ seqlen seqno1 seqno2;
  size = l.size;
}

-- The range joins the tail's.
extend_tail : RcvLossList → ℤ → ℤ → RcvLossList
extend_tail l seqno1 seqno2 = record l {
  data2 = put l.data2 l.tail seqno2;
  length = l.length +ℤ seqlen seqno1 seqno2;
}

pub insert : RcvLossList → ℤ → ℤ → RcvLossList
unfolding insert_first insert_node extend_tail
insert l seqno1 seqno2 =
    if l.length ==ℤ pos 0
    then insert_first l seqno1 seqno2
    else if not (l.data2 l.tail ==ℤ minus_one) && incseq (l.data2 l.tail) ==ℤ seqno1
    then extend_tail l seqno1 seqno2
    else insert_node l (mod_ℤ (l.head +ℤ seqoff (l.data1 l.head) seqno1) l.size) seqno1 seqno2

-- `remove`: the node at `loc` holds one number, and goes.
drop_node : RcvLossList → ℤ → RcvLossList
drop_node l loc =
    if l.head ==ℤ loc
    then record {
      data1 = put l.data1 loc minus_one;
      data2 = l.data2;
      next = l.next;
      prior =
          if l.next l.head ==ℤ minus_one then l.prior else put l.prior (l.next l.head) minus_one;
      head = l.next l.head;
      tail = l.tail;
      length = l.length -ℤ pos 1;
      size = l.size;
    }
    else record {
      data1 = put l.data1 loc minus_one;
      data2 = l.data2;
      next = put l.next (l.prior loc) (l.next loc);
      prior =
          if put l.next (l.prior loc) (l.next loc) loc ==ℤ minus_one
          then l.prior
          else put l.prior (put l.next (l.prior loc) (l.next loc) loc) (l.prior loc);
      head = l.head;
      tail =
          if put l.next (l.prior loc) (l.next loc) loc ==ℤ minus_one then l.prior loc else l.tail;
      length = l.length -ℤ pos 1;
      size = l.size;
    }

-- `remove`: the range at `loc` loses its first number and moves to the next slot, `i`.
shift_node : RcvLossList → ℤ → RcvLossList
shift_node l loc =
    let i = mod_ℤ (loc +ℤ pos 1) l.size in
    let data1 = put l.data1 i (incseq (l.data1 loc)) in
    let data2 =
      if ltb_ℤ (pos 0) (seqcmp (l.data2 loc) (incseq (data1 loc)))
      then put l.data2 i (l.data2 loc)
      else l.data2 in
    let next = put l.next i (l.next loc) in
    let prior = put l.prior i (l.prior loc) in
    record {
      data1 = put data1 loc minus_one;
      data2 = put data2 loc minus_one;
      next = if l.head ==ℤ loc then next else put next (prior i) i;
      prior =
          if l.tail ==ℤ loc
          then prior
          else put prior ((if l.head ==ℤ loc then next else put next (prior i) i) i) i;
      head = if l.head ==ℤ loc then i else l.head;
      tail = if l.tail ==ℤ loc then i else l.tail;
      length = l.length -ℤ pos 1;
      size = l.size;
    }

-- `while (-1 == m_piData1[i]) i = (i - 1 + m_iSize) % m_iSize;`
pub find_start : ℕ → IntArray → ℕ → ℤ → Option ℤ
find_start zero data1 size i = none
find_start (suc fuel) data1 size i =
    let rest = find_start fuel data1 size (mod_ℤ (i -ℤ pos 1 +ℤ pos size) size) in
    if data1 i ==ℤ minus_one then rest else some i

-- The end of the range at `i`, when its numbers from `seqno` on are cut off.
cut_end : RcvLossList → ℤ → ℤ → ℤ
cut_end l i seqno = if seqno ==ℤ incseq (l.data1 i) then minus_one else decseq seqno

-- `remove`: `seqno` ends the range at `i`.
trim_node : RcvLossList → ℤ → ℤ → RcvLossList
unfolding cut_end
trim_node l i seqno = record l {
  data2 = put l.data2 i (cut_end l i seqno);
  length = l.length -ℤ pos 1;
}

-- `remove`: `seqno` is inside the range at `i`; what follows it becomes a node at `loc`.
split_node : RcvLossList → ℤ → ℤ → ℤ → RcvLossList
split_node l i loc seqno =
    let data1 = put l.data1 loc (incseq seqno) in
    let data2 =
      if ltb_ℤ (pos 0) (seqcmp (l.data2 i) (data1 loc))
      then put l.data2 loc (l.data2 i)
      else l.data2 in
    let next = put (put l.next loc (l.next i)) i loc in
    let prior = put l.prior loc i in
    record {
      data1 = data1;
      data2 = put data2 i (if seqno ==ℤ incseq (data1 i) then minus_one else decseq seqno);
      next = next;
      prior = if l.tail ==ℤ i then prior else put prior (next loc) loc;
      head = l.head;
      tail = if l.tail ==ℤ i then loc else l.tail;
      length = l.length -ℤ pos 1;
      size = l.size;
    }

-- `remove`: no range starts with `seqno`; it may lie in the range at `i`.
remove_inside : RcvLossList → ℤ → ℤ → ℤ → Bool × RcvLossList
unfolding trim_node split_node
remove_inside l loc seqno i =
    if l.data2 i ==ℤ minus_one || ltb_ℤ (pos 0) (seqcmp seqno (l.data2 i))
    then (false, l)
    else if seqno ==ℤ l.data2 i
    then (true, trim_node l i seqno)
    else (true, split_node l i (mod_ℤ (loc +ℤ pos 1) l.size) seqno)

remove_at : RcvLossList → ℤ → ℤ → Option (Bool × RcvLossList)
unfolding drop_node shift_node remove_inside find_start
remove_at l loc seqno =
    if seqno ==ℤ l.data1 loc
    then some (true, if l.data2 loc ==ℤ minus_one then drop_node l loc else shift_node l loc)
    else Option.map (remove_inside l loc seqno)
        (find_start l.size l.data1 l.size (mod_ℤ (loc -ℤ pos 1 +ℤ pos l.size) l.size))

pub remove : RcvLossList → ℤ → Option (Bool × RcvLossList)
unfolding remove_at
remove l seqno =
    let offset = seqoff (l.data1 l.head) seqno in
    if l.length ==ℤ pos 0
    then some (false, l)
    else if ltb_ℤ offset (pos 0)
    then some (false, l)
    else remove_at l (mod_ℤ (l.head +ℤ offset) l.size) seqno

-- `for (int32_t i = from; i < from + n; ++ i) remove(i);`
remove_run : ℕ → ℤ → RcvLossList → Option RcvLossList
unfolding remove
remove_run zero from l = some l
remove_run (suc n) from l = elim (remove l from) [
  | none ↦ none
  | some r ↦ remove_run n (from +ℤ pos 1) r.1
]

-- `remove(seqno1, seqno2)`, which always returns true. A range that passes the maximum is walked
-- in two loops, and the first one stops before the maximum.
pub remove_range : RcvLossList → ℤ → ℤ → Option RcvLossList
unfolding remove_run
remove_range l seqno1 seqno2 =
    if leb_ℤ seqno1 seqno2
    then remove_run (pos_part (seqno2 -ℤ seqno1 +ℤ pos 1)) seqno1 l
    else elim (remove_run (pos_part (pos max_seqno -ℤ seqno1)) seqno1 l) [
      | none ↦ none
      | some l' ↦ remove_run (pos_part (seqno2 +ℤ pos 1)) (pos 0) l'
    ]

-- The test of `find` for the node at `p`.
pub touches : RcvLossList → ℤ → ℤ → ℤ → Bool
touches l seqno1 seqno2 p =
    seqcmp (l.data1 p) seqno1 ==ℤ pos 0
    || (ltb_ℤ (pos 0) (seqcmp (l.data1 p) seqno1) && leb_ℤ (seqcmp (l.data1 p) seqno2) (pos 0))
    || (ltb_ℤ (seqcmp (l.data1 p) seqno1) (pos 0)
        && not (l.data2 p ==ℤ minus_one)
        && leb_ℤ (pos 0) (seqcmp (l.data2 p) seqno1))

find_from : ℕ → RcvLossList → ℤ → ℤ → ℤ → Option Bool
unfolding touches
find_from zero l seqno1 seqno2 p = none
find_from (suc fuel) l seqno1 seqno2 p =
    let rest = find_from fuel l seqno1 seqno2 (l.next p) in
    if p ==ℤ minus_one then some false else if touches l seqno1 seqno2 p then some true else rest

pub find : RcvLossList → ℤ → ℤ → Option Bool
unfolding find_from
find l seqno1 seqno2 =
    if l.length ==ℤ pos 0 then some false else find_from (suc l.size) l seqno1 seqno2 l.head

unfoldable pub get_loss_length : RcvLossList → ℤ
get_loss_length l = l.length

pub get_first_lost_seq : RcvLossList → ℤ
get_first_lost_seq l = if l.length ==ℤ pos 0 then minus_one else l.data1 l.head

-- `seqno |= 0x80000000`, for a number that is not negative.
pub mark : ℤ → ℤ
mark seqno = seqno -ℤ pos 0x8000_0000

-- `getLossArray` from the node `i` on, with room for `room` more words by the loop's test
-- `len < limit - 1`; the words that it writes, in order.
loss_words : ℕ → RcvLossList → ℤ → List ℤ
unfolding mark
loss_words zero l i = []
loss_words (suc zero) l i =
    if i ==ℤ minus_one
    then []
    else if l.data2 i ==ℤ minus_one
    then l.data1 i ∷ []
    else mark (l.data1 i) ∷ l.data2 i ∷ []
loss_words (suc (suc room)) l i =
    let single = l.data1 i ∷ loss_words (suc room) l (l.next i) in
    let double = mark (l.data1 i) ∷ l.data2 i ∷ loss_words room l (l.next i) in
    if i ==ℤ minus_one then [] else if l.data2 i ==ℤ minus_one then single else double

-- `limit` is the size of the array in words.
pub get_loss_array : RcvLossList → ℤ → List ℤ
unfolding loss_words
get_loss_array l limit = loss_words (pos_part (limit -ℤ pos 1)) l l.head
