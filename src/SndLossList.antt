-- ===== src/SndLossList.antt =====
-- CSndLossList of UDT4/src/list.h and UDT4/src/list.cpp: the sequence numbers to send again, as ranges
-- in a linked list that lives in three arrays. Indices and numbers are `int`s, and -1 is the code's
-- mark for "no node" and "no number". A loop runs on fuel, and `none` is a loop that did not end
-- within it.
pub mod First
mod Tests
use uvudt.Common.{
  ℕ, zero, suc, Bool, true, false, not, ◌&&◌, ◌||◌, Option, none, some, if◌then◌else◌,
}
use uvudt.Common.Int.{
  ℤ, pos, pos_part, ◌+ℤ◌, ◌-ℤ◌, mod_ℤ, ltb_ℤ, leb_ℤ, ◌==ℤ◌, minus_one, IntArray, put,
}
use uvudt.Seqno.{seqlen, seqoff, seqcmp, incseq}

pub record SndLossList : Type 0 where
  pub data1 : IntArray
  pub data2 : IntArray
  pub next : IntArray
  pub head : ℤ
  pub length : ℤ
  pub size : ℕ
  pub last_insert_pos : ℤ

-- The link array holds whatever `new` found in the memory.
pub create : IntArray → ℕ → SndLossList
create next size = record {
  data1 = λ i. minus_one;
  data2 = λ i. minus_one;
  next = next;
  head = minus_one;
  length = pos 0;
  size = size;
  last_insert_pos = minus_one;
}

pub insert_first : SndLossList → ℤ → ℤ → SndLossList
insert_first l seqno1 seqno2 = record {
  data1 = put l.data1 (pos 0) seqno1;
  data2 = if seqno2 ==ℤ seqno1 then l.data2 else put l.data2 (pos 0) seqno2;
  next = put l.next (pos 0) minus_one;
  head = pos 0;
  length = l.length +ℤ seqlen seqno1 seqno2;
  size = l.size;
  last_insert_pos = pos 0;
}

-- What the first part of `insert` leads to: the answer 0, or the loop that joins the node at the
-- index with the nodes behind it.
pub data Placed : Type 0 where
  known : SndLossList → Placed
  placed : ℤ → SndLossList → Placed

insert_before : SndLossList → ℤ → ℤ → ℤ → SndLossList
insert_before l loc seqno1 seqno2 = record {
  data1 = put l.data1 loc seqno1;
  data2 = if seqno2 ==ℤ seqno1 then l.data2 else put l.data2 loc seqno2;
  next = put l.next loc l.head;
  head = loc;
  length = l.length +ℤ seqlen seqno1 seqno2;
  size = l.size;
  last_insert_pos = loc;
}

-- The range of the node at `loc` now ends with `seqno`; `n` numbers are counted, one of them known.
grown : SndLossList → ℤ → ℤ → ℤ → SndLossList
grown l loc seqno n = record l { data2 = put l.data2 loc seqno; length = l.length +ℤ (n -ℤ pos 1) }

-- The range begins with the first number of the node at `loc`.
widen : SndLossList → ℤ → ℤ → ℤ → Placed
unfolding grown
widen l loc seqno1 seqno2 =
    if l.data2 loc ==ℤ minus_one
    then placed loc (if seqno2 ==ℤ seqno1 then l else grown l loc seqno2 (seqlen seqno1 seqno2))
    else if ltb_ℤ (pos 0) (seqcmp seqno2 (l.data2 loc))
    then placed loc (grown l loc seqno2 (seqlen (l.data2 loc) seqno2))
    else known l

-- The last node from `i` on whose first number comes before `seqno`, by the link of each node.
find_prior : ℕ → SndLossList → ℤ → ℤ → Option ℤ
find_prior zero l seqno i = none
find_prior (suc fuel) l seqno i =
    let rest = find_prior fuel l seqno (l.next i) in
    if not (l.next i ==ℤ minus_one) && ltb_ℤ (seqcmp (l.data1 (l.next i)) seqno) (pos 0)
    then rest
    else some i

search_start : SndLossList → ℤ → ℤ
search_start l seqno =
    if not (l.last_insert_pos ==ℤ minus_one)
      && ltb_ℤ (seqcmp (l.data1 l.last_insert_pos) seqno) (pos 0)
    then l.last_insert_pos
    else l.head

-- The range comes behind the node at `i`, as a node of its own or as a part of it.
insert_behind : SndLossList → ℤ → ℤ → ℤ → ℤ → Placed
insert_behind l loc seqno1 seqno2 i =
    let end = l.data2 i in
    if end ==ℤ minus_one || ltb_ℤ (seqcmp end seqno1) (pos 0)
    then placed loc (record l {
      data1 = put l.data1 loc seqno1;
      data2 = if seqno2 ==ℤ seqno1 then l.data2 else put l.data2 loc seqno2;
      next = put (put l.next loc (l.next i)) i loc;
      length = l.length +ℤ seqlen seqno1 seqno2;
      last_insert_pos = loc;
    })
    else if ltb_ℤ (seqcmp end seqno2) (pos 0)
    then placed i (record l {
      data2 = put l.data2 i seqno2;
      length = l.length +ℤ (seqlen end seqno2 -ℤ pos 1);
      last_insert_pos = i;
    })
    else known (record l { last_insert_pos = i })

-- The range begins with the first number of the head.
insert_head : SndLossList → ℤ → ℤ → ℤ → Placed
unfolding widen
insert_head l loc seqno1 seqno2 =
    let l' = record l { last_insert_pos = l.head } in
    if seqno2 ==ℤ seqno1 then known l' else widen l' loc seqno1 seqno2

place : SndLossList → ℤ → ℤ → Option Placed
unfolding insert_before widen find_prior search_start insert_behind insert_head
place l seqno1 seqno2 =
    let offset = seqoff (l.data1 l.head) seqno1 in
    let loc = mod_ℤ (l.head +ℤ offset +ℤ pos l.size) l.size in
    if ltb_ℤ offset (pos 0)
    then some (placed loc (insert_before l loc seqno1 seqno2))
    else if not (ltb_ℤ (pos 0) offset)
    then some (insert_head l loc seqno1 seqno2)
    else if seqno1 ==ℤ l.data1 loc
    then some (widen (record l { last_insert_pos = loc }) loc seqno1 seqno2)
    else elim (find_prior l.size l seqno1 (search_start l seqno1)) [
      | none ↦ none
      | some i ↦ some (insert_behind l loc seqno1 seqno2 i)
    ]

-- The node at `loc` takes over the node behind it, `i`.
merge : SndLossList → ℤ → ℤ → SndLossList
merge l loc i =
    let end = l.data2 loc in
    let start' = l.data1 i in
    let end' = l.data2 i in
    let longer = ltb_ℤ (pos 0) (seqcmp end' end) in
    let overlap = leb_ℤ (pos 0) (seqcmp end start') in
    let follows = start' ==ℤ incseq end in
    let new_end =
      if end' ==ℤ minus_one
      then (if follows then start' else end)
      else if longer
      then end'
      else end in
    let counted_twice =
      if end' ==ℤ minus_one
      then (if follows then pos 0 else pos 1)
      else if longer
      then (if overlap then seqlen start' end else pos 0)
      else seqlen start' end' in
    record l {
      data1 = put l.data1 i minus_one;
      data2 = put (put l.data2 loc new_end) i minus_one;
      next = put l.next loc (l.next i);
      length = l.length -ℤ counted_twice;
    }

-- `while ((-1 != m_piNext[loc]) && (-1 != m_piData2[loc]))`
coalesce : ℕ → SndLossList → ℤ → Option SndLossList
unfolding merge
coalesce zero l loc = none
coalesce (suc fuel) l loc =
    let rest = coalesce fuel (merge l loc (l.next loc)) loc in
    if l.next loc ==ℤ minus_one || l.data2 loc ==ℤ minus_one
    then some l
    else if leb_ℤ (seqcmp (l.data1 (l.next loc)) (incseq (l.data2 loc))) (pos 0)
    then rest
    else some l

-- The number of the new losses, and the list.
pub insert : SndLossList → ℤ → ℤ → Option (ℤ × SndLossList)
unfolding insert_first place coalesce
insert l seqno1 seqno2 =
    if l.length ==ℤ pos 0
    then (let l' = insert_first l seqno1 seqno2 in some (l'.length, l'))
    else elim (place l seqno1 seqno2) [
      | none ↦ none
      | some (known l') ↦ some (pos 0, l')
      | some (placed loc l') ↦ elim (coalesce l.size l' loc) [
        | none ↦ none
        | some l'' ↦ some (l''.length -ℤ l.length, l'')
      ]
    ]

-- The range at `i` without its numbers up to `seqno`, as a node in the slot `loc`.
abbrev pub rest_end : SndLossList → ℤ → ℤ → ℤ → IntArray
rest_end l i loc seqno =
    if ltb_ℤ (pos 0) (seqcmp (l.data2 i) (incseq seqno))
    then put l.data2 loc (l.data2 i)
    else l.data2

abbrev pub unless : ℤ → ℤ → ℤ
unless pos' node = if pos' ==ℤ node then minus_one else pos'

-- `remove` of the first number of the head, whose range moves on to the slot `loc`.
unfoldable pub remove_head : SndLossList → ℤ → ℤ → SndLossList
remove_head l loc seqno =
    if l.data2 l.head ==ℤ minus_one
    then record l {
      data1 = put l.data1 l.head minus_one;
      head = l.next l.head;
      length = l.length -ℤ pos 1;
      last_insert_pos = unless l.last_insert_pos l.head;
    }
    else record l {
      data1 = put (put l.data1 loc (incseq seqno)) l.head minus_one;
      data2 = put (rest_end l l.head loc seqno) l.head minus_one;
      next = put l.next loc (l.next l.head);
      head = loc;
      length = l.length -ℤ pos 1;
      last_insert_pos = unless l.last_insert_pos l.head;
    }

-- `remove` of a number with which the node at `i` begins.
remove_start : SndLossList → ℤ → ℤ → SndLossList
remove_start l i seqno =
    let loc = mod_ℤ (i +ℤ pos 1) l.size in
    if l.data2 i ==ℤ minus_one then record l { head = l.next i } else record l {
      data1 = put l.data1 loc (incseq seqno);
      data2 = put (rest_end l i loc seqno) i minus_one;
      next = put (put l.next loc (l.next i)) i loc;
      head = loc;
    }

-- `remove` of a number that begins no node, and that the node at `i` is the last to come before.
remove_inside : SndLossList → ℤ → ℤ → ℤ → SndLossList
remove_inside l i loc seqno =
    if not (l.data2 i ==ℤ minus_one) && ltb_ℤ (pos 0) (seqcmp (l.data2 i) seqno)
    then record l {
      data1 = put l.data1 loc (incseq seqno);
      data2 = put (rest_end l i loc seqno) i seqno;
      next = put (put l.next loc (l.next i)) i loc;
      head = loc;
    }
    else record l { head = l.next i }

-- All nodes from `h` to the head are cleared.
clear : ℕ → SndLossList → ℤ → Option SndLossList
clear zero l h = none
clear (suc fuel) l h =
    let lost = if l.data2 h ==ℤ minus_one then pos 1 else seqlen (l.data1 h) (l.data2 h) in
    let rest =
      clear fuel
        (record l {
          data1 = put l.data1 h minus_one;
          data2 = put l.data2 h minus_one;
          length = l.length -ℤ lost;
          last_insert_pos = unless l.last_insert_pos h;
        })
        (l.next h) in
    if h ==ℤ l.head then some l else rest

unfoldable pub remove : SndLossList → ℤ → Option SndLossList
unfolding remove_head remove_start remove_inside find_prior clear
remove l seqno =
    let offset = seqoff (l.data1 l.head) seqno in
    let loc = mod_ℤ (l.head +ℤ offset +ℤ pos l.size) l.size in
    if l.length ==ℤ pos 0 || ltb_ℤ offset (pos 0)
    then some l
    else if offset ==ℤ pos 0
    then some (remove_head l (mod_ℤ (loc +ℤ pos 1) l.size) seqno)
    else if seqno ==ℤ l.data1 loc
    then clear (suc l.size) (remove_start l loc seqno) l.head
    else elim (find_prior l.size l seqno l.head) [
      | none ↦ none
      | some i ↦ clear (suc l.size) (remove_inside l i (mod_ℤ (loc +ℤ pos 1) l.size) seqno) l.head
    ]

pub get_loss_length : SndLossList → ℤ
get_loss_length l = l.length

-- `getLostSeq`, which takes the number out.
unfoldable pub get_lost_seq : SndLossList → ℤ × SndLossList
unfolding remove_head
get_lost_seq l =
    if l.length ==ℤ pos 0
    then (minus_one, l)
    else (l.data1 l.head, remove_head l (mod_ℤ (l.head +ℤ pos 1) l.size) (l.data1 l.head))
