-- ===== src/United/Select.antt =====
-- `select` and `selectEx` of UDT4/src/api.cpp. Each round of their loops is given the table as the
-- round finds it, and whether the time is over after it.
use uvudt.Common.{
  ℕ, ◌+◌, Bool, true, false, not, ◌&&◌, ◌||◌, none, some, List, [], ◌∷◌, ltb, if◌then◌else◌, length,
}
use uvudt.Common.Int.{ℤ}
use uvudt.Epoll.Sets.{IntSet, is_empty}
use uvudt.United.Maps.{fetch, add_member}
use uvudt.United.Types.{CudtSocket, Udt, United, Reply, returns, throws, waits, broken, closed}
use uvudt.United.Lookup.{is, locate, get_status}
use uvudt.United.Incoming.{members}

pub record Look : Type 0 where
  pub table : United
  pub late : Bool

unfoldable pub has_data : Udt → Bool
has_data d = elim d.rcv_data [
  | none ↦ false
  | some n ↦ d.is_connected && ltb 0 n && (d.stream || ltb 0 d.rcv_msgs)
]

unfoldable pub has_space : Udt → Bool
has_space d = elim d.snd_data [ none ↦ false | some n ↦ d.is_connected && ltb n d.snd_buf_size ]

unfoldable pub has_waiting : CudtSocket → Bool
has_waiting s = s.udt.is_listening && not (is_empty (members s.queued))

-- The tests of `select`.
read_ready : CudtSocket → Bool
unfolding has_data has_waiting
read_ready s =
    has_data s.udt
    || (not s.udt.is_listening && (s.udt.is_broken || not s.udt.is_connected))
    || has_waiting s
    || is s.status closed

write_ready : CudtSocket → Bool
unfolding has_space
write_ready s = has_space s.udt || s.udt.is_broken || not s.udt.is_connected || is s.status closed

-- The result sets start with the sockets that are broken at first; the others are looked at.
sort_out : United → IntSet → Reply (IntSet × List ℤ)
sort_out g [] = returns ([], [])
sort_out g (u ∷ us) = elim (sort_out g us) [
  | throws major minor ↦ throws major minor
  | waits ↦ waits
  | returns (ready, rest) ↦
      if is (get_status g u) broken
      then returns (add_member ready u, rest)
      else elim (locate g u) [ none ↦ throws 5 4 | some s ↦ returns (ready, u ∷ rest) ]
]

-- A pass over the pointers; the count grows with each socket that is ready.
query : (CudtSocket → Bool) → United → List ℤ → IntSet × ℕ → IntSet × ℕ
query ready g [] (rs, count) = (rs, count)
query ready g (u ∷ us) (rs, count) = elim (fetch g.heap u) [
  | none ↦ query ready g us (rs, count)
  | some s ↦ query ready g us (if ready s then (add_member rs u, count + 1) else (rs, count))
]

select_rounds : List ℤ → List ℤ → IntSet → IntSet → ℕ → List Look → Reply (ℕ × IntSet × IntSet)
unfolding query read_ready write_ready
select_rounds ru wu rs ws count [] = waits
select_rounds ru wu rs ws count (l ∷ ls) =
    let (rs', n) = query read_ready l.table ru (rs, count) in
    let (ws', m) = query write_ready l.table wu (ws, n) in
    let rest = select_rounds ru wu rs' ws' m ls in
    if ltb 0 m || l.late then returns (m, rs', ws') else rest

-- The count, `readfds` and `writefds`; a set that is NULL is empty. A socket of `exceptfds` is only
-- looked up, and counted and reported if it is broken.
pub select : United → IntSet → IntSet → IntSet → List Look → Reply (ℕ × IntSet × IntSet × IntSet)
unfolding sort_out select_rounds
select g readfds writefds exceptfds looks = elim (sort_out g readfds) [
  | throws major minor ↦ throws major minor
  | waits ↦ waits
  | returns (rs, ru) ↦ elim (sort_out g writefds) [
    | throws major minor ↦ throws major minor
    | waits ↦ waits
    | returns (ws, wu) ↦ elim (sort_out g exceptfds) [
      | throws major minor ↦ throws major minor
      | waits ↦ waits
      | returns (es, eu) ↦
          elim (select_rounds ru wu rs ws (length rs + length ws + length es) looks) [
            | throws major minor ↦ throws major minor
            | waits ↦ waits
            | returns (n, reads, writes) ↦ returns (n, reads, writes, es)
          ]
    ]
  ]
]

-- What `selectEx` asks for, that is, which of the three vectors are there.
pub record Asked : Type 0 where
  pub reads : Bool
  pub writes : Bool
  pub excepts : Bool

pub record Found : Type 0 where
  pub reads : List ℤ
  pub writes : List ℤ
  pub excepts : List ℤ
  pub count : ℕ

unfoldable pub is_lost : United → ℤ → Bool
is_lost g u = elim (locate g u) [ none ↦ true | some s ↦ s.udt.is_broken || is s.status closed ]

unfoldable pub can_read : United → ℤ → Bool
unfolding has_data has_waiting
can_read g u = elim (locate g u) [ none ↦ false | some s ↦ has_data s.udt || has_waiting s ]

unfoldable pub can_write : United → ℤ → Bool
unfolding has_space
can_write g u = elim (locate g u) [ none ↦ false | some s ↦ has_space s.udt ]

abbrev pub bit : Bool → ℕ
bit b = if b then 1 else 0

abbrev pub put : Bool → ℤ → List ℤ → List ℤ
put b u us = if b then u ∷ us else us

-- The inner loop, from its end: what the sockets `us` give, after those before them.
unfoldable pub look_at : United → Asked → List ℤ → Found
unfolding is_lost can_read can_write
look_at g a [] = record { reads = []; writes = []; excepts = []; count = 0 }
look_at g a (u ∷ us) =
    let rest = look_at g a us in
    let lost = is_lost g u in
    let r = a.reads && not lost && can_read g u in
    let w = a.writes && not lost && can_write g u in
    let e = a.excepts && lost in
    record {
      reads = put r u rest.reads;
      writes = put w u rest.writes;
      excepts = put e u rest.excepts;
      count = bit e + bit r + bit w + rest.count;
    }

unfoldable pub select_ex : Asked → List ℤ → List Look → Reply Found
unfolding look_at
select_ex a fds [] = waits
select_ex a fds (l ∷ ls) =
    let rest = select_ex a fds ls in
    if ltb 0 (look_at l.table a fds).count || l.late then returns (look_at l.table a fds) else rest
