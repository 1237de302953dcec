-- ===== src/Epoll.antt =====
-- CEPoll of UDT4/src/epoll.h and UDT4/src/epoll.cpp: which UDT sockets each poll watches, and which
-- of them have events. A set is a list without repetitions, and the map of polls an association
-- list. What the operating system does is an argument: the number that `epoll_create` returns, the
-- results of `epoll_ctl`, the system sockets that are ready, and the clock at each round of `wait`.
pub mod Sets
pub mod Quiet
pub mod Update
pub mod Wait
mod Tests
use uvudt.Common.{
  ℕ, zero, suc, ◌+◌, ◌-◌, ◌*◌, ◌/◌, ◌%◌, Bool, true, false, ◌&&◌, ◌||◌, not, Option, none, some,
  List, [], ◌∷◌, ltb, leb, ◌==◌, if◌then◌else◌, length,
}
use uvudt.Common.Int.{ℤ, pos, ◌+ℤ◌, ltb_ℤ, leb_ℤ, ◌==ℤ◌}
use Sets.{IntSet, contains, insert, erase, union, is_empty}

pub record Desc : Type 0 where
  pub id : ℤ
  pub socks_in : IntSet
  pub socks_out : IntSet
  pub socks_ex : IntSet
  pub local_id : ℤ
  pub locals : IntSet
  pub writes : IntSet
  pub reads : IntSet
  pub excepts : IntSet

pub record Epoll : Type 0 where
  pub id_seed : ℤ
  pub polls : List (ℤ × Desc)

-- The codes of the exceptions that are thrown.
pub data Error : Type 0 where
  invalid_poll_id : Error
  invalid_param : Error
  timeout : Error
  system : Error

pub data Result {ℓ} (A : Type ℓ) : Type ℓ where
  ok : A → Result A
  err : Error → Result A

-- The map.
pub find : List (ℤ × Desc) → ℤ → Option Desc
find [] eid = none
find ((i, d) ∷ rest) eid = if i ==ℤ eid then some d else find rest eid

pub assign : List (ℤ × Desc) → ℤ → Desc → List (ℤ × Desc)
assign [] eid d = (eid, d) ∷ []
assign ((i, e) ∷ rest) eid d = if i ==ℤ eid then (i, d) ∷ rest else (i, e) ∷ assign rest eid d

pub remove_key : List (ℤ × Desc) → ℤ → List (ℤ × Desc)
remove_key [] eid = []
remove_key ((i, d) ∷ rest) eid = if i ==ℤ eid then rest else (i, d) ∷ remove_key rest eid

abbrev pub fresh_desc : ℤ → ℤ → Desc
fresh_desc id local_id = record {
  id = id;
  socks_in = [];
  socks_out = [];
  socks_ex = [];
  local_id = local_id;
  locals = [];
  writes = [];
  reads = [];
  excepts = [];
}

abbrev bit : ℕ → ℕ → Bool
bit events mask = events / mask % 2 == 1

-- UDT_EPOLL_IN, UDT_EPOLL_OUT and UDT_EPOLL_ERR.
abbrev pub has_in : ℕ → Bool
has_in events = bit events 1

abbrev pub has_out : ℕ → Bool
has_out events = bit events 4

abbrev pub has_err : ℕ → Bool
has_err events = bit events 8

-- The entry of the poll is changed, or the poll does not exist.
pub with_poll : Epoll → ℤ → (Desc → Desc) → Result Epoll
unfolding assign
with_poll e eid f = elim (find e.polls eid) [
  | none ↦ err invalid_poll_id
  | some d ↦ ok (record e { polls = assign e.polls eid (f d) })
]

pub next_seed : ℤ → ℤ
next_seed seed = if leb_ℤ (pos 0x7fff_ffff) (seed +ℤ pos 1) then pos 0 else seed +ℤ pos 1

-- `create`; `local_id` is what `epoll_create` returns.
pub create : Epoll → ℤ → Result (ℤ × Epoll)
unfolding next_seed
create e local_id =
    let id = next_seed e.id_seed in
    if ltb_ℤ local_id (pos 0)
    then err system
    else ok (id, record { id_seed = id; polls = assign e.polls id (fresh_desc id local_id) })

-- `events` is `none` for NULL.
abbrev wants : Option ℕ → (ℕ → Bool) → Bool
wants none test = true
wants (some events) test = test events

pub watch : ℤ → Option ℕ → Desc → Desc
watch u events d = record d {
  socks_in = if wants events has_in then insert d.socks_in u else d.socks_in;
  socks_out = if wants events has_out then insert d.socks_out u else d.socks_out;
}

pub add_usock : Epoll → ℤ → ℤ → Option ℕ → Result Epoll
add_usock e eid u events = with_poll e eid (watch u events)

pub unwatch : ℤ → Desc → Desc
unwatch u d = record d {
  socks_in = erase d.socks_in u;
  socks_out = erase d.socks_out u;
  socks_ex = erase d.socks_ex u;
}

pub remove_usock : Epoll → ℤ → ℤ → Result Epoll
remove_usock e eid u = with_poll e eid (unwatch u)

-- `ctl` is the result of `epoll_ctl`.
pub after_ctl : Epoll → ℤ → ℤ → (Desc → Desc) → Result Epoll
after_ctl e eid ctl f = elim (find e.polls eid) [
  | none ↦ err invalid_poll_id
  | some d ↦ if ltb_ℤ ctl (pos 0) then err system else with_poll e eid f
]

pub add_ssock : Epoll → ℤ → ℤ → ℤ → Result Epoll
unfolding after_ctl
add_ssock e eid s ctl = after_ctl e eid ctl (λ d. record d { locals = insert d.locals s })

pub remove_ssock : Epoll → ℤ → ℤ → ℤ → Result Epoll
unfolding after_ctl
remove_ssock e eid s ctl = after_ctl e eid ctl (λ d. record d { locals = erase d.locals s })

pub release : Epoll → ℤ → Result Epoll
release e eid = elim (find e.polls eid) [
  | none ↦ err invalid_poll_id
  | some d ↦ ok (record e { polls = remove_key e.polls eid })
]

pub update_epoll_sets : ℤ → IntSet → IntSet → Bool → IntSet
update_epoll_sets uid watched result enable =
    if enable && contains watched uid
    then insert result uid
    else if not enable
    then erase result uid
    else result

-- What `update_events` does to a poll.
pub update_desc : ℤ → ℕ → Bool → Desc → Desc
unfolding update_epoll_sets
update_desc uid events enable d = record d {
  reads = if has_in events then update_epoll_sets uid d.socks_in d.reads enable else d.reads;
  writes = if has_out events then update_epoll_sets uid d.socks_out d.writes enable else d.writes;
  excepts = if has_err events then update_epoll_sets uid d.socks_ex d.excepts enable else d.excepts;
}

-- `update_events`: the polls `eids` of the socket are told, and the ones that do not exist any more
-- are taken out of `eids` afterwards. The result is `eids` and the new state.
update_each : ℤ → ℕ → Bool → List ℤ → Epoll → List ℤ × Epoll
unfolding update_desc
update_each uid events enable [] e = ([], e)
update_each uid events enable (eid ∷ eids) e = elim (find e.polls eid) [
  | none ↦ (let (lost, e') = update_each uid events enable eids e in (eid ∷ lost, e'))
  | some d ↦
      update_each uid events enable eids
        (record e { polls = assign e.polls eid (update_desc uid events enable d) })
]

erase_all : IntSet → List ℤ → IntSet
erase_all xs [] = xs
erase_all xs (l ∷ lost) = erase_all (erase xs l) lost

pub update_events : Epoll → ℤ → IntSet → ℕ → Bool → IntSet × Epoll
unfolding update_each erase_all
update_events e uid eids events enable =
    let (lost, e') = update_each uid events enable eids e in (erase_all eids lost, e')

-- A system socket that `epoll_wait` returns.
pub record Ready : Type 0 where
  pub fd : ℤ
  pub readable : Bool
  pub writable : Bool

-- One round of the loop of `wait`: the polls as the round finds them, what `epoll_wait` returns, and
-- whether the time since the call has reached the timeout.
pub record Round : Type 0 where
  pub polls : List (ℤ × Desc)
  pub ready : List Ready
  pub late : Bool

-- Which of the four sets are not NULL, and whether the timeout is negative, that is, infinite.
pub record Call : Type 0 where
  pub readfds : Bool
  pub writefds : Bool
  pub lrfds : Bool
  pub lwfds : Bool
  pub infinite : Bool

pub record Events : Type 0 where
  pub total : ℕ
  pub reads : IntSet
  pub writes : IntSet
  pub local_reads : IntSet
  pub local_writes : IntSet

-- How `wait` ends; `blocked` is a call that still waits after the rounds that are given.
pub data Outcome : Type 0 where
  returns : Events → Outcome
  throws : Error → Outcome
  blocked : Outcome

-- Sockets with exceptions are returned to both sets.
pub collect : Bool → IntSet → IntSet → ℕ × IntSet
collect asked events excepts =
    if asked && (not (is_empty events) || not (is_empty excepts))
    then (length events + length excepts, union events excepts)
    else (0, [])

collect_local : Call → List Ready → Events → Events
collect_local c [] ev = ev
collect_local c (r ∷ rs) ev =
    let in_reads = c.lrfds && r.readable in
    let in_writes = c.lwfds && r.writable in
    collect_local c rs (record ev {
      total = ev.total + (if in_reads then 1 else 0) + (if in_writes then 1 else 0);
      local_reads = if in_reads then insert ev.local_reads r.fd else ev.local_reads;
      local_writes = if in_writes then insert ev.local_writes r.fd else ev.local_writes;
    })

pub gather : Call → Desc → List Ready → Events
unfolding collect collect_local
gather c d ready =
    let (n, reads) = collect c.readfds d.reads d.excepts in
    let (m, writes) = collect c.writefds d.writes d.excepts in
    collect_local c (if c.lrfds || c.lwfds then ready else []) (record {
      total = n + m;
      reads = reads;
      writes = writes;
      local_reads = [];
      local_writes = [];
    })

-- No socket is watched, and the call would wait for ever.
abbrev deadlock : Call → Desc → Bool
deadlock c d = is_empty d.socks_in && is_empty d.socks_out && is_empty d.locals && c.infinite

pub wait_rounds : Call → ℤ → List Round → Outcome
wait_rounds c eid [] = blocked
wait_rounds c eid (r ∷ rs) =
    let rest = wait_rounds c eid rs in
    elim (find r.polls eid) [
      | none ↦ throws invalid_poll_id
      | some d ↦
          if deadlock c d
          then throws invalid_param
          else if not ((gather c d r.ready).total == 0)
          then returns (gather c d r.ready)
          else if not c.infinite && r.late
          then throws timeout
          else rest
    ]

-- The first test of `wait` asks for `lwfds`, not for its absence.
pub wait : Call → ℤ → List Round → Outcome
unfolding wait_rounds
wait c eid rounds =
    if not c.readfds && not c.writefds && not c.lrfds && c.lwfds && c.infinite
    then throws invalid_param
    else wait_rounds c eid rounds
