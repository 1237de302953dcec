-- ===== src/United/Api.antt =====
-- The static functions of CUDT of UDT4/src/api.cpp, which turn an exception into a return value and
-- the error of the thread. That `socket` starts the collector is left out, and what the functions of
-- a connection do is an argument.
use uvudt.Common.{ℕ, Option, none, some, List, [], Bool, not, ◌&&◌, if◌then◌else◌}
use uvudt.Common.Int.{ℤ, minus_one}
use uvudt.Epoll.Sets.{IntSet}
use uvudt.United.Types.{SockAddr, Udt, United, Reply, returns, throws, waits, Status}
use uvudt.United.Entity.{Attempt, with_udt}
use uvudt.United.EntityClose.{Moment}
use uvudt.United.Muxes.{Channel}
use uvudt.United.Lookup.{lookup, get_status}
use uvudt.United.Calls.{new_socket, bind, bind_udp, listen}
use uvudt.United.Accepting.{accept}
use uvudt.United.Connecting.{connect, punchhole}
use uvudt.United.Closing.{close}
use uvudt.United.Queries.{getpeername, getsockname, epoll_add_usock, epoll_remove_usock}
use uvudt.United.Select.{Look, Asked, Found, select, select_ex}

-- The table, and the codes of the last error of the thread.
pub record Api : Type 0 where
  pub table : United
  pub last_error : ℕ × ℕ

-- A value that is returned, or `none` while the call waits.
abbrev pub Return : Type 0 → Type 0
Return A = Option A × Api

-- The try block with its handlers; `error` is what they return.
unfoldable pub caught : {A : Type 0} → Api → A → Reply A × United → Return A
caught t error (returns v, g) = (some v, record t { table = g })
caught t error (throws major minor, g) =
    (some error, record { table = g; last_error = (major, minor) })
caught t error (waits, g) = (none, record t { table = g })

-- An error that is found before the try block.
refused : {A : Type 0} → Api → A → ℕ → ℕ → Return A
refused t error major minor = (some error, record t { last_error = (major, minor) })

-- A call that leaves the table.
reads_only : {A : Type 0} → Api → A → Reply A → Return A
unfolding caught
reads_only t error r = caught t error (r, t.table)

-- A call on the connection of a socket that the table finds.
unfoldable pub on_entity : Api → ℤ → (Udt → Reply ℤ × Udt) → Return ℤ
unfolding caught
on_entity t u act = elim (lookup t.table u) [
  | throws major minor ↦ caught t minus_one (throws major minor, t.table)
  | waits ↦ caught t minus_one (waits, t.table)
  | returns d ↦ (let (r, d') = act d in caught t minus_one (r, with_udt t.table u (λ old. d')))
]

pub cudt_socket : Api → ℕ → ℕ → Return ℤ
unfolding caught
cudt_socket t af type = caught t minus_one (new_socket t.table af type)

pub cudt_bind : Api → ℤ → SockAddr → ℕ → Channel → Return ℤ
unfolding caught
cudt_bind t u name namelen channel = caught t minus_one (bind t.table u name namelen channel)

pub cudt_bind_udp : Api → ℤ → Option SockAddr → Channel → Return ℤ
unfolding caught
cudt_bind_udp t u name channel = caught t minus_one (bind_udp t.table u name channel)

pub cudt_listen : Api → ℤ → ℤ → Return ℤ
unfolding caught
cudt_listen t u backlog = caught t minus_one (listen t.table u backlog)

pub cudt_accept : Api → ℤ → Bool → Return ℤ
unfolding caught
cudt_accept t u bad_length = caught t minus_one (accept t.table u bad_length)

pub cudt_punchhole : Api → ℤ → SockAddr → ℕ → Channel → Reply ℤ → Return ℤ
unfolding caught
cudt_punchhole t u name namelen channel reply =
    caught t minus_one (punchhole t.table u name namelen channel reply)

pub cudt_connect : Api → ℤ → SockAddr → ℕ → Channel → Attempt → Return ℤ
unfolding caught
cudt_connect t u name namelen channel attempt =
    caught t minus_one (connect t.table u name namelen channel attempt)

unfoldable pub cudt_close : Api → ℤ → ℕ → List Moment → ℕ → Return ℤ
unfolding caught
cudt_close t u entertime moments now = caught t minus_one (close t.table u entertime moments now)

-- ERROR is `none` where an address is returned.
answer : {A : Type 0} → Reply A → Reply (Option A)
answer (returns v) = returns (some v)
answer (throws major minor) = throws major minor
answer waits = waits

pub cudt_getpeername : Api → ℤ → Return (Option (ℕ × Option SockAddr))
unfolding reads_only answer
cudt_getpeername t u = reads_only t none (answer (getpeername t.table u))

pub cudt_getsockname : Api → ℤ → Return (Option (ℕ × ℕ))
unfolding reads_only answer
cudt_getsockname t u = reads_only t none (answer (getsockname t.table u))

-- The functions of a connection: `act` is `getOpt`, `setOpt`, `send`, `recv`, `sendmsg`, `recvmsg`,
-- `sendfile`, `recvfile` or `sample` with its arguments.
pub cudt_getsockopt : Api → ℤ → (Udt → Reply ℤ × Udt) → Return ℤ
unfolding on_entity
cudt_getsockopt t u act = on_entity t u act

pub cudt_setsockopt : Api → ℤ → (Udt → Reply ℤ × Udt) → Return ℤ
unfolding on_entity
cudt_setsockopt t u act = on_entity t u act

unfoldable pub cudt_send : Api → ℤ → (Udt → Reply ℤ × Udt) → Return ℤ
unfolding on_entity
cudt_send t u act = on_entity t u act

pub cudt_recv : Api → ℤ → (Udt → Reply ℤ × Udt) → Return ℤ
unfolding on_entity
cudt_recv t u act = on_entity t u act

pub cudt_sendmsg : Api → ℤ → (Udt → Reply ℤ × Udt) → Return ℤ
unfolding on_entity
cudt_sendmsg t u act = on_entity t u act

pub cudt_recvmsg : Api → ℤ → (Udt → Reply ℤ × Udt) → Return ℤ
unfolding on_entity
cudt_recvmsg t u act = on_entity t u act

pub cudt_perfmon : Api → ℤ → (Udt → Reply ℤ × Udt) → Return ℤ
unfolding on_entity
cudt_perfmon t u act = on_entity t u act

pub cudt_select :
    Api
    → Option IntSet
    → Option IntSet
    → Option IntSet
    → List Look
    → Return (Option (ℕ × IntSet × IntSet × IntSet))
unfolding refused reads_only answer
cudt_select t none none none looks = refused t none 5 3
cudt_select t readfds writefds exceptfds looks =
    reads_only t none (answer (select t.table (set readfds) (set writefds) (set exceptfds) looks))
  where
    set : Option IntSet → IntSet
    set none = []
    set (some xs) = xs

pub cudt_select_ex : Api → Asked → List ℤ → List Look → Return (Option Found)
unfolding refused reads_only answer
cudt_select_ex t asked fds looks =
    if not asked.reads && not asked.writes && not asked.excepts
    then refused t none 5 3
    else reads_only t none (answer (select_ex asked fds looks))

pub cudt_epoll_add_usock : Api → ℤ → ℤ → Option ℕ → Return ℤ
unfolding caught
cudt_epoll_add_usock t eid u events = caught t minus_one (epoll_add_usock t.table eid u events)

pub cudt_epoll_remove_usock : Api → ℤ → ℤ → Return ℤ
unfolding caught
cudt_epoll_remove_usock t eid u = caught t minus_one (epoll_remove_usock t.table eid u)

unfoldable pub getsockstate : Api → ℤ → Status
getsockstate t u = get_status t.table u

pub get_udt_handle : Api → ℤ → Option Udt
get_udt_handle t u = elim (lookup t.table u) [
  | returns d ↦ some d
  | throws major minor ↦ none
  | waits ↦ none
]

pub getlasterror : Api → ℕ × ℕ
getlasterror t = t.last_error
