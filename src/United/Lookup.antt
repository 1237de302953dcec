-- ===== src/United/Lookup.antt =====
-- How CUDTUnited of UDT4/src/api.cpp finds a socket, and the status of a socket.
use uvudt.Common.{ℕ, Bool, Option, none, some, ◌==◌, if◌then◌else◌}
use uvudt.Common.Int.{ℤ}
use uvudt.Epoll.Sets.{contains}
use uvudt.United.Maps.{fetch}
use uvudt.United.Types.{
  CudtSocket, Udt, United, Reply, returns, throws, waits, Status, init, opened, listening,
  connecting, connected, broken, closing, closed, nonexist,
}
use uvudt.United.Address.{af_inet}
use uvudt.United.Entity.{with_socket}

-- The numbers of the statuses.
abbrev pub code : Status → ℕ
code init = 1
code opened = 2
code listening = 3
code connecting = 4
code connected = 5
code broken = 6
code closing = 7
code closed = 8
code nonexist = 9

abbrev pub is : Status → Status → Bool
is a b = code a == code b

-- `m_Sockets.find(u)`
unfoldable pub find_socket : United → ℤ → Option CudtSocket
find_socket g u = if contains g.sockets u then fetch g.heap u else none

unfoldable pub locate : United → ℤ → Option CudtSocket
unfolding find_socket
locate g u = elim (find_socket g u) [
  | none ↦ none
  | some s ↦ if is s.status closed then none else some s
]

unfoldable pub lookup : United → ℤ → Reply Udt
unfolding find_socket
lookup g u = elim (find_socket g u) [
  | none ↦ throws 5 4
  | some s ↦ if is s.status closed then throws 5 4 else returns s.udt
]

unfoldable pub get_status : United → ℤ → Status
unfolding find_socket
get_status g u = elim (find_socket g u) [
  | none ↦ if contains g.closed_sockets u then closed else nonexist
  | some s ↦ if s.udt.is_broken then broken else s.status
]

-- A statement after another that may throw.
unfoldable pub after : Reply ℤ × United → (United → Reply ℤ × United) → Reply ℤ × United
after (returns v, g) f = f g
after (throws major minor, g) f = (throws major minor, g)
after (waits, g) f = (waits, g)

-- A call on the socket `u` that must be there.
unfoldable pub on_socket : United → ℤ → (CudtSocket → Reply ℤ × United) → Reply ℤ × United
unfolding locate
on_socket g u f = elim (locate g u) [ none ↦ (throws 5 4, g) | some s ↦ f s ]

unfoldable pub set_status : United → ℤ → Status → United
unfolding with_socket
set_status g u st = with_socket g u (λ s. record s { status = st })

-- `sizeof(sockaddr_in)` and `sizeof(sockaddr_in6)`
abbrev pub addr_size : ℕ → ℕ
addr_size version = if version == af_inet then 16 else 28

-- `getSockAddr(s->m_pSelfAddr)`: the port of the channel of the multiplexer.
unfoldable pub copy_self_addr : United → ℤ → United
unfolding with_socket
copy_self_addr g u = with_socket g u (λ s. record s {
  self_port = elim (fetch g.muxes s.mux_id) [ none ↦ s.self_port | some m ↦ m.port ];
})
