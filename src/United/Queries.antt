-- ===== src/United/Queries.antt =====
-- The names of a socket and of its peer, and the polls, of UDT4/src/api.cpp.
use uvudt.Common.{ℕ, not, ◌||◌, Option, none, some, if◌then◌else◌}
use uvudt.Common.Int.{ℤ, pos}
use uvudt.Epoll.{ok, err, add_usock, remove_usock}
use uvudt.United.Types.{SockAddr, United, Reply, returns, throws, init, connected}
use uvudt.United.EntityClose.{add_epoll, remove_epoll}
use uvudt.United.Lookup.{is, locate, get_status, on_socket, addr_size}

-- The address of the peer with its size, and the own port with the size of the address.
pub getpeername : United → ℤ → Reply (ℕ × Option SockAddr)
unfolding get_status locate
getpeername g u = if not (is (get_status g u) connected) then throws 2 2 else elim (locate g u) [
  | none ↦ throws 5 4
  | some s ↦
      if not s.udt.is_connected || s.udt.is_broken
      then throws 2 2
      else returns (addr_size s.ip_version, s.peer_addr)
]

pub getsockname : United → ℤ → Reply (ℕ × ℕ)
unfolding locate
getsockname g u = elim (locate g u) [
  | none ↦ throws 5 4
  | some s ↦
      if s.udt.is_broken
      then throws 5 4
      else if is s.status init
      then throws 2 2
      else returns (addr_size s.ip_version, s.self_port)
]

-- The exceptions that `add_usock` and `remove_usock` throw are 5, 13.
pub epoll_add_usock : United → ℤ → ℤ → Option ℕ → Reply ℤ × United
unfolding on_socket
epoll_add_usock g eid u events = on_socket g u (λ s. elim (add_usock g.epoll eid u events) [
  | err c ↦ (throws 5 13, g)
  | ok e ↦ (returns (pos 0), add_epoll (record g { epoll = e }) s eid)
])

pub epoll_remove_usock : United → ℤ → ℤ → Reply ℤ × United
unfolding locate
epoll_remove_usock g eid u = elim (remove_usock g.epoll eid u) [
  | err c ↦ (throws 5 13, g)
  | ok e ↦ elim (locate g u) [
    | none ↦ (returns (pos 0), record g { epoll = e })
    | some s ↦ (returns (pos 0), remove_epoll (record g { epoll = e }) s eid)
  ]
]
