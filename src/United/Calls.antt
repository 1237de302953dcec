-- ===== src/United/Calls.antt =====
-- `newSocket`, `bind` and `listen` of UDT4/src/api.cpp. What the operating system does is an argument.
use uvudt.Common.{ℕ, Bool, false, not, ◌&&◌, Option, none, some, [], ◌==◌, if◌then◌else◌}
use uvudt.Common.Int.{ℤ, pos, minus_one, ◌-ℤ◌, leb_ℤ, pos_part}
use uvudt.United.Maps.{assign_key, add_member}
use uvudt.United.Types.{
  CudtSocket, SockAddr, United, Reply, returns, throws, init, opened, listening,
}
use uvudt.United.Entity.{with_socket, with_udt, new_udt, open_udt, listen_udt}
use uvudt.United.Muxes.{Channel, update_mux}
use uvudt.United.Lookup.{is, after, on_socket, set_status, addr_size, copy_self_addr}

-- `new CUDTSocket`, and what `newSocket` does to it.
unfoldable pub sock_stream : ℕ
sock_stream = 1

unfoldable pub sock_dgram : ℕ
sock_dgram = 2

unfoldable pub fresh_socket : ℤ → ℕ → Bool → CudtSocket
fresh_socket u af stream = record {
  status = init;
  time_stamp = 0;
  ip_version = af;
  peer_addr = none;
  self_port = 0;
  socket_id = u;
  listen_socket = pos 0;
  peer_id = pos 0;
  isn = pos 0;
  udt = record new_udt { stream = stream; ip_version = af };
  queued = none;
  accepted = none;
  backlog = 0;
  mux_id = minus_one;
  accept_locked = false;
}

unfoldable pub new_socket : United → ℕ → ℕ → Reply ℤ × United
unfolding fresh_socket sock_stream sock_dgram
new_socket g af type =
    let u = g.socket_seed -ℤ pos 1 in
    if not (type == sock_stream) && not (type == sock_dgram) then (throws 5 3, g) else (
      returns u,
      record g {
        socket_seed = u;
        sockets = add_member g.sockets u;
        heap = assign_key g.heap u (fresh_socket u af (type == sock_stream));
      },
    )

-- Both calls of `bind` from `open` on.
unfoldable pub open_on : United → CudtSocket → Option ℕ → Channel → Reply ℤ × United
unfolding after set_status with_udt
open_on g s asked channel =
    after (update_mux (with_udt g s.socket_id open_udt) s asked channel)
      (λ g'. (returns (pos 0), set_status g' s.socket_id opened))

unfoldable pub bind : United → ℤ → SockAddr → ℕ → Channel → Reply ℤ × United
unfolding on_socket open_on copy_self_addr
bind g u name namelen channel = on_socket g u (λ s.
    if not (is s.status init)
    then (throws 5 0, g)
    else if not (namelen == addr_size s.ip_version)
    then (throws 5 3, g)
    else after (open_on g s (some name.port) channel)
        (λ g'. (returns (pos 0), copy_self_addr g' u)))

-- `bind` to a system socket; `name` is what `getsockname` of the operating system says.
unfoldable pub bind_udp : United → ℤ → Option SockAddr → Channel → Reply ℤ × United
unfolding on_socket open_on copy_self_addr
bind_udp g u name channel = on_socket g u (λ s.
    if not (is s.status init) then (throws 5 0, g) else elim name [
      | none ↦ (throws 5 3, g)
      | some a ↦
          after (open_on g s (some a.port) channel) (λ g'. (returns (pos 0), copy_self_addr g' u))
    ])

unfoldable pub listen : United → ℤ → ℤ → Reply ℤ × United
unfolding on_socket after set_status with_socket
listen g u backlog = on_socket g u (λ s.
    if is s.status listening
    then (returns (pos 0), g)
    else if not (is s.status opened)
    then (throws 5 5, g)
    else if s.udt.rendezvous
    then (throws 5 7, g)
    else if leb_ℤ backlog (pos 0)
    then (throws 5 3, g)
    else let g' =
        with_socket g u
          (λ t. record t { backlog = pos_part backlog; queued = some []; accepted = some [] }) in
      after (listen_udt g' s) (λ h. (returns (pos 0), set_status h u listening)))
