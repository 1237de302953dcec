-- ===== src/United/Connecting.antt =====
-- `connect`, `connect_complete` and `punchhole` of UDT4/src/api.cpp. What the peer does is an argument.
use uvudt.Common.{ℕ, not, ◌&&◌, none, some, ◌==◌, if◌then◌else◌}
use uvudt.Common.Int.{ℤ, pos}
use uvudt.United.Maps.{fetch}
use uvudt.United.Types.{
  CudtSocket, SockAddr, Udt, United, Reply, returns, throws, waits, init, opened, connecting,
  connected,
}
use uvudt.United.Entity.{with_socket, with_udt, connect_udt, Attempt}
use uvudt.United.Muxes.{Channel}
use uvudt.United.Lookup.{is, after, on_socket, set_status, addr_size, copy_self_addr}
use uvudt.United.Calls.{open_on}

-- The first part of `connect` and `punchhole`: a socket that is not bound is opened.
unfoldable pub make_open : United → CudtSocket → Channel → Reply ℤ × United
unfolding open_on
make_open g s channel =
    if is s.status init
    then if s.udt.rendezvous then (throws 5 8, g) else open_on g s none channel
    else if is s.status opened
    then (returns (pos 0), g)
    else (throws 5 2, g)

unfoldable pub record_peer : United → ℤ → SockAddr → United
unfolding with_socket
record_peer g u name = with_socket g u (λ s. record s { peer_addr = some name })

-- The call of CUDT::connect, in its try block, which leaves the socket with `d`. The source calls
-- `connect_complete` when the response is taken.
unfoldable pub responded : United → CudtSocket → Udt → United
unfolding set_status with_udt copy_self_addr
responded g s d =
    let h = set_status (with_udt g s.socket_id (λ old. d)) s.socket_id connecting in
    if d.is_connected && not s.udt.is_connected
    then set_status (copy_self_addr h s.socket_id) s.socket_id connected
    else h

unfoldable pub attempted : United → CudtSocket → Reply ℤ × Udt → Reply ℤ × United
unfolding set_status responded
attempted g s (returns v, d) = (returns v, responded g s d)
attempted g s (throws major minor, d) =
    (throws major minor, set_status (responded g s d) s.socket_id opened)
attempted g s (waits, d) = (waits, responded g s d)

-- CUDT::connect of the socket as it is now.
unfoldable pub try_connect : United → ℤ → Attempt → Reply ℤ × United
unfolding attempted
try_connect g u attempt = elim (fetch g.heap u) [
  | none ↦ (throws 5 4, g)
  | some s ↦ attempted g s (connect_udt s.udt attempt)
]

unfoldable pub connect : United → ℤ → SockAddr → ℕ → Channel → Attempt → Reply ℤ × United
unfolding on_socket make_open try_connect record_peer after
connect g u name namelen channel attempt = on_socket g u (λ s.
    if not (namelen == addr_size s.ip_version)
    then (throws 5 3, g)
    else after (make_open g s channel)
        (λ g'. after (try_connect g' u attempt) (λ h. (returns (pos 0), record_peer h u name))))

-- `reply` is how CUDT::punchhole ends.
unfoldable pub punchhole : United → ℤ → SockAddr → ℕ → Channel → Reply ℤ → Reply ℤ × United
unfolding on_socket make_open record_peer after set_status
punchhole g u name namelen channel reply = on_socket g u (λ s.
    if not (namelen == addr_size s.ip_version)
    then (throws 5 3, g)
    else after (make_open g s channel) (λ g'. elim reply [
      | returns v ↦ (returns (pos 0), record_peer g' u name)
      | throws major minor ↦ (throws major minor, set_status g' u opened)
      | waits ↦ (waits, g')
    ]))

unfoldable pub connect_complete : United → ℤ → Reply ℤ × United
unfolding on_socket copy_self_addr set_status
connect_complete g u =
    on_socket g u (λ s. (returns (pos 0), set_status (copy_self_addr g u) u connected))
