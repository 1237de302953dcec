-- ===== src/United/Muxes.antt =====
-- `updateMux` of UDT4/src/api.cpp: a socket shares a multiplexer, or gets one of its own.
use uvudt.Common.{ℕ, ◌+◌, ◌&&◌, Option, none, some, List, [], ◌∷◌, ◌==◌, if◌then◌else◌}
use uvudt.Common.Int.{ℤ, pos, ◌==ℤ◌}
use uvudt.United.Maps.{fetch, assign_key}
use uvudt.United.Types.{CudtSocket, Mux, United, Reply, returns, throws}
use uvudt.United.Entity.{with_socket}

-- The first multiplexer that the socket may share.
unfoldable pub reusable : CudtSocket → ℕ → List (ℤ × Mux) → Option (ℤ × Mux)
reusable s port [] = none
reusable s port ((i, m) ∷ ms) =
    if (m.ip_version == s.udt.ip_version)
      && (m.mss ==ℤ s.udt.mss)
      && m.reuse_able
      && (m.port == port)
    then some (i, m)
    else reusable s port ms

-- The multiplexer at key `i` gets one more user.
unfoldable pub share : United → ℤ → Mux → ℤ → United
unfolding with_socket
share g i m u =
    with_socket
      (record g { muxes = assign_key g.muxes i (record m { ref_count = m.ref_count + 1 }) }) u
      (λ s. record s { mux_id = m.id })

-- A new multiplexer; `bound` is the port of the channel.
unfoldable pub own_mux : United → CudtSocket → ℕ → United
unfolding with_socket
own_mux g s bound =
    with_socket
      (record g {
        muxes = assign_key g.muxes s.socket_id (record {
          port = bound;
          ip_version = s.udt.ip_version;
          mss = s.udt.mss;
          ref_count = 1;
          reuse_able = s.udt.reuse_able;
          id = s.socket_id;
          listener = none;
        });
      })
      s.socket_id (λ s'. record s' { mux_id = s.socket_id })

-- `updateMux(s, addr, udpsock)`; `asked` is the port of `addr`, none for NULL, and `channel` the port
-- that the channel reports once it is open, or the minor code of the exception of its opening.
pub data Channel : Type 0 where
  bound_to : ℕ → Channel
  no_channel : ℕ → ℕ → Channel

unfoldable pub open_mux : United → CudtSocket → Channel → Reply ℤ × United
unfolding own_mux
open_mux g s (bound_to port) = (returns (pos 0), own_mux g s port)
open_mux g s (no_channel major minor) = (throws major minor, g)

unfoldable pub update_mux : United → CudtSocket → Option ℕ → Channel → Reply ℤ × United
unfolding reusable share open_mux
update_mux g s none channel = open_mux g s channel
update_mux g s (some port) channel =
    elim (if s.udt.reuse_addr then reusable s port g.muxes else none) [
      | none ↦ open_mux g s channel
      | some (i, m) ↦ (returns (pos 0), share g i m s.socket_id)
    ]

-- `updateMux(s, ls)`
unfoldable pub update_mux_of_listener : United → ℤ → CudtSocket → Reply ℤ × United
unfolding share
update_mux_of_listener g u ls = elim (fetch g.muxes ls.mux_id) [
  | none ↦ (throws 5 6, g)
  | some m ↦ (returns (pos 0), share g ls.mux_id m u)
]
