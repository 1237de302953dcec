-- ===== src/United/Closing.antt =====
-- `close` of UDT4/src/api.cpp. The clock is an argument.
use uvudt.Common.{ℕ, true, none, some, List, if◌then◌else◌}
use uvudt.Common.Int.{ℤ, pos}
use uvudt.Epoll.Sets.{erase}
use uvudt.United.Maps.{add_member}
use uvudt.United.Types.{United, Reply, returns, waits, listening, closed}
use uvudt.United.Entity.{with_socket}
use uvudt.United.EntityClose.{close_udt, Moment}
use uvudt.United.Lookup.{is, locate, after, on_socket}

-- The last part of `close`: the socket is found again, and waits for the collector.
unfoldable pub retire : United → ℤ → ℕ → Reply ℤ × United
unfolding locate with_socket
retire g u now = elim (locate g u) [
  | none ↦ (returns (pos 0), g)
  | some s ↦
      let h = with_socket g u (λ t. record t { status = closed; time_stamp = now }) in
      (
        returns (pos 0),
        record h { sockets = erase g.sockets u; closed_sockets = add_member g.closed_sockets u },
      )
]

-- `entertime` and `moments` are the clock and the loop of CUDT::close, and `now` is the clock after.
-- It wakes the calls of `accept` under `m_AcceptLock`, and `waits` where that is never unlocked.
unfoldable pub close : United → ℤ → ℕ → List Moment → ℕ → Reply ℤ × United
unfolding on_socket retire after with_socket
close g u entertime moments now = on_socket g u (λ s.
    if is s.status listening
    then (if s.udt.is_broken then (returns (pos 0), g) else (
      if s.accept_locked then waits else returns (pos 0),
      with_socket g u (λ t. record t { time_stamp = now; udt = record t.udt { is_broken = true } }),
    ))
    else after (close_udt g s entertime moments) (λ g'. retire g' u now))
