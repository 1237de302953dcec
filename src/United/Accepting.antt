-- ===== src/United/Accepting.antt =====
-- `accept` of UDT4/src/api.cpp. A wait for the condition ends a round of its loop.
use uvudt.Common.{
  ℕ, Bool, true, false, not, ◌||◌, Option, none, some, [], ◌∷◌, ltb, if◌then◌else◌, length,
}
use uvudt.Common.Int.{ℤ}
use uvudt.Epoll.{update_events}
use uvudt.Epoll.Sets.{IntSet, is_empty}
use uvudt.United.Maps.{fetch, add_member}
use uvudt.United.Types.{CudtSocket, SockAddr, United, Reply, returns, throws, waits, listening}
use uvudt.United.Entity.{with_socket, with_udt, epoll_in}
use uvudt.United.Lookup.{is, locate, addr_size}
use uvudt.United.Incoming.{members}

-- `update_events(listen, ..., UDT_EPOLL_IN, false)` when nothing is queued.
unfoldable pub quiet_listener : United → ℤ → United
unfolding with_udt
quiet_listener g u = elim (fetch g.heap u) [
  | none ↦ g
  | some ls ↦
      if is_empty (members ls.queued)
      then (let (polls, e) = update_events g.epoll u ls.udt.poll_ids epoll_in false in
          with_udt (record g { epoll = e }) u (λ d. record d { poll_ids = polls }))
      else g
]

-- The first socket of the queue is handed out. The exception leaves the loop at once, and leaves
-- `m_AcceptLock` locked.
unfoldable pub hand_out : United → CudtSocket → ℤ → IntSet → Reply ℤ × United
unfolding quiet_listener with_socket
hand_out g ls u rest =
    let taken = add_member (members ls.accepted) u in
    let h =
      with_socket g ls.socket_id (λ s. record s { queued = some rest; accepted = some taken }) in
    if ltb 99999 (length taken)
    then (throws 3 0, with_socket h ls.socket_id (λ s. record s { accept_locked = true }))
    else (returns u, quiet_listener h ls.socket_id)

-- A round of the loop of `accept`, and what follows it when it is the last. `waits` is the wait for
-- the lock, or for the condition: the next round finds another state.
unfoldable pub accept_round : United → CudtSocket → Reply ℤ × United
unfolding hand_out quiet_listener
accept_round g ls =
    let none_left : Reply ℤ × United =
      (if ls.udt.syn_recving then throws 5 6 else throws 6 2, quiet_listener g ls.socket_id) in
    if ls.accept_locked
    then (waits, g)
    else if not (is ls.status listening) || ls.udt.is_broken
    then none_left
    else elim (members ls.queued) [
      | u ∷ rest ↦ hand_out g ls u rest
      | [] ↦ if not ls.udt.syn_recving then none_left else (waits, quiet_listener g ls.socket_id)
    ]

-- `accept`; `bad_length` is an address without its length.
unfoldable pub accept : United → ℤ → Bool → Reply ℤ × United
unfolding accept_round
accept g u bad_length = if bad_length then (throws 5 3, g) else elim (locate g u) [
  | none ↦ (throws 5 4, g)
  | some ls ↦
      if not (is ls.status listening)
      then (throws 5 6, g)
      else if ls.udt.rendezvous
      then (throws 5 7, g)
      else accept_round g ls
]

-- The address that `accept` copies, with its size; `none` where the source follows NULL.
pub accepted_name : United → ℤ → Option (ℕ × Option SockAddr)
accepted_name g u = elim (locate g u) [
  | none ↦ none
  | some s ↦ some (addr_size s.ip_version, s.peer_addr)
]
