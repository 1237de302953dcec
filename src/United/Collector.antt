-- ===== src/United/Collector.antt =====
-- The garbage collector of UDT4/src/api.cpp: `checkBrokenSockets`, `removeSocket`, and the end of
-- `garbageCollect`. The clock is read once in each pass of it.
use uvudt.Common.{
  ℕ, ◌-◌, Bool, true, false, not, ◌&&◌, ◌||◌, Option, none, some, List, [], ◌∷◌, ltb, leb, ◌==◌,
  if◌then◌else◌,
}
use uvudt.Common.Int.{ℤ, pos, ltb_ℤ, ◌-ℤ◌}
use uvudt.Epoll.Sets.{IntSet, contains, erase, is_empty}
use uvudt.United.Maps.{fetch, assign_key, discard, add_member}
use uvudt.United.Types.{CudtSocket, Udt, Mux, United, listening, closed}
use uvudt.United.Entity.{with_socket, with_udt, minus_64}
use uvudt.United.Lookup.{is, find_socket}
use uvudt.United.Incoming.{forget, members, peer_key, close_now}

-- The socket is taken off the listener's sets, if there is a listener.
unfoldable pub leave_listener : United → ℤ → ℤ → United
unfolding forget
leave_listener g ls u =
    if contains g.sockets ls || contains g.closed_sockets ls then forget g ls u else g

-- A broken socket is closed. It stays in `m_Sockets` until the loop is done.
unfoldable pub bury : United → CudtSocket → ℕ → United
unfolding leave_listener with_socket
bury g s now =
    let h = with_socket g s.socket_id (λ t. record t { status = closed; time_stamp = now }) in
    leave_listener (record h { closed_sockets = add_member g.closed_sockets s.socket_id })
      s.listen_socket s.socket_id

-- `m_iBrokenCounter --`
unfoldable pub count_down : United → ℤ → United
unfolding with_udt
count_down g u = with_udt g u (λ d. record d { broken_counter = d.broken_counter -ℤ pos 1 })

unfoldable pub has_unread : Udt → Bool
has_unread d = elim d.rcv_data [ none ↦ false | some n ↦ ltb 0 n ]

-- A round of the first loop; the number joins `tbc` when the result is true.
unfoldable pub check_socket : United → CudtSocket → ℕ → Bool × United
unfolding bury count_down has_unread minus_64
check_socket g s now =
    if not s.udt.is_broken
    then (false, g)
    else if is s.status listening
    then (if ltb (minus_64 now s.time_stamp) 3_000_000 then (false, g) else (true, bury g s now))
    else if has_unread s.udt
    then (if ltb_ℤ (pos 0) s.udt.broken_counter
        then (false, count_down g s.socket_id)
        else (true, bury (count_down g s.socket_id) s now))
    else (true, bury g s now)

unfoldable pub check_sockets : United → List ℤ → ℕ → List ℤ × United
unfolding check_socket
check_sockets g [] now = ([], g)
check_sockets g (u ∷ us) now = elim (fetch g.heap u) [
  | none ↦ check_sockets g us now
  | some s ↦
      (let (closes, h) = check_socket g s now in
        let (tbc, k) = check_sockets h us now in (if closes then u ∷ tbc else tbc, k))
]

-- The end of a lingering socket.
unfoldable pub linger_done : Udt → ℕ → Bool
linger_done d now = elim d.snd_data [
  | none ↦ true
  | some n ↦ (n == 0) || leb d.linger_expiration now
]

unfoldable pub end_linger : CudtSocket → ℕ → CudtSocket
unfolding linger_done
end_linger s now =
    if ltb 0 s.udt.linger_expiration && linger_done s.udt now
    then record s {
      time_stamp = now;
      udt = record s.udt { linger_expiration = 0; is_closing = true };
    }
    else s

-- A second has gone by, and the receiving thread has let the socket go.
unfoldable pub removable : CudtSocket → ℕ → Bool
unfolding minus_64
removable s now = ltb 1_000_000 (minus_64 now s.time_stamp) && not s.udt.is_on_rcv_list

-- The second loop, which finds `tbr`.
unfoldable pub check_closed : United → List ℤ → ℕ → List ℤ × United
unfolding end_linger removable with_socket
check_closed g [] now = ([], g)
check_closed g (u ∷ us) now = elim (fetch g.heap u) [
  | none ↦ check_closed g us now
  | some s ↦
      (let (tbr, h) = check_closed (with_socket g u (λ t. end_linger t now)) us now in
        (if removable (end_linger s now) now then u ∷ tbr else tbr, h))
]

-- The sockets that nobody has accepted are closed with their listener. `none` is the access through
-- the NULL that `m_Sockets[*q]` makes.
unfoldable pub close_queued : United → List ℤ → ℕ → Option United
unfolding find_socket with_udt with_socket close_now
close_queued g [] now = some g
close_queued g (q ∷ qs) now = elim (find_socket g q) [
  | none ↦ none
  | some s ↦
      let h = close_now (with_udt g q (λ d. record d { is_broken = true })) q now in
      let k = with_socket h q (λ t. record t { time_stamp = now; status = closed }) in
      close_queued
        (record k { closed_sockets = add_member k.closed_sockets q; sockets = erase k.sockets q })
        qs now
]

unfoldable pub drop_peer : List (ℤ × IntSet) → ℤ → ℤ → List (ℤ × IntSet)
drop_peer m key u = elim (fetch m key) [
  | none ↦ m
  | some js ↦ if is_empty (erase js u) then discard m key else assign_key m key (erase js u)
]

-- One user less; the last one takes the multiplexer along.
unfoldable pub drop_user : List (ℤ × Mux) → ℤ → List (ℤ × Mux)
drop_user muxes mid = elim (fetch muxes mid) [
  | none ↦ muxes
  | some m ↦
      if m.ref_count == 1
      then discard muxes mid
      else assign_key muxes mid (record m { ref_count = m.ref_count - 1 })
]

-- `removeSocket`, once the queue is dealt with.
unfoldable pub delete_socket : United → CudtSocket → ℕ → United
unfolding drop_peer drop_user close_now
delete_socket g s now =
    let h =
      close_now
        (record g { peer_rec = drop_peer g.peer_rec (peer_key s.peer_id s.isn) s.socket_id })
        s.socket_id now in
    record h {
      heap = discard h.heap s.socket_id;
      closed_sockets = erase h.closed_sockets s.socket_id;
      muxes = drop_user h.muxes s.mux_id;
    }

unfoldable pub delete_from : Option United → CudtSocket → ℕ → Option United
unfolding delete_socket
delete_from none s now = none
delete_from (some g) s now = some (delete_socket g s now)

unfoldable pub remove_socket : United → ℤ → ℕ → Option United
unfolding close_queued delete_from
remove_socket g u now = elim (if contains g.closed_sockets u then fetch g.heap u else none) [
  | none ↦ some g
  | some s ↦ delete_from (close_queued g (members s.queued) now) s now
]

unfoldable pub remove_sockets : Option United → List ℤ → ℕ → Option United
unfolding remove_socket
remove_sockets none us now = none
remove_sockets (some g) [] now = some g
remove_sockets (some g) (u ∷ us) now = remove_sockets (remove_socket g u now) us now

unfoldable pub erase_each : IntSet → List ℤ → IntSet
erase_each xs [] = xs
erase_each xs (u ∷ us) = erase_each (erase xs u) us

unfoldable pub check_broken_sockets : United → ℕ → Option United
unfolding check_sockets check_closed erase_each remove_sockets
check_broken_sockets g now =
    let (tbc, h) = check_sockets g g.sockets now in
    let (tbr, k) = check_closed h h.closed_sockets now in
    remove_sockets (some (record k { sockets = erase_each k.sockets tbc })) tbr now

-- The end of `garbageCollect`: every socket is broken and closed, and the stamps are old.
unfoldable pub close_all : United → List ℤ → ℕ → United
unfolding leave_listener with_udt with_socket close_now
close_all g [] now = g
close_all g (u ∷ us) now = elim (fetch g.heap u) [
  | none ↦ close_all g us now
  | some s ↦
      let h = close_now (with_udt g u (λ d. record d { is_broken = true })) u now in
      let k = with_socket h u (λ t. record t { status = closed; time_stamp = now }) in
      close_all
        (leave_listener (record k { closed_sockets = add_member k.closed_sockets u })
          s.listen_socket u)
        us now
]

unfoldable pub outdate : United → List ℤ → United
unfolding with_socket
outdate g [] = g
outdate g (u ∷ us) = outdate (with_socket g u (λ t. record t { time_stamp = 0 })) us

-- The last loop; it is given the clock of each round, and `none` is also a loop that has not ended.
unfoldable pub drain : Option United → List ℕ → Option United
unfolding check_broken_sockets
drain none times = none
drain (some g) [] = none
drain (some g) (now ∷ times) = elim (check_broken_sockets g now) [
  | none ↦ none
  | some h ↦ if is_empty h.closed_sockets then some h else drain (some h) times
]

pub end_of_collection : United → ℕ → List ℕ → Option United
unfolding close_all outdate drain
end_of_collection g now times =
    let h = record (close_all g g.sockets now) { sockets = [] } in
    drain (some (outdate h h.closed_sockets)) times
