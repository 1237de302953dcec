-- ===== src/United/Incoming.antt =====
-- The connections that come in, of UDT4/src/api.cpp: `newConnection`, which a listener's queue calls
-- for a handshake, and `accept`. The clock is an argument.
use uvudt.Common.{
  ℕ, ◌+◌, ◌*◌, ◌%◌, ◌^◌, true, Option, none, some, [], ◌∷◌, leb, if◌then◌else◌, length,
}
use uvudt.Common.Int.{ℤ, pos, minus_one, to_int, to_word, ◌-ℤ◌}
use uvudt.Epoll.{update_events}
use uvudt.Epoll.Sets.{IntSet, erase}
use uvudt.Packet.Handshake.{HandShake}
use uvudt.United.Maps.{fetch, assign_key, add_member}
use uvudt.United.Types.{
  CudtSocket, SockAddr, United, Reply, returns, throws, waits, connected, closed,
}
use uvudt.United.Address.{ipcmp}
use uvudt.United.Entity.{with_socket, with_udt, inherited_udt, open_udt, connect_peer, epoll_in}
use uvudt.United.EntityClose.{close_udt, Moment}
use uvudt.United.Muxes.{update_mux_of_listener}
use uvudt.United.Lookup.{find_socket, locate, copy_self_addr, set_status}
use uvudt.United.Calls.{fresh_socket}

-- `(id << 30) + isn`, which the source computes in 32 bits.
unfoldable pub peer_key : ℤ → ℤ → ℤ
peer_key id isn = to_int ((to_word id * 2 ^ 30 + to_word isn) % 2 ^ 32)

-- The first socket of the set that comes from the address.
unfoldable pub first_from : United → SockAddr → IntSet → Option CudtSocket
unfolding find_socket ipcmp
first_from g peer [] = none
first_from g peer (j ∷ js) =
    let rest = first_from g peer js in
    elim (find_socket g j) [
      | none ↦ rest
      | some s ↦ elim s.peer_addr [
        | none ↦ rest
        | some a ↦ if ipcmp peer a s.ip_version then some s else rest
      ]
    ]

unfoldable pub locate_peer : United → SockAddr → ℤ → ℤ → Option CudtSocket
unfolding first_from peer_key
locate_peer g peer id isn = elim (fetch g.peer_rec (peer_key id isn)) [
  | none ↦ none
  | some js ↦ first_from g peer js
]

-- The sets of a listener, which are there.
abbrev pub members : Option IntSet → IntSet
members none = []
members (some xs) = xs

abbrev pub change : (IntSet → IntSet) → Option IntSet → Option IntSet
change f none = none
change f (some xs) = some (f xs)

-- The socket leaves both sets of the listener.
unfoldable pub forget : United → ℤ → ℤ → United
unfolding with_socket
forget g ls u = with_socket g ls (λ s. record s {
  queued = change (λ xs. erase xs u) s.queued;
  accepted = change (λ xs. erase xs u) s.accepted;
})

-- The answer to a request that has been granted before.
unfoldable pub known_answer : HandShake → CudtSocket → HandShake
known_answer hs ns = record hs {
  isn = ns.udt.isn;
  mss = ns.udt.mss;
  flight_flag_size = ns.udt.flight_flag_size;
  req_type = minus_one;
  id = ns.socket_id;
}

-- The new socket, before it is opened.
unfoldable pub child_socket : CudtSocket → ℤ → SockAddr → HandShake → CudtSocket
unfolding fresh_socket inherited_udt
child_socket ls u peer hs = record (fresh_socket u ls.ip_version true) {
  udt = inherited_udt ls.udt;
  peer_addr = some peer;
  listen_socket = ls.socket_id;
  peer_id = hs.id;
  isn = hs.isn;
}

-- From `m_Status = CONNECTED` on: the socket is entered in the maps, and the listener is told.
unfoldable pub enroll : United → CudtSocket → ℤ → ℤ → United
unfolding with_socket copy_self_addr set_status
enroll g ls u key =
    let h = copy_self_addr (set_status g u connected) u in
    let same_key = members (fetch h.peer_rec key) in
    let k = record h {
      sockets = add_member h.sockets u;
      peer_rec = assign_key h.peer_rec key (add_member same_key u);
    } in
    let l =
      with_socket k ls.socket_id
        (λ s. record s { queued = change (λ xs. add_member xs u) s.queued }) in
    let (polls, e) = update_events l.epoll ls.socket_id ls.udt.poll_ids epoll_in true in
    with_udt (record l { epoll = e }) ls.socket_id (λ d. record d { poll_ids = polls })

-- ERR_ROLLBACK: the socket is closed, and no map has it. A look of the loop of `close` is taken from
-- the socket itself.
unfoldable pub look : CudtSocket → ℕ → Moment
look s now = record {
  now = now;
  is_broken = s.udt.is_broken;
  is_connected = s.udt.is_connected;
  snd_data = elim s.udt.snd_data [ none ↦ 0 | some n ↦ n ];
}

-- CUDT::close where it does not linger.
unfoldable pub close_now : United → ℤ → ℕ → United
unfolding look
close_now g u now = elim (fetch g.heap u) [
  | none ↦ g
  | some s ↦ (close_udt g s now (look s now ∷ [])).1
]

unfoldable pub roll_back : United → ℤ → ℕ → United
unfolding with_socket close_now
roll_back g u now =
    with_socket (close_now g u now) u (λ s. record s { status = closed; time_stamp = now })

-- The try block, after `open`, and what follows it.
unfoldable pub admitted :
    CudtSocket → ℤ → SockAddr → HandShake → ℕ → Reply ℤ × United → ℤ × HandShake × United
unfolding roll_back enroll with_udt
admitted ls u peer hs now (returns v, g) =
    let (d, answer) = connect_peer (open_udt (inherited_udt ls.udt)) u peer hs in
    (pos 1, answer, enroll (with_udt g u (λ old. d)) ls u (peer_key hs.id hs.isn))
admitted ls u peer hs now (throws major minor, g) = (minus_one, hs, roll_back g u now)
admitted ls u peer hs now (waits, g) = (minus_one, hs, g)

-- A new socket, unless the queue is full.
unfoldable pub admit : United → CudtSocket → SockAddr → HandShake → ℕ → ℤ × HandShake × United
unfolding child_socket admitted
admit g ls peer hs now =
    let u = g.socket_seed -ℤ pos 1 in
    if leb ls.backlog (length (members ls.queued))
    then (minus_one, hs, g)
    else let child = child_socket ls u peer hs in
      let h = record g {
        socket_seed = u;
        heap = assign_key g.heap u (record child { udt = open_udt child.udt });
      } in
      admitted ls u peer hs now (update_mux_of_listener h u ls)

-- The listener after a socket has been forgotten.
unfoldable pub admit_anew : United → ℤ → SockAddr → HandShake → ℕ → ℤ × HandShake × United
unfolding admit
admit_anew g ls peer hs now = elim (fetch g.heap ls) [
  | none ↦ (minus_one, hs, g)
  | some s ↦ admit g s peer hs now
]

unfoldable pub new_connection : United → ℤ → SockAddr → HandShake → ℕ → ℤ × HandShake × United
unfolding locate_peer known_answer forget admit_anew with_socket
new_connection g listener peer hs now = elim (locate g listener) [
  | none ↦ (minus_one, hs, g)
  | some ls ↦ elim (locate_peer g peer hs.id hs.isn) [
    | none ↦ admit g ls peer hs now
    | some ns ↦
        if ns.udt.is_broken
        then admit_anew
            (forget
              (with_socket g ns.socket_id (λ s. record s { status = closed; time_stamp = now }))
              listener ns.socket_id)
            listener peer hs now
        else (pos 0, known_answer hs ns, g)
  ]
]
