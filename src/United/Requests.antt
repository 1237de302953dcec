-- ===== src/United/Requests.antt =====
-- `newConnection` of UDT4/src/api.cpp: the queue of a listener stays within its backlog.
use uvudt.Common.{
  ℕ, ◌≤◌, ◌<◌, Option, none, some, [], ◌∷◌, ◌≡◌, refl, sym, ◌∙◌, arith, false, leb, length,
  Bool-cases, Option-cases, inl, inr,
}
use uvudt.Common.Int.{ℤ, pos, ◌==ℤ◌, ==ℤ_iff, ◌-ℤ◌}
use mathlib.Core.Path.{subst}
use uvudt.Epoll.Sets.{IntSet, erase}
use uvudt.Packet.Handshake.{HandShake}
use uvudt.United.Maps.{fetch, assign_key, add_member, fetch-assign_key}
use uvudt.United.Types.{
  CudtSocket, SockAddr, United, Reply, returns, throws, waits, closed, connected,
}
use uvudt.United.Entity.{with_socket, with_udt, open_udt, inherited_udt, connect_peer}
use uvudt.United.Muxes.{update_mux_of_listener, share}
use uvudt.United.Lookup.{locate, set_status, copy_self_addr}
use uvudt.United.Incoming.{
  new_connection, locate_peer, admit, admit_anew, admitted, child_socket, enroll, roll_back,
  close_now, look, forget, members, change, peer_key,
}
use uvudt.United.Heap.{fetch-with_socket, with_socket-unused}
use uvudt.United.View.{view, Same, Same-trans, Same-with_socket, Same-with_udt, Same-close_udt}
use uvudt.United.Accept.{length-add_member}
use uvudt.United.StatusSteps.{locate-found}

abbrev pub queue_of : CudtSocket → ℕ × Option IntSet
queue_of s = (s.backlog, s.queued)

abbrev pub seen : United → ℤ → Option (ℕ × Option IntSet)
seen g u = view queue_of (fetch g.heap u)

-- Within the backlog, and with room for one more.
abbrev pub Fits : Option (ℕ × Option IntSet) → Type 0
Fits none = Unit
Fits (some (b, q)) = length (members q) ≤ b

abbrev HasRoom : Option (ℕ × Option IntSet) → Type 0
HasRoom none = Unit
HasRoom (some (b, q)) = length (members q) < b

Fits-HasRoom : (o : Option (ℕ × Option IntSet)) → HasRoom o → Fits o
Fits-HasRoom none h = tt
Fits-HasRoom (some (b, q)) h = omega arith

length-erase : (xs : IntSet) (a : ℤ) → length (erase xs a) ≤ length xs
unfolding erase
length-erase [] a = omega arith
length-erase (x ∷ xs) a = ground (arith, length-erase xs a)

-- The queue of a listener loses or gains a socket.
Fits-forget : (g : United) (ls u v : ℤ) → Fits (seen g v) → Fits (seen (forget g ls u) v)
unfolding forget
Fits-forget g ls u v fits = rw (fetch-with_socket g ls v f) (elim (Bool-cases (ls ==ℤ v)) [
  | inr other ↦ rw other fits
  | inl same ↦ rw same (elim (Option-cases (fetch g.heap v)) [
    | inl gone ↦ rw gone tt
    | inr (s, there) ↦
        rw there (fewer s.queued s.backlog (subst (λ o. Fits (view queue_of o)) there fits))
  ])
])
  where
    f : CudtSocket → CudtSocket
    f s = record s {
      queued = change (λ xs. erase xs u) s.queued;
      accepted = change (λ xs. erase xs u) s.accepted;
    }

    fewer :
        (q : Option IntSet) (b : ℕ)
        → length (members q) ≤ b
        → length (members (change (λ xs. erase xs u) q)) ≤ b
    fewer none b h = h
    fewer (some xs) b h = omega (arith, length-erase xs u)

Fits-queued :
    (g : United) (ls u v : ℤ)
    → HasRoom (seen g v)
    → Fits (
        seen
          (with_socket g ls (λ s. record s { queued = change (λ xs. add_member xs u) s.queued }))
          v)
Fits-queued g ls u v room = rw (fetch-with_socket g ls v f) (elim (Bool-cases (ls ==ℤ v)) [
  | inr other ↦ rw other (Fits-HasRoom (seen g v) room)
  | inl same ↦ rw same (elim (Option-cases (fetch g.heap v)) [
    | inl gone ↦ rw gone tt
    | inr (s, there) ↦
        rw there (more s.queued s.backlog (subst (λ o. HasRoom (view queue_of o)) there room))
  ])
])
  where
    f : CudtSocket → CudtSocket
    f s = record s { queued = change (λ xs. add_member xs u) s.queued }

    more :
        (q : Option IntSet) (b : ℕ)
        → length (members q) < b
        → length (members (change (λ xs. add_member xs u) q)) ≤ b
    more none b h = omega arith
    more (some xs) b h = omega (arith, length-add_member xs u)

Fits-Same : (g h : United) (v : ℤ) → Same queue_of g h → Fits (seen g v) → Fits (seen h v)
Fits-Same g h v same fits = subst Fits (sym (same v)) fits

HasRoom-Same : (g h : United) (v : ℤ) → Same queue_of g h → HasRoom (seen g v) → HasRoom (seen h v)
HasRoom-Same g h v same room = subst HasRoom (sym (same v)) room

Same-copy_self_addr : (g : United) (u : ℤ) → Same queue_of g (copy_self_addr g u)
unfolding copy_self_addr
Same-copy_self_addr g u =
    Same-with_socket queue_of g u (λ s. record s { self_port = _ }) (λ s. refl)

Fits-enroll :
    (g : United) (ls : CudtSocket) (u key v : ℤ)
    → HasRoom (seen g v)
    → Fits (seen (enroll g ls u key) v)
unfolding enroll set_status
Fits-enroll g ls u key v room = Same-kept (
    Fits-queued (record h { sockets = _; peer_rec = _ }) ls.socket_id u v
      (HasRoom-Same g h v same room))
  where
    g1 : United
    g1 = set_status g u connected

    h : United
    h = copy_self_addr g1 u

    same : Same queue_of g h
    same =
        Same-trans queue_of g g1 h
          (Same-with_socket queue_of g u (λ s. record s { status = connected }) (λ s. refl))
          (Same-copy_self_addr g1 u)

    l : United
    l =
        with_socket
          (record h {
            sockets = add_member h.sockets u;
            peer_rec = assign_key h.peer_rec key (add_member (members (fetch h.peer_rec key)) u);
          })
          ls.socket_id (λ s. record s { queued = change (λ xs. add_member xs u) s.queued })

    Same-kept : Fits (seen l v) → Fits (seen (enroll g ls u key) v)
    Same-kept fits =
        Fits-Same l (enroll g ls u key) v
          (Same-with_udt queue_of (λ s d. refl) (record l { epoll = _ }) ls.socket_id _) fits

Same-roll_back : (g : United) (u : ℤ) (now : ℕ) → Same queue_of g (roll_back g u now)
unfolding roll_back close_now
Same-roll_back g u now = Same-trans queue_of g (close_now g u now) (roll_back g u now) closes (
    Same-with_socket queue_of (close_now g u now) u
      (λ s. record s { status = closed; time_stamp = now }) (λ s. refl))
  where
    closes : Same queue_of g (close_now g u now)
    closes v = elim (Option-cases (fetch g.heap u)) [
      | inl gone ↦ rw (gone, close_now) refl
      | inr (s, there) ↦
          rw (there, close_now) (Same-close_udt queue_of (λ t d. refl) g s now (look s now ∷ []) v)
    ]

Fits-admitted :
    (ls : CudtSocket) (u : ℤ) (peer : SockAddr) (hs : HandShake) (now : ℕ) (r : Reply ℤ × United)
    (v : ℤ)
    → HasRoom (seen r.1 v)
    → Fits (seen (admitted ls u peer hs now r).2 v)
unfolding admitted
Fits-admitted ls u peer hs now (returns w, g) v room =
    let d = (connect_peer (open_udt (inherited_udt ls.udt)) u peer hs).0 in
    Fits-enroll (with_udt g u (λ old. d)) ls u (peer_key hs.id hs.isn) v (
      HasRoom-Same g (with_udt g u (λ old. d)) v
        (Same-with_udt queue_of (λ s e. refl) g u (λ old. d)) room)
Fits-admitted ls u peer hs now (throws major minor, g) v room =
    Fits-Same g (roll_back g u now) v (Same-roll_back g u now) (Fits-HasRoom (seen g v) room)
Fits-admitted ls u peer hs now (waits, g) v room = Fits-HasRoom (seen g v) room

Same-update_mux_of_listener :
    (g : United) (u : ℤ) (ls : CudtSocket) → Same queue_of g (update_mux_of_listener g u ls).1
unfolding update_mux_of_listener share
Same-update_mux_of_listener g u ls v = elim (Option-cases (fetch g.muxes ls.mux_id)) [
  | inl gone ↦ rw (gone, update_mux_of_listener) refl
  | inr (m, there) ↦
      rw (there, update_mux_of_listener)
        (Same-with_socket queue_of (record g { muxes = _ }) u (λ t. record t { mux_id = m.id })
          (λ t. refl) v)
]

-- The new socket is another one than `v`.
Fits-admit :
    (g : United) (ls : CudtSocket) (peer : SockAddr) (hs : HandShake) (now : ℕ) (v : ℤ)
    → fetch g.heap (g.socket_seed -ℤ pos 1) ≡ none
    → fetch g.heap v ≡ some ls
    → Fits (seen g v)
    → Fits (seen (admit g ls peer hs now).2 v)
unfolding admit
Fits-admit g ls peer hs now v unused there fits =
    elim (Bool-cases (leb ls.backlog (length (members ls.queued)))) [
      | inl full ↦ rw (full, admit) fits
      | inr less ↦
          rw (admit, less)
            (Fits-admitted ls u peer hs now (update_mux_of_listener h u ls) v (
              HasRoom-Same h (update_mux_of_listener h u ls).1 v
                (Same-update_mux_of_listener h u ls) (room less)))
    ]
  where
    u : ℤ
    u = g.socket_seed -ℤ pos 1

    child : CudtSocket
    child = child_socket ls u peer hs

    h : United
    h = record g {
      socket_seed = u;
      heap = assign_key g.heap u (record child { udt = open_udt child.udt });
    }

    at_v : fetch h.heap v ≡ some ls
    at_v =
        fetch-assign_key g.heap u v (record child { udt = open_udt child.udt })
        ∙ elim (Bool-cases (u ==ℤ v)) [
          | inr other ↦ rw other there
          | inl same ↦
              let free : fetch g.heap v ≡ none = rw (sym ((==ℤ_iff u v).0 same)) unused in
              let impossible : ⊥ = cc (free, there) in elim impossible [ ]
        ]

    room : leb ls.backlog (length (members ls.queued)) ≡ false → HasRoom (seen h v)
    room less =
        subst (λ (o : Option CudtSocket). HasRoom (view queue_of o)) (sym at_v)
          (ground (arith, less))

Fits-admit_anew :
    (g : United) (ls : ℤ) (peer : SockAddr) (hs : HandShake) (now : ℕ)
    → fetch g.heap (g.socket_seed -ℤ pos 1) ≡ none
    → Fits (seen g ls)
    → Fits (seen (admit_anew g ls peer hs now).2 ls)
unfolding admit_anew
Fits-admit_anew g ls peer hs now unused fits = elim (Option-cases (fetch g.heap ls)) [
  | inl gone ↦ rw (gone, admit_anew) fits
  | inr (s, there) ↦ rw (there, admit_anew) (Fits-admit g s peer hs now ls unused there fits)
]

-- A queue of a listener that is within its backlog is so after a request as well, whatever the request
-- and the outcome, if the number of the next socket is unused.
pub new_connection-Fits :
    (g : United) (listener : ℤ) (peer : SockAddr) (hs : HandShake) (now : ℕ)
    → fetch g.heap (g.socket_seed -ℤ pos 1) ≡ none
    → Fits (seen g listener)
    → Fits (seen (new_connection g listener peer hs now).2 listener)
unfolding new_connection forget
new_connection-Fits g listener peer hs now unused fits = elim (Option-cases (locate g listener)) [
  | inl gone ↦ rw (gone, new_connection) fits
  | inr (ls, there) ↦ elim (Option-cases (locate_peer g peer hs.id hs.isn)) [
    | inl new ↦
        rw (there, new_connection, new)
          (Fits-admit g ls peer hs now listener unused (locate-found g listener ls there) fits)
    | inr (ns, old) ↦ elim (Bool-cases ns.udt.is_broken) [
      | inr works ↦ rw (there, new_connection, old, works) fits
      | inl fails ↦
          rw (there, new_connection, old, fails)
            (Fits-admit_anew (forget (buried ns) listener ns.socket_id) listener peer hs now
              (still_unused ns)
              (Fits-forget (buried ns) listener ns.socket_id listener
                (Fits-Same g (buried ns) listener (same_queues ns) fits)))
    ]
  ]
]
  where
    buried : CudtSocket → United
    buried ns = with_socket g ns.socket_id (λ s. record s { status = closed; time_stamp = now })

    same_queues : (ns : CudtSocket) → Same queue_of g (buried ns)
    same_queues ns =
        Same-with_socket queue_of g ns.socket_id
          (λ s. record s { status = closed; time_stamp = now }) (λ s. refl)

    still_unused :
        (ns : CudtSocket)
        → fetch
            (forget (buried ns) listener ns.socket_id).heap
            ((forget (buried ns) listener ns.socket_id).socket_seed -ℤ pos 1)
          ≡ none
    still_unused ns = with_socket-unused (buried ns) listener _ (
        with_socket-unused g ns.socket_id (λ s. record s { status = closed; time_stamp = now })
          unused)
