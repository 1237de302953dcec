-- ===== src/United/StatusConnect.antt =====
-- `connect` of UDT4/src/api.cpp, and all the calls together, and the statuses.
use uvudt.Common.{
  ℕ, Option, none, some, ◌≡◌, ◌⊎◌, refl, sym, ◌∙◌, not, ◌&&◌, ◌==◌, Bool-cases, Option-cases, inl,
  inr, ap,
}
use uvudt.Common.Int.{ℤ, pos}
use mathlib.Core.Path.{subst}
use uvudt.United.Maps.{fetch}
use uvudt.United.Types.{
  CudtSocket, SockAddr, Udt, United, Reply, returns, throws, waits, Status, init, opened,
  connecting, connected,
}
use uvudt.United.Entity.{with_udt, open_udt, connect_udt, Attempt}
use uvudt.United.Muxes.{Channel, update_mux}
use uvudt.United.Lookup.{is, locate, after, set_status, copy_self_addr, addr_size}
use uvudt.United.Calls.{open_on}
use uvudt.United.Connecting.{make_open, responded, attempted, try_connect, record_peer, connect}
use uvudt.United.Status.{
  opens, connects, completes, fails_open, drops_open, facts, facts_of, Kept, Named, Still,
  Kept-refl, Kept-trans, Kept-Still, Still-with_socket, Still-with_udt, Named-Kept,
}
use uvudt.United.StatusSteps.{
  is-eq, facts-found, Still-trans, set_status-turns, after-Kept, on_socket-Kept, guard-Kept,
  Still-update_mux, open_on-Kept,
}
use uvudt.United.StatusCalls.{Still-copy_self_addr, facts-is}

-- A call that returns has left the socket with the status.
abbrev Leaves : ℤ → Status → Reply ℤ × United → Type 0
Leaves u a (returns v, h) = facts_of h u ≡ some (u, a)
Leaves u a (throws major minor, h) = Unit
Leaves u a (waits, h) = Unit

Leaves-after :
    (u : ℤ) (a : Status) (r : Reply ℤ × United) (f : United → Reply ℤ × United)
    → ((v : ℤ) (h : United) → r ≡ (returns v, h) → Leaves u a (f h))
    → Leaves u a (after r f)
unfolding after
Leaves-after u a (returns v, h) f more = more v h refl
Leaves-after u a (throws major minor, h) f more = tt
Leaves-after u a (waits, h) f more = tt

Leaves-open_on :
    (g : United) (u : ℤ) (s : CudtSocket) (asked : Option ℕ) (channel : Channel)
    → s.socket_id ≡ u
    → facts_of g u ≡ some (u, init)
    → Leaves u opened (open_on g s asked channel)
unfolding open_on
Leaves-open_on g u s asked channel number now =
    Leaves-after u opened (update_mux g1 s asked channel)
      (λ g'. (returns (pos 0), set_status g' s.socket_id opened))
      (λ v h path.
        subst (λ k. facts_of (set_status h k opened) u ≡ some (u, opened)) (sym number)
          ((set_status-turns h u u init opened
            (subst (λ k. facts_of k u ≡ some (u, init)) (ap (λ p. p.1) path) (same u ∙ now))
            opens).1))
  where
    g1 : United
    g1 = with_udt g s.socket_id open_udt

    same : Still g (update_mux g1 s asked channel).1
    same =
        Still-trans g g1 (update_mux g1 s asked channel).1 (Still-with_udt g s.socket_id open_udt)
          (Still-update_mux g1 s asked channel)

make_open-opened :
    (g : United) (u : ℤ) (s : CudtSocket) (channel : Channel)
    → Named g
    → locate g u ≡ some s
    → Kept g (make_open g s channel).1 × Leaves u opened (make_open g s channel)
unfolding make_open update_mux
make_open-opened g u s channel named there = elim (Bool-cases (is s.status init)) [
  | inl fresh ↦ elim (Bool-cases s.udt.rendezvous) [
    | inl alone ↦ rw (fresh, alone) (Kept-refl g, tt)
    | inr usual ↦
        rw (fresh, usual)
          (
            open_on-Kept g s u none channel (facts-is g u s init named there fresh),
            Leaves-open_on g u s none channel ((facts-found g u s named there).0) (
                (facts-found g u s named there).1
                ∙ ap (λ a. some (u, a)) (is-eq s.status init fresh)),
          )
  ]
  | inr used ↦ elim (Bool-cases (is s.status opened)) [
    | inl ready ↦
        rw (used, ready)
          (
            Kept-refl g,
            (facts-found g u s named there).1 ∙ ap (λ a. some (u, a)) (is-eq s.status opened ready),
          )
    | inr other ↦ rw (used, other) (Kept-refl g, tt)
  ]
]

-- CONNECTING, and then CONNECTED if the response was taken.
responded-turns :
    (g : United) (s : CudtSocket) (d : Udt) (i : ℤ)
    → facts_of g s.socket_id ≡ some (i, opened)
    → Kept g (responded g s d)
      × ((facts_of (responded g s d) s.socket_id ≡ some (i, connecting))
          ⊎ (facts_of (responded g s d) s.socket_id ≡ some (i, connected)))
unfolding responded
responded-turns g s d i now = elim (Bool-cases (d.is_connected && not s.udt.is_connected)) [
  | inr no_answer ↦
      rw no_answer (Kept-trans g h h1 (Kept-Still g h still) (turned.0), inl (turned.1))
  | inl answer ↦ rw answer (
    Kept-trans g h1 (set_status h2 s.socket_id connected)
        (Kept-trans g h h1 (Kept-Still g h still) (turned.0))
        (Kept-trans h1 h2 (set_status h2 s.socket_id connected)
          (Kept-Still h1 h2 (Still-copy_self_addr h1 s.socket_id)) (done_now.0)),
    inr (done_now.1),
  )
]
  where
    h : United
    h = with_udt g s.socket_id (λ old. d)

    still : Still g h
    still = Still-with_udt g s.socket_id (λ old. d)

    h1 : United
    h1 = set_status h s.socket_id connecting

    turned : Kept h h1 × (facts_of h1 s.socket_id ≡ some (i, connecting))
    turned = set_status-turns h s.socket_id i opened connecting (still s.socket_id ∙ now) connects

    h2 : United
    h2 = copy_self_addr h1 s.socket_id

    done_now :
        Kept h2 (set_status h2 s.socket_id connected)
        × (facts_of (set_status h2 s.socket_id connected) s.socket_id ≡ some (i, connected))
    done_now =
        set_status-turns h2 s.socket_id i connecting connected
          (Still-copy_self_addr h1 s.socket_id s.socket_id ∙ turned.1) completes

attempted-Kept :
    (g : United) (s : CudtSocket) (i : ℤ) (p : Reply ℤ × Udt)
    → facts_of g s.socket_id ≡ some (i, opened)
    → Kept g (attempted g s p).1
unfolding attempted
attempted-Kept g s i (returns v, d) now = (responded-turns g s d i now).0
attempted-Kept g s i (waits, d) now = (responded-turns g s d i now).0
attempted-Kept g s i (throws major minor, d) now =
    let (kept, turned) = responded-turns g s d i now in
    Kept-trans g (responded g s d) (set_status (responded g s d) s.socket_id opened) kept
      (elim turned [
        | inl left ↦
            (set_status-turns (responded g s d) s.socket_id i connecting opened left fails_open).0
        | inr right ↦
            (set_status-turns (responded g s d) s.socket_id i connected opened right drops_open).0
      ])

try_connect-Kept :
    (g : United) (u : ℤ) (attempt : Attempt)
    → Named g
    → facts_of g u ≡ some (u, opened)
    → Kept g (try_connect g u attempt).1
unfolding try_connect
try_connect-Kept g u attempt named now = elim (Option-cases (fetch g.heap u)) [
  | inl gone ↦ rw (gone, try_connect) (Kept-refl g)
  | inr (s, there) ↦
      rw (there, try_connect)
        (attempted-Kept g s u (connect_udt s.udt attempt) (
          subst (λ k. facts_of g k ≡ some (u, opened))
            (sym (named u s.socket_id s.status (ap facts there))) now))
]

Still-record_peer : (k : United) (u : ℤ) (name : SockAddr) → Still k (record_peer k u name)
unfolding record_peer
Still-record_peer k u name =
    Still-with_socket k u (λ t. record t { peer_addr = some name }) (λ t. refl)

pub connect-Kept :
    (g : United) (u : ℤ) (name : SockAddr) (namelen : ℕ) (channel : Channel) (attempt : Attempt)
    → Named g
    → Kept g (connect g u name namelen channel attempt).1
unfolding connect
connect-Kept g u name namelen channel attempt named = on_socket-Kept g u _ (λ s there.
    guard-Kept g (not (namelen == addr_size s.ip_version)) 5 3 _ (λ sized.
      let (kept, leaves) = make_open-opened g u s channel named there in
      after-Kept g (make_open g s channel)
        (λ g'. after (try_connect g' u attempt) (λ h. (returns (pos 0), record_peer h u name))) kept
        (λ v h path.
          let named_then : Named h =
            Named-Kept g h named (subst (Kept g) (ap (λ p. p.1) path) kept) in
          after-Kept h (try_connect h u attempt) (λ k. (returns (pos 0), record_peer k u name))
            (try_connect-Kept h u attempt named_then (subst (Leaves u opened) path leaves))
            (λ w k path'. Kept-Still k (record_peer k u name) (Still-record_peer k u name)))))
