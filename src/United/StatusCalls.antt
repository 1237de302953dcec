-- ===== src/United/StatusCalls.antt =====
-- `newSocket`, `bind`, `listen`, `connect` and `close` of UDT4/src/api.cpp, and the statuses.
use uvudt.Common.{
  ℕ, Option, none, some, List, [], ◌≡◌, refl, sym, ◌∙◌, arith, if◌then◌else◌, Bool, true, false,
  not, ◌&&◌, ◌||◌, ◌==◌, Bool-cases, Option-cases, inl, inr, ap,
}
use uvudt.Common.Int.{ℤ, pos, leb_ℤ, pos_part, ◌-ℤ◌, ◌==ℤ◌, ==ℤ_iff}
use mathlib.Core.Path.{subst}
use uvudt.United.Maps.{fetch, assign_key, fetch-assign_key}
use uvudt.United.Types.{
  CudtSocket, SockAddr, United, Reply, returns, Status, init, opened, listening, closed,
}
use uvudt.United.Entity.{with_socket, listen_udt, set_listener}
use uvudt.United.EntityClose.{close_udt, lingered, shut, linger, Moment, Linger, over, later, still}
use uvudt.United.Muxes.{Channel}
use uvudt.United.Lookup.{is, locate, after, set_status, copy_self_addr, addr_size}
use uvudt.United.Calls.{open_on, bind, bind_udp, listen, new_socket, fresh_socket}
use uvudt.United.Closing.{retire, close}
use uvudt.United.Status.{
  stays, listens, closes, facts_of, Kept, Named, Still, Follows-refl, Kept-refl, Kept-Still,
  Still-with_socket, Still-with_udt, Kept-set_status, Kept-with_socket, Named-Kept,
}
use uvudt.United.StatusSteps.{
  is-eq, facts-found, Still-trans, after-Kept, on_socket-Kept, guard-Kept, open_on-Kept,
}

pub Still-copy_self_addr : (g : United) (u : ℤ) → Still g (copy_self_addr g u)
unfolding copy_self_addr
Still-copy_self_addr g u = Still-with_socket g u (λ s. record s { self_port = _ }) (λ s. refl)

-- The status that a test has found.
pub facts-is :
    (g : United) (u : ℤ) (s : CudtSocket) (a : Status)
    → Named g
    → locate g u ≡ some s
    → is s.status a ≡ true
    → facts_of g s.socket_id ≡ some (u, a)
facts-is g u s a named there test =
    let (number, now) = facts-found g u s named there in
    subst (λ k. facts_of g k ≡ some (u, a)) (sym number)
      (now ∙ ap (λ b. some (u, b)) (is-eq s.status a test))

pub unnot : (b : Bool) → not b ≡ false → b ≡ true
unnot b h = ground arith

open_and_copy-Kept :
    (g : United) (u : ℤ) (s : CudtSocket) (asked : Option ℕ) (channel : Channel)
    → Named g
    → locate g u ≡ some s
    → is s.status init ≡ true
    → Kept g (after (open_on g s asked channel) (λ g'. (returns (pos 0), copy_self_addr g' u))).1
open_and_copy-Kept g u s asked channel named there test =
    after-Kept g (open_on g s asked channel) (λ g'. (returns (pos 0), copy_self_addr g' u))
      (open_on-Kept g s u asked channel (facts-is g u s init named there test))
      (λ v h path. Kept-Still h (copy_self_addr h u) (Still-copy_self_addr h u))

pub bind-Kept :
    (g : United) (u : ℤ) (name : SockAddr) (namelen : ℕ) (channel : Channel)
    → Named g
    → Kept g (bind g u name namelen channel).1
unfolding bind
bind-Kept g u name namelen channel named = on_socket-Kept g u _ (λ s there.
    guard-Kept g (not (is s.status init)) 5 0 _ (λ fresh.
      guard-Kept g (not (namelen == addr_size s.ip_version)) 5 3 _ (λ sized.
        open_and_copy-Kept g u s (some name.port) channel named there
          (unnot (is s.status init) fresh))))

pub bind_udp-Kept :
    (g : United) (u : ℤ) (name : Option SockAddr) (channel : Channel)
    → Named g
    → Kept g (bind_udp g u name channel).1
unfolding bind_udp
bind_udp-Kept g u none channel named =
    on_socket-Kept g u _
      (λ s there. guard-Kept g (not (is s.status init)) 5 0 _ (λ fresh. Kept-refl g))
bind_udp-Kept g u (some a) channel named = on_socket-Kept g u _ (λ s there.
    guard-Kept g (not (is s.status init)) 5 0 _ (λ fresh.
      open_and_copy-Kept g u s (some a.port) channel named there (unnot (is s.status init) fresh)))

Still-listen_udt : (g : United) (s : CudtSocket) → Still g (listen_udt g s).1
unfolding listen_udt
Still-listen_udt g s v = elim (Bool-cases s.udt.is_open) [
  | inr shut_already ↦ rw (shut_already, listen_udt) refl
  | inl ready ↦ elim (Bool-cases (s.udt.is_connecting || s.udt.is_connected)) [
    | inl busy ↦ rw (ready, busy, listen_udt) refl
    | inr free ↦ elim (Bool-cases s.udt.is_listening) [
      | inl again ↦ rw (ready, free, again, listen_udt) refl
      | inr not_yet ↦ elim (Option-cases (fetch g.muxes s.mux_id)) [
        | inl gone ↦ rw (ready, free, not_yet, gone, listen_udt) refl
        | inr (m, there) ↦ elim (Option-cases (set_listener m s.socket_id)) [
          | inl taken ↦ rw (ready, free, not_yet, there, taken, listen_udt) refl
          | inr (m', new) ↦
              rw (ready, free, not_yet, there, new, listen_udt)
                (Still-with_udt (record g { muxes = assign_key g.muxes s.mux_id m' }) s.socket_id
                  (λ d. record d { is_listening = true }) v)
        ]
      ]
    ]
  ]
]

listen_on-Kept :
    (g : United) (u : ℤ) (s : CudtSocket) (backlog : ℤ)
    → Named g
    → locate g u ≡ some s
    → is s.status opened ≡ true
    → Kept g
        (after
          (listen_udt
            (with_socket g u
              (λ t. record t { backlog = pos_part backlog; queued = some []; accepted = some [] }))
            s)
          (λ h. (returns (pos 0), set_status h u listening))).1
listen_on-Kept g u s backlog named there test =
    after-Kept g r (λ h. (returns (pos 0), set_status h u listening)) (Kept-Still g r.1 same)
      (λ v h path.
        Kept-set_status h u u opened listening
          (subst (λ k. facts_of k u ≡ some (u, opened)) (ap (λ p. p.1) path) (same u ∙ now))
          listens)
  where
    g1 : United
    g1 =
        with_socket g u
          (λ t. record t { backlog = pos_part backlog; queued = some []; accepted = some [] })

    r : Reply ℤ × United
    r = listen_udt g1 s

    same : Still g r.1
    same =
        Still-trans g g1 r.1
          (Still-with_socket g u
            (λ t. record t { backlog = pos_part backlog; queued = some []; accepted = some [] })
            (λ t. refl))
          (Still-listen_udt g1 s)

    now : facts_of g u ≡ some (u, opened)
    now =
        subst (λ k. facts_of g k ≡ some (u, opened)) ((facts-found g u s named there).0)
          (facts-is g u s opened named there test)

pub listen-Kept : (g : United) (u backlog : ℤ) → Named g → Kept g (listen g u backlog).1
unfolding listen
listen-Kept g u backlog named = on_socket-Kept g u _ (λ s there.
    elim (Bool-cases (is s.status listening)) [
      | inl again ↦ rw again (Kept-refl g)
      | inr not_yet ↦ rw not_yet (
          guard-Kept g (not (is s.status opened)) 5 5 _ (λ ready.
            guard-Kept g s.udt.rendezvous 5 7 _ (λ alone.
              guard-Kept g (leb_ℤ backlog (pos 0)) 5 3 _ (λ enough.
                listen_on-Kept g u s backlog named there (unnot (is s.status opened) ready)))))
    ])

-- A socket that is not there yet, and starts as INIT.
pub new_socket-Kept :
    (g : United) (af type : ℕ)
    → facts_of g (g.socket_seed -ℤ pos 1) ≡ none
    → Kept g (new_socket g af type).1
unfolding new_socket
new_socket-Kept g af type unused v = elim (Bool-cases (not (type == 1) && not (type == 2))) [
  | inl unknown ↦ rw (unknown, new_socket) (Follows-refl v (facts_of g v))
  | inr known ↦
      rw (known, new_socket, fetch-assign_key g.heap u v (fresh_socket u af (type == 1)))
        (elim (Bool-cases (u ==ℤ v)) [
          | inl same ↦
              let empty : facts_of g v ≡ none = rw (sym ((==ℤ_iff u v).0 same)) unused in
              rw (same, empty) ((==ℤ_iff u v).0 same, stays init)
          | inr other ↦ rw other (Follows-refl v (facts_of g v))
        ])
]
  where
    u : ℤ
    u = g.socket_seed -ℤ pos 1

Still-shut : (g : United) (s : CudtSocket) → Still g (shut g s)
unfolding shut
Still-shut g s v =
    Still-with_udt (record g { muxes = _; epoll = _ }) s.socket_id
      (λ d. record d {
        poll_ids = _;
        is_closing = true;
        is_listening = false;
        is_connected = false;
        is_open = false;
      })
      v

Still-lingered :
    (g : United) (s : CudtSocket) (entertime : ℕ) (l : Linger)
    → Still g (lingered g s entertime l).1
unfolding lingered
Still-lingered g s entertime over v = Still-shut g s v
Still-lingered g s entertime later v = Still-with_udt g s.socket_id _ v
Still-lingered g s entertime still v = refl

pub Still-close_udt :
    (g : United) (s : CudtSocket) (entertime : ℕ) (moments : List Moment)
    → Still g (close_udt g s entertime moments).1
unfolding close_udt
Still-close_udt g s entertime moments v = elim (Bool-cases s.udt.is_open) [
  | inr shut_already ↦ rw (shut_already, close_udt) refl
  | inl ready ↦
      rw (ready, close_udt)
        (Still-lingered g s entertime
          (if s.udt.linger_on then linger s.udt entertime moments else over) v)
]

-- The socket that is closed, whatever its status.
retire-Kept : (g : United) (u : ℤ) (now : ℕ) → Named g → Kept g (retire g u now).1
unfolding retire
retire-Kept g u now named = elim (Option-cases (locate g u)) [
  | inl gone ↦ rw (gone, retire) (Kept-refl g)
  | inr (s, there) ↦
      rw (there, retire)
        (Kept-with_socket g u u s.status closed
          (λ t. record t { status = closed; time_stamp = now }) ((facts-found g u s named there).1)
          (closes s.status) (λ t. refl))
]

pub close-Kept :
    (g : United) (u : ℤ) (entertime : ℕ) (moments : List Moment) (now : ℕ)
    → Named g
    → Kept g (close g u entertime moments now).1
unfolding close
close-Kept g u entertime moments now named = on_socket-Kept g u _ (λ s there.
    elim (Bool-cases (is s.status listening)) [
      | inl listens_now ↦ elim (Bool-cases s.udt.is_broken) [
        | inl again ↦ rw (listens_now, again) (Kept-refl g)
        | inr first ↦
            rw (listens_now, first)
              (Kept-Still g
                (with_socket g u
                  (λ t. record t { time_stamp = now; udt = record t.udt { is_broken = true } }))
                (Still-with_socket g u
                  (λ t. record t { time_stamp = now; udt = record t.udt { is_broken = true } })
                  (λ t. refl)))
      ]
      | inr other ↦ rw other (
          let still_so = Still-close_udt g s entertime moments in
          after-Kept g (close_udt g s entertime moments) (λ g'. retire g' u now)
            (Kept-Still g (close_udt g s entertime moments).1 still_so)
            (λ v h path. retire-Kept h u now (
              Named-Kept g h named (
                Kept-Still g h (λ w.
                  subst (λ k. facts_of k w ≡ facts_of g w) (ap (λ p. p.1) path) (still_so w))))))
    ])
