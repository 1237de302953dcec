-- ===== src/United/Closed.antt =====
-- `close` of UDT4/src/api.cpp: what the table says of the socket, and of the others.
use uvudt.Common.{
  ℕ, Option, none, some, List, ◌≡◌, refl, sym, ◌∙◌, arith, true, false, Bool-cases, Option-cases,
  inl, inr, ap,
}
use uvudt.Common.Int.{ℤ, pos}
use mathlib.Core.Path.{subst}
use uvudt.Epoll.Sets.{contains, erase, contains-erase}
use uvudt.United.Maps.{fetch, add_member, contains-add_member}
use uvudt.United.Types.{
  CudtSocket, United, Reply, returns, throws, waits, Status, listening, closed,
}
use uvudt.United.Entity.{with_socket}
use uvudt.United.EntityClose.{close_udt, Moment}
use uvudt.United.Lookup.{is, locate, lookup, get_status, find_socket, after, on_socket}
use uvudt.United.Closing.{close, retire}
use uvudt.United.View.{
  view, Same, Same-trans, Same-with_socket, Same-close_udt, SameSets, SameSets-close_udt,
}

-- A socket that is gone for the calls that look for it.
abbrev pub Gone : United → ℤ → Type 0
Gone g u = (lookup g u ≡ throws 5 4) × (get_status g u ≡ closed)

Gone-moved :
    (h : United) (u : ℤ)
    → contains h.sockets u ≡ false
    → contains h.closed_sockets u ≡ true
    → Gone h u
unfolding find_socket lookup get_status
Gone-moved h u off on =
    let nowhere : find_socket h u ≡ none = rw (off, find_socket) refl in
    (rw (nowhere, lookup) refl, rw (nowhere, get_status, on) refl)

retire-Gone :
    (g : United) (u : ℤ) (now : ℕ) (s : CudtSocket)
    → locate g u ≡ some s
    → Gone (retire g u now).1 u
unfolding retire
retire-Gone g u now s there =
    let off : contains (erase g.sockets u) u ≡ false =
      contains-erase g.sockets u u ∙ ground arith in
    let on : contains (add_member g.closed_sockets u) u ≡ true =
      contains-add_member g.closed_sockets u u ∙ ground arith in
    rw (there, retire)
      (Gone-moved
        (record (with_socket g u (λ t. record t { status = closed; time_stamp = now })) {
          sockets = erase g.sockets u;
          closed_sockets = add_member g.closed_sockets u;
        })
        u off on)

locate-parts :
    (g : United) (u : ℤ) (s : CudtSocket)
    → locate g u ≡ some s
    → (contains g.sockets u ≡ true) × (fetch g.heap u ≡ some s) × (is s.status closed ≡ false)
unfolding locate find_socket
locate-parts g u s there =
    let held : contains g.sockets u ≡ true = ground arith in
    let found : fetch g.heap u ≡ some s = ground arith in
    let in_map : find_socket g u ≡ some s = rw (held, find_socket) found in
    (
      held,
      found,
      elim (Bool-cases (is s.status closed)) [
        | inr other ↦ other
        | inl at_end ↦
            let nothing : locate g u ≡ none = rw (in_map, locate, at_end) refl in
            let impossible : ⊥ = cc (nothing, there) in elim impossible [ ]
      ],
    )

-- CUDT::close leaves a socket where it was found.
close_udt-locate :
    (g h : United) (u : ℤ) (s : CudtSocket)
    → SameSets g h
    → Same (λ t. t.status) g h
    → locate g u ≡ some s
    → (t : CudtSocket) × (locate h u ≡ some t)
unfolding locate find_socket
close_udt-locate g h u s same_sets same_status there = elim (Option-cases (fetch h.heap u)) [
  | inl gone ↦
      let lost : ◌≡◌ {A = Option Status} none (some s.status) =
        sym (ap (view (λ t. t.status)) gone)
        ∙ (same_status u ∙ ap (view (λ t. t.status)) (was.1)) in
      let impossible : ⊥ = cc lost in elim impossible [ ]
  | inr (t, found) ↦
      let path : ◌≡◌ {A = Option Status} (some t.status) (some s.status) =
        sym (ap (view (λ t. t.status)) found)
        ∙ (same_status u ∙ ap (view (λ t. t.status)) (was.1)) in
      let same : t.status ≡ s.status = cc path in
      let held : contains h.sockets u ≡ true = ap (λ xs. contains xs u) (same_sets.0) ∙ was.0 in
      let in_map : find_socket h u ≡ some t = rw (held, find_socket) found in
      let whole : is t.status closed ≡ false = ap (λ a. is a closed) same ∙ was.2 in
      (t, rw (in_map, locate, whole) refl)
]
  where
    was : (contains g.sockets u ≡ true) × (fetch g.heap u ≡ some s) × (is s.status closed ≡ false)
    was = locate-parts g u s there

retired :
    (g : United) (u : ℤ) (now : ℕ) (s : CudtSocket) (r : Reply ℤ × United)
    → locate g u ≡ some s
    → SameSets g r.1
    → Same (λ t. t.status) g r.1
    → (after r (λ h. retire h u now)).0 ≡ returns (pos 0)
    → Gone (after r (λ h. retire h u now)).1 u
unfolding after
retired g u now s (returns v, h) there same_sets same_status path =
    let (t, still_there) = close_udt-locate g h u s same_sets same_status there in
    retire-Gone h u now t still_there
retired g u now s (throws major minor, h) there same_sets same_status path =
    let impossible : ⊥ = cc path in elim impossible [ ]
retired g u now s (waits, h) there same_sets same_status path =
    let impossible : ⊥ = cc path in elim impossible [ ]

-- A call of `close` that returns, on a socket that does not listen: no later call finds the socket,
-- and its status is CLOSED.
pub close-Gone :
    (g : United) (u : ℤ) (s : CudtSocket) (entertime : ℕ) (moments : List Moment) (now : ℕ)
    → locate g u ≡ some s
    → is s.status listening ≡ false
    → (close g u entertime moments now).0 ≡ returns (pos 0)
    → Gone (close g u entertime moments now).1 u
unfolding close on_socket
close-Gone g u s entertime moments now there other path =
    let closes : close g u entertime moments now
        ≡ after (close_udt g s entertime moments) (λ h. retire h u now) =
      rw (there, close, on_socket, other) refl in
    subst (λ (p : Reply ℤ × United). p.0 ≡ returns (pos 0) → Gone p.1 u) (sym closes)
      (retired g u now s (close_udt g s entertime moments) there
        (SameSets-close_udt g s entertime moments)
        (Same-close_udt (λ t. t.status) (λ t d. refl) g s entertime moments))
      path

after-Same :
    (g : United) (r : Reply ℤ × United) (f : United → Reply ℤ × United)
    → Same (λ s. s.accepted) g r.1
    → ((h : United) → Same (λ s. s.accepted) h (f h).1)
    → Same (λ s. s.accepted) g (after r f).1
unfolding after
after-Same g (returns v, h) f first more = Same-trans (λ s. s.accepted) g h (f h).1 first (more h)
after-Same g (throws major minor, h) f first more = first
after-Same g (waits, h) f first more = first

retire-accepted : (g : United) (u : ℤ) (now : ℕ) → Same (λ s. s.accepted) g (retire g u now).1
unfolding retire
retire-accepted g u now v = elim (Option-cases (locate g u)) [
  | inl gone ↦ rw (gone, retire) refl
  | inr (s, there) ↦
      rw (there, retire)
        (Same-with_socket (λ s. s.accepted) g u
          (λ t. record t { status = closed; time_stamp = now }) (λ t. refl) v)
]

-- A socket that the application closes stays in its listener's set of accepted sockets: `close`
-- leaves that set of every socket as it is.
pub close-accepted :
    (g : United) (u : ℤ) (entertime : ℕ) (moments : List Moment) (now : ℕ) (v : ℤ)
    → view (λ s. s.accepted) (fetch (close g u entertime moments now).1.heap v)
      ≡ view (λ s. s.accepted) (fetch g.heap v)
unfolding close on_socket
close-accepted g u entertime moments now v = elim (Option-cases (locate g u)) [
  | inl gone ↦ rw (gone, close, on_socket) refl
  | inr (s, there) ↦ elim (Bool-cases (is s.status listening)) [
    | inr other ↦
        rw (there, close, on_socket, other)
          (after-Same g (close_udt g s entertime moments) (λ h. retire h u now)
            (Same-close_udt (λ s. s.accepted) (λ s d. refl) g s entertime moments)
            (λ h. retire-accepted h u now) v)
    | inl listens ↦ elim (Bool-cases s.udt.is_broken) [
      | inl again ↦ rw (there, close, on_socket, listens, again) refl
      | inr first ↦
          rw (there, close, on_socket, listens, first)
            (Same-with_socket (λ s. s.accepted) g u
              (λ t. record t { time_stamp = now; udt = record t.udt { is_broken = true } })
              (λ t. refl) v)
    ]
  ]
]
