-- ===== src/United/StatusHeld.antt =====
-- The calls of UDT4/src/api.cpp and `m_Sockets`: a socket that listens is not taken out of it.
use uvudt.Common.{
  ℕ, Option, none, some, List, ◌≡◌, refl, sym, ◌∙◌, arith, if◌then◌else◌, true, false, ◌⊎◌,
  Bool-cases, Option-cases, inl, inr, ap,
}
use uvudt.Common.Int.{ℤ, pos, ◌-ℤ◌, ◌==ℤ◌, ==ℤ_iff}
use mathlib.Core.Path.{subst}
use uvudt.Epoll.Sets.{contains, contains-erase}
use uvudt.United.Maps.{contains-add_member}
use uvudt.United.Types.{
  CudtSocket, United, Reply, returns, throws, waits, listening, closed, Status,
}
use uvudt.United.Entity.{with_socket}
use uvudt.United.EntityClose.{close_udt, Moment}
use uvudt.United.Lookup.{is, locate, find_socket, after, on_socket}
use uvudt.United.Calls.{new_socket}
use uvudt.United.Closing.{retire, close}
use uvudt.United.View.{SameSets-close_udt}
use uvudt.United.Status.{facts, facts_of}
use uvudt.United.StatusSteps.{locate-found}
use uvudt.United.Steady.{Steady-with_socket}

contains-retire :
    (g : United) (v u : ℤ) (now : ℕ)
    → (u ==ℤ v) ≡ false
    → contains (retire g v now).1.sockets u ≡ contains g.sockets u
unfolding retire
contains-retire g v u now other = elim (Option-cases (locate g v)) [
  | inl gone ↦ rw (gone, retire) refl
  | inr (s, there) ↦ rw (there, retire) (contains-erase g.sockets v u ∙ rw other refl)
]

contains-after_retire :
    (g : United) (r : Reply ℤ × United) (v u : ℤ) (now : ℕ)
    → r.1.sockets ≡ g.sockets
    → (u ==ℤ v) ≡ false
    → contains (after r (λ h. retire h v now)).1.sockets u ≡ contains g.sockets u
unfolding after
contains-after_retire g (returns w, h) v u now same other =
    contains-retire h v u now other ∙ ap (λ xs. contains xs u) same
contains-after_retire g (throws major minor, h) v u now same other = ap (λ xs. contains xs u) same
contains-after_retire g (waits, h) v u now same other = ap (λ xs. contains xs u) same

-- LISTENING, or CLOSED and not yet out of `m_Sockets`.
abbrev pub Ends : United → ℤ → Type 0
Ends g u = (facts_of g u ≡ some (u, listening)) ⊎ (facts_of g u ≡ some (u, closed))

-- The socket that a call of `close` finds, if it is such a one, listens.
found-listening :
    (g : United) (u : ℤ) (s : CudtSocket)
    → Ends g u
    → locate g u ≡ some s
    → is s.status listening ≡ true
unfolding locate
found-listening g u s ends there = elim ends [
  | inl now ↦
      let path : some (s.socket_id, s.status) ≡ some (u, listening) =
        sym (ap facts (locate-found g u s there)) ∙ now in
      status_is (s.socket_id) s.status u listening path refl
  | inr now ↦
      let path : ◌≡◌ {A = Option (ℤ × Status)} (some (s.socket_id, s.status)) (some (u, closed)) =
        sym (ap facts (locate-found g u s there)) ∙ now in
      let shut : is s.status closed ≡ true = status_is (s.socket_id) s.status u closed path refl in
      let found : find_socket g u ≡ some s = found_before (find_socket g u) there in
      let nothing : locate g u ≡ none = rw (found, locate, shut) refl in
      let impossible : ⊥ = cc (nothing, there) in elim impossible [ ]
]
  where
    status_is :
        (i : ℤ) (a : Status) (j : ℤ) (b : Status)
        → ◌≡◌ {A = Option (ℤ × Status)} (some (i, a)) (some (j, b))
        → is b b ≡ true
        → is a b ≡ true
    status_is i a j b path same = cc (path, same)

    found_before :
        (o : Option CudtSocket)
        → (elim o as (λ p. Option CudtSocket) [
          | none ↦ none
          | some t ↦ if is t.status closed then none else some t
        ])
          ≡ some s
        → o ≡ some s
    found_before none h = cc h
    found_before (some t) h = elim (Bool-cases (is t.status closed)) [
      | inl shut ↦ let nothing = rw shut at h in cc nothing
      | inr open_one ↦ rw open_one at h
    ]

-- `close` takes only the socket out of `m_Sockets` that it closes, and no listening one.
pub close-held :
    (g : United) (v : ℤ) (entertime : ℕ) (moments : List Moment) (now : ℕ) (u : ℤ)
    → Ends g u
    → contains g.sockets u ≡ true
    → contains (close g v entertime moments now).1.sockets u ≡ true
unfolding close on_socket
close-held g v entertime moments now u ends held = elim (Option-cases (locate g v)) [
  | inl gone ↦
      let same : close g v entertime moments now ≡ (throws 5 4, g) =
        rw (gone, close, on_socket) refl in
      in_reply (close g v entertime moments now) (throws 5 4, g) same held
  | inr (s, there) ↦ elim (Bool-cases (is s.status listening)) [
    | inl listens ↦ elim (Bool-cases s.udt.is_broken) [
      | inl again ↦
          let same : close g v entertime moments now ≡ (returns (pos 0), g) =
            rw (there, close, on_socket, listens, again) refl in
          in_reply (close g v entertime moments now) (returns (pos 0), g) same held
      | inr once ↦
          let f : CudtSocket → CudtSocket =
            λ t. record t { time_stamp = now; udt = record t.udt { is_broken = true } } in
          let reply : Reply ℤ = if s.accept_locked then waits else returns (pos 0) in
          let same : close g v entertime moments now ≡ (reply, with_socket g v f) =
            rw (there, close, on_socket, listens, once) refl in
          in_reply (close g v entertime moments now) (reply, with_socket g v f) same
            (ap (λ xs. contains xs u) (Steady-with_socket g v f) ∙ held)
    ]
    | inr sends ↦
        let other : (u ==ℤ v) ≡ false = elim (Bool-cases (u ==ℤ v)) [
          | inr different ↦ different
          | inl same ↦
              let here : locate g u ≡ some s =
                subst (λ i. locate g i ≡ some s) (sym ((==ℤ_iff u v).0 same)) there in
              let listens = found-listening g u s ends here in
              let impossible : ⊥ = cc (listens, sends) in elim impossible [ ]
        ] in
        let shuts = close_udt g s entertime moments in
        let same : close g v entertime moments now ≡ after shuts (λ h. retire h v now) =
          rw (there, close, on_socket, sends) refl in
        in_reply (close g v entertime moments now) (after shuts (λ h. retire h v now)) same (
          contains-after_retire g shuts v u now ((SameSets-close_udt g s entertime moments).0) other
          ∙ held)
  ]
]
  where
    in_reply :
        (r q : Reply ℤ × United)
        → r ≡ q
        → contains q.1.sockets u ≡ true
        → contains r.1.sockets u ≡ true
    in_reply r q same h = ap (λ p. contains p.1.sockets u) same ∙ h

pub new_socket-held :
    (g : United) (af type : ℕ) (u : ℤ)
    → contains g.sockets u ≡ true
    → contains (new_socket g af type).1.sockets u ≡ true
unfolding new_socket
new_socket-held g af type u held =
    ground (arith, held, contains-add_member g.sockets (g.socket_seed -ℤ pos 1) u)
