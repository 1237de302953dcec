-- ===== src/United/StatusRuns.antt =====
-- Runs of the calls of UDT4/src/api.cpp, and the statuses that a socket can have in them.
use uvudt.Common.{
  ℕ, Option, none, some, true, List, ◌≡◌, refl, ◌∙◌, ◌⊎◌, inl, inr, ap, Option-cases,
}
use uvudt.Common.Int.{ℤ, pos, ◌-ℤ◌}
use mathlib.Core.Path.{subst}
use uvudt.United.Types.{
  SockAddr, United, Reply, Status, init, opened, listening, connecting, connected, broken, closing,
  closed, nonexist,
}
use uvudt.United.Entity.{Attempt}
use uvudt.United.EntityClose.{Moment}
use uvudt.United.Muxes.{Channel}
use uvudt.United.Calls.{bind, bind_udp, listen, new_socket}
use uvudt.United.Connecting.{connect}
use uvudt.United.Closing.{close}
use uvudt.United.Status.{
  Moves, stays, opens, listens, connects, completes, fails_open, drops_open, closes, goes_on,
  facts_of, Kept, Named, Follows, Kept-refl, Kept-trans, Named-Kept,
}
use uvudt.United.StatusCalls.{bind-Kept, bind_udp-Kept, listen-Kept, new_socket-Kept, close-Kept}
use uvudt.United.StatusConnect.{connect-Kept}
use uvudt.United.StatusHeld.{Ends, close-held, new_socket-held}
use uvudt.United.Steady.{
  SteadyCall-bind, SteadyCall-bind_udp, SteadyCall-listen, SteadyCall-connect, held-Steady,
}
use uvudt.Epoll.Sets.{contains}

-- A call of the application, with what the clock, the system and the peer do in it.
pub data Action : Type 0 where
  makes : ℕ → ℕ → Action
  binds : ℤ → SockAddr → ℕ → Channel → Action
  binds_udp : ℤ → Option SockAddr → Channel → Action
  listens_on : ℤ → ℤ → Action
  connects_to : ℤ → SockAddr → ℕ → Channel → Attempt → Action
  closes_at : ℤ → ℕ → List Moment → ℕ → Action

unfoldable pub run : United → Action → Reply ℤ × United
run g (makes af type) = new_socket g af type
run g (binds u name namelen channel) = bind g u name namelen channel
run g (binds_udp u name channel) = bind_udp g u name channel
run g (listens_on u backlog) = listen g u backlog
run g (connects_to u name namelen channel attempt) = connect g u name namelen channel attempt
run g (closes_at u entertime moments now) = close g u entertime moments now

-- The number of the next socket is not in use.
abbrev pub Unused : United → Type 0
Unused g = facts_of g (g.socket_seed -ℤ pos 1) ≡ none

-- What a run of calls can make of a table.
pub data Reached : United → United → Type 0 where
  here : (g : United) → Reached g g
  call : (g h : United) → Reached g h → (a : Action) → Unused h → Reached g (run h a).1

run-Kept : (g : United) (a : Action) → Named g → Unused g → Kept g (run g a).1
unfolding run
run-Kept g (makes af type) named unused = new_socket-Kept g af type unused
run-Kept g (binds u name namelen channel) named unused = bind-Kept g u name namelen channel named
run-Kept g (binds_udp u name channel) named unused = bind_udp-Kept g u name channel named
run-Kept g (listens_on u backlog) named unused = listen-Kept g u backlog named
run-Kept g (connects_to u name namelen channel attempt) named unused =
    connect-Kept g u name namelen channel attempt named
run-Kept g (closes_at u entertime moments now) named unused =
    close-Kept g u entertime moments now named

Reached-Kept : (g h : United) → Named g → Reached g h → Kept g h
Reached-Kept g h named (here k) = Kept-refl k
Reached-Kept g h named (call k h1 before a unused) =
    let kept = Reached-Kept g h1 named before in
    Kept-trans g h1 h kept (run-Kept h1 a (Named-Kept g h1 named kept) unused)

-- LISTENING and what follows it.
Final : Status → Type 0
Final init = ⊥
Final opened = ⊥
Final listening = Unit
Final connecting = ⊥
Final connected = ⊥
Final broken = ⊥
Final closing = ⊥
Final closed = Unit
Final nonexist = ⊥

Moves-Final : (a b : Status) → Moves a b → Final a → Final b
unfolding Final
Moves-Final a b (stays c) h = h
Moves-Final a b opens h = elim h [ ]
Moves-Final a b listens h = elim h [ ]
Moves-Final a b connects h = elim h [ ]
Moves-Final a b completes h = elim h [ ]
Moves-Final a b fails_open h = elim h [ ]
Moves-Final a b drops_open h = elim h [ ]
Moves-Final a b (closes c) h = tt
Moves-Final a b (goes_on a1 c b1 m n) h = Moves-Final c b n (Moves-Final a c m h)

Final-cases : (a : Status) → Final a → (a ≡ listening) ⊎ (a ≡ closed)
unfolding Final
Final-cases init h = elim h [ ]
Final-cases opened h = elim h [ ]
Final-cases listening h = inl refl
Final-cases connecting h = elim h [ ]
Final-cases connected h = elim h [ ]
Final-cases broken h = elim h [ ]
Final-cases closing h = elim h [ ]
Final-cases closed h = inr refl
Final-cases nonexist h = elim h [ ]

run-held :
    (g : United) (a : Action) (u : ℤ)
    → Ends g u
    → contains g.sockets u ≡ true
    → contains (run g a).1.sockets u ≡ true
unfolding run
run-held g (makes af type) u ends held = new_socket-held g af type u held
run-held g (binds v name namelen channel) u ends held =
    held-Steady g (bind g v name namelen channel) u (SteadyCall-bind g v name namelen channel) held
run-held g (binds_udp v name channel) u ends held =
    held-Steady g (bind_udp g v name channel) u (SteadyCall-bind_udp g v name channel) held
run-held g (listens_on v backlog) u ends held =
    held-Steady g (listen g v backlog) u (SteadyCall-listen g v backlog) held
run-held g (connects_to v name namelen channel attempt) u ends held =
    held-Steady g (connect g v name namelen channel attempt) u
      (SteadyCall-connect g v name namelen channel attempt) held
run-held g (closes_at v entertime moments now) u ends held =
    close-held g v entertime moments now u ends held

Reached-Ends :
    (g h : United) (u : ℤ) → Named g → Reached g h → facts_of g u ≡ some (u, listening) → Ends h u
unfolding Final
Reached-Ends g h u named reached now = elim (Option-cases (facts_of h u)) [
  | inl gone ↦ elim (subst (Follows u (some (u, listening))) gone from_here) [ ]
  | inr ((j, b), there) ↦
      let (number, moves) = subst (Follows u (some (u, listening))) there from_here in
      elim (Final-cases b (Moves-Final listening b moves tt)) [
        | inl as_before ↦
            inl (there ∙ (ap (λ i. some (i, b)) number ∙ ap (λ c. some (u, c)) as_before))
        | inr at_end ↦ inr (there ∙ (ap (λ i. some (i, b)) number ∙ ap (λ c. some (u, c)) at_end))
      ]
]
  where
    from_here : Follows u (some (u, listening)) (facts_of h u)
    from_here = subst (λ o. Follows u o (facts_of h u)) now (Reached-Kept g h named reached u)

-- In a run of the calls `newSocket`, `bind` (both), `listen`, `connect` and `close`, each made while
-- the number of the next socket is unused, a socket that is LISTENING and in `m_Sockets` at first is
-- in `m_Sockets` at the end, and LISTENING or CLOSED. Every object of the first table has the number
-- of its pointer.
pub Reached-listening :
    (g h : United) (u : ℤ)
    → Named g
    → Reached g h
    → facts_of g u ≡ some (u, listening)
    → contains g.sockets u ≡ true
    → (contains h.sockets u ≡ true) × Ends h u
Reached-listening g h u named (here k) now held = (held, inl now)
Reached-listening g h u named (call k h1 before a unused) now held =
    let (held1, ends1) = Reached-listening g h1 u named before now held in
    (run-held h1 a u ends1 held1, Reached-Ends g h u named (call g h1 before a unused) now)
