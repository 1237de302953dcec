-- ===== src/United/StatusSteps.antt =====
-- Each call of UDT4/src/api.cpp of the application, and the statuses.
use uvudt.Common.{
  ℕ, Option, none, some, ◌≡◌, refl, sym, ◌∙◌, arith, if◌then◌else◌, Bool, true, false, ◌==◌, ==_iff,
  Option-cases, inl, inr, ap,
}
use uvudt.Common.Int.{ℤ, pos}
use mathlib.Core.Path.{subst}
use uvudt.United.Maps.{fetch}
use uvudt.United.Types.{
  CudtSocket, Mux, United, Reply, returns, throws, waits, Status, init, opened, listening,
  connecting, connected, broken, closing, closed, nonexist,
}
use uvudt.United.Entity.{with_udt, open_udt}
use uvudt.United.Muxes.{
  Channel, bound_to, no_channel, update_mux, open_mux, own_mux, share, reusable,
}
use uvudt.United.Lookup.{code, is, locate, find_socket, after, on_socket, set_status}
use uvudt.United.Calls.{open_on}
use uvudt.United.Status.{
  Moves, opens, facts, facts_of, Kept, Named, Still, Kept-refl, Kept-trans, Kept-Still,
  Still-with_socket, Still-with_udt, Kept-set_status, facts-with_socket,
}

decode : ℕ → Status
decode n =
    if n == 1
    then init
    else if n == 2
    then opened
    else if n == 3
    then listening
    else if n == 4
    then connecting
    else if n == 5
    then connected
    else if n == 6
    then broken
    else if n == 7
    then closing
    else if n == 8
    then closed
    else nonexist

decode-code : (a : Status) → decode (code a) ≡ a
unfolding decode
decode-code init = refl
decode-code opened = refl
decode-code listening = refl
decode-code connecting = refl
decode-code connected = refl
decode-code broken = refl
decode-code closing = refl
decode-code closed = refl
decode-code nonexist = refl

pub is-eq : (a b : Status) → is a b ≡ true → a ≡ b
is-eq a b h = sym (decode-code a) ∙ (ap decode ((==_iff (code a) (code b)).0 h) ∙ decode-code b)

pub locate-found :
    (g : United) (u : ℤ) (s : CudtSocket) → locate g u ≡ some s → fetch g.heap u ≡ some s
unfolding locate find_socket
locate-found g u s h = ground arith

-- The socket that a call finds.
pub facts-found :
    (g : United) (u : ℤ) (s : CudtSocket)
    → Named g
    → locate g u ≡ some s
    → (s.socket_id ≡ u) × (facts_of g u ≡ some (u, s.status))
facts-found g u s named h =
    let now : facts_of g u ≡ some (s.socket_id, s.status) = ap facts (locate-found g u s h) in
    let same = named u s.socket_id s.status now in (same, now ∙ ap (λ i. some (i, s.status)) same)

pub Still-trans : (g h k : United) → Still g h → Still h k → Still g k
Still-trans g h k p q v = q v ∙ p v

-- A status that moves.
pub set_status-turns :
    (g : United) (u i : ℤ) (a b : Status)
    → facts_of g u ≡ some (i, a)
    → Moves a b
    → Kept g (set_status g u b) × (facts_of (set_status g u b) u ≡ some (i, b))
unfolding set_status
set_status-turns g u i a b now moves = (
  Kept-set_status g u i a b now moves,
  facts-with_socket g u i a b (λ s. record s { status = b }) now (λ s. refl),
)

pub after-Kept :
    (g : United) (r : Reply ℤ × United) (f : United → Reply ℤ × United)
    → Kept g r.1
    → ((v : ℤ) (h : United) → r ≡ (returns v, h) → Kept h (f h).1)
    → Kept g (after r f).1
unfolding after
after-Kept g (returns v, h) f first more = Kept-trans g h (f h).1 first (more v h refl)
after-Kept g (throws major minor, h) f first more = first
after-Kept g (waits, h) f first more = first

pub on_socket-Kept :
    (g : United) (u : ℤ) (f : CudtSocket → Reply ℤ × United)
    → ((s : CudtSocket) → locate g u ≡ some s → Kept g (f s).1)
    → Kept g (on_socket g u f).1
unfolding on_socket
on_socket-Kept g u f more = elim (Option-cases (locate g u)) [
  | inl gone ↦ rw (gone, on_socket) (Kept-refl g)
  | inr (s, there) ↦ rw (there, on_socket) (more s there)
]

-- A guard that throws.
pub guard-Kept :
    (g : United) (b : Bool) (major minor : ℕ) (r : Reply ℤ × United)
    → (b ≡ false → Kept g r.1)
    → Kept g (if b then (throws major minor, g) else r).1
guard-Kept g true major minor r more = Kept-refl g
guard-Kept g false major minor r more = more refl

Still-open_mux :
    (g : United) (s : CudtSocket) (channel : Channel) → Still g (open_mux g s channel).1
unfolding open_mux own_mux
Still-open_mux g s (bound_to port) v =
    Still-with_socket (record g { muxes = _ }) s.socket_id (λ t. record t { mux_id = s.socket_id })
      (λ t. refl) v
Still-open_mux g s (no_channel major minor) v = refl

pub Still-share : (g : United) (i : ℤ) (m : Mux) (u : ℤ) → Still g (share g i m u)
unfolding share
Still-share g i m u v =
    Still-with_socket (record g { muxes = _ }) u (λ t. record t { mux_id = m.id }) (λ t. refl) v

pub Still-update_mux :
    (g : United) (s : CudtSocket) (asked : Option ℕ) (channel : Channel)
    → Still g (update_mux g s asked channel).1
unfolding update_mux
Still-update_mux g s none channel = Still-open_mux g s channel
Still-update_mux g s (some port) channel =
    elim (Option-cases (if s.udt.reuse_addr then reusable s port g.muxes else none)) [
      | inl new ↦ rw (new, update_mux) (Still-open_mux g s channel)
      | inr ((i, m), old) ↦ rw (old, update_mux) (Still-share g i m s.socket_id)
    ]

-- A call that opens an INIT socket, and what it leaves when it returns.
pub open_on-Kept :
    (g : United) (s : CudtSocket) (i : ℤ) (asked : Option ℕ) (channel : Channel)
    → facts_of g s.socket_id ≡ some (i, init)
    → Kept g (open_on g s asked channel).1
unfolding open_on
open_on-Kept g s i asked channel now =
    after-Kept g r (λ g'. (returns (pos 0), set_status g' s.socket_id opened))
      (Kept-Still g r.1 still)
      (λ v h path.
        Kept-set_status h s.socket_id i init opened
          (subst (λ k. facts_of k s.socket_id ≡ some (i, init)) (ap (λ p. p.1) path)
            (still s.socket_id ∙ now))
          opens)
  where
    g1 : United
    g1 = with_udt g s.socket_id open_udt

    r : Reply ℤ × United
    r = update_mux g1 s asked channel

    still : Still g r.1
    still =
        Still-trans g g1 r.1 (Still-with_udt g s.socket_id open_udt)
          (Still-update_mux g1 s asked channel)
