-- ===== src/United/Steady.antt =====
-- The calls of UDT4/src/api.cpp that leave `m_Sockets` as it is.
use uvudt.Common.{
  ℕ, Option, none, some, ◌≡◌, refl, ◌∙◌, if◌then◌else◌, Bool, true, false, not, ◌&&◌, ◌||◌, ◌==◌,
  Bool-cases, Option-cases, inl, inr, ap,
}
use uvudt.Common.Int.{ℤ, pos, leb_ℤ}
use uvudt.Epoll.Sets.{contains}
use uvudt.United.Maps.{fetch, assign_key}
use uvudt.United.Types.{
  CudtSocket, SockAddr, Mux, Udt, United, Reply, returns, throws, waits, init, opened, listening,
  connecting,
}
use uvudt.United.Entity.{with_socket, with_udt, listen_udt, set_listener, connect_udt, Attempt}
use uvudt.United.Muxes.{
  Channel, bound_to, no_channel, update_mux, open_mux, own_mux, share, reusable,
}
use uvudt.United.Lookup.{is, locate, after, on_socket, set_status, copy_self_addr, addr_size}
use uvudt.United.Calls.{open_on, bind, bind_udp, listen}
use uvudt.United.Connecting.{make_open, record_peer, responded, attempted, try_connect, connect}
use uvudt.United.Heap.{sockets-with_socket}

-- `m_Sockets` is as it was.
abbrev pub Steady : United → United → Type 0
Steady g h = h.sockets ≡ g.sockets

-- It is so whatever the call returns.
pub SteadyCall : United → Reply ℤ × United → Type 0
SteadyCall g r = Steady g r.1

pub Steady-with_socket :
    (g : United) (u : ℤ) (f : CudtSocket → CudtSocket) → Steady g (with_socket g u f)
Steady-with_socket g u f = (sockets-with_socket g u f).0

Steady-with_udt : (g : United) (u : ℤ) (f : Udt → Udt) → Steady g (with_udt g u f)
unfolding with_udt
Steady-with_udt g u f = Steady-with_socket g u (λ s. record s { udt = f s.udt })

SteadyCall-after :
    (g : United) (r : Reply ℤ × United) (f : United → Reply ℤ × United)
    → SteadyCall g r
    → ((h : United) → SteadyCall h (f h))
    → SteadyCall g (after r f)
unfolding after SteadyCall
SteadyCall-after g (returns v, h) f first more = more h ∙ first
SteadyCall-after g (throws major minor, h) f first more = first
SteadyCall-after g (waits, h) f first more = first

SteadyCall-on_socket :
    (g : United) (u : ℤ) (f : CudtSocket → Reply ℤ × United)
    → ((s : CudtSocket) → SteadyCall g (f s))
    → SteadyCall g (on_socket g u f)
unfolding on_socket SteadyCall
SteadyCall-on_socket g u f more = elim (Option-cases (locate g u)) [
  | inl gone ↦ rw (gone, on_socket) refl
  | inr (s, there) ↦ rw (there, on_socket) (more s)
]

-- Both ways of a test.
SteadyCall-unchanged : (g : United) (r : Reply ℤ) → SteadyCall g (r, g)
unfolding SteadyCall
SteadyCall-unchanged g r = refl

SteadyCall-then : (g h : United) (r : Reply ℤ) → Steady g h → SteadyCall g (r, h)
unfolding SteadyCall
SteadyCall-then g h r same = same

SteadyCall-from :
    (g h : United) (r : Reply ℤ × United) → Steady g h → SteadyCall h r → SteadyCall g r
unfolding SteadyCall
SteadyCall-from g h r first more = more ∙ first

SteadyCall-if :
    (g : United) (b : Bool) (r q : Reply ℤ × United)
    → SteadyCall g r
    → SteadyCall g q
    → SteadyCall g (if b then r else q)
SteadyCall-if g true r q first second = first
SteadyCall-if g false r q first second = second

SteadyCall-update_mux :
    (g : United) (s : CudtSocket) (asked : Option ℕ) (channel : Channel)
    → SteadyCall g (update_mux g s asked channel)
unfolding update_mux open_mux own_mux share SteadyCall
SteadyCall-update_mux g s none (bound_to port) = Steady-with_socket (record g { muxes = _ }) _ _
SteadyCall-update_mux g s none (no_channel major minor) = refl
SteadyCall-update_mux g s (some p) channel =
    elim (Option-cases (if s.udt.reuse_addr then reusable s p g.muxes else none)) [
      | inl new ↦ rw (new, update_mux) (own channel)
      | inr ((i, m), old) ↦
          rw (old, update_mux) (Steady-with_socket (record g { muxes = _ }) s.socket_id _)
    ]
  where
    own : (c : Channel) → SteadyCall g (open_mux g s c)
    own (bound_to port) =
        unfold open_mux in
        unfold own_mux in Steady-with_socket (record g { muxes = _ }) s.socket_id _
    own (no_channel major minor) = unfold open_mux in refl

SteadyCall-open_on :
    (g : United) (s : CudtSocket) (asked : Option ℕ) (channel : Channel)
    → SteadyCall g (open_on g s asked channel)
unfolding open_on set_status
SteadyCall-open_on g s asked channel =
    SteadyCall-after g _ _
      (SteadyCall-from g _ _ (Steady-with_udt g s.socket_id _)
        (SteadyCall-update_mux (with_udt g s.socket_id _) s asked channel))
      (λ h. SteadyCall-then h _ _ (Steady-with_socket h s.socket_id _))

pub SteadyCall-bind :
    (g : United) (u : ℤ) (name : SockAddr) (namelen : ℕ) (channel : Channel)
    → SteadyCall g (bind g u name namelen channel)
unfolding bind copy_self_addr
SteadyCall-bind g u name namelen channel = SteadyCall-on_socket g u _ (λ s.
    SteadyCall-if g (not (is s.status init)) _ _ (SteadyCall-unchanged g _) (
      SteadyCall-if g (not (namelen == addr_size s.ip_version)) _ _ (SteadyCall-unchanged g _) (
        SteadyCall-after g _ _ (SteadyCall-open_on g s (some name.port) channel)
          (λ h. SteadyCall-then h _ _ (Steady-with_socket h u _)))))

pub SteadyCall-bind_udp :
    (g : United) (u : ℤ) (name : Option SockAddr) (channel : Channel)
    → SteadyCall g (bind_udp g u name channel)
unfolding bind_udp copy_self_addr
SteadyCall-bind_udp g u none channel = SteadyCall-on_socket g u _ (λ s.
    SteadyCall-if g (not (is s.status init)) _ _ (SteadyCall-unchanged g _)
      (SteadyCall-unchanged g _))
SteadyCall-bind_udp g u (some a) channel = SteadyCall-on_socket g u _ (λ s.
    SteadyCall-if g (not (is s.status init)) _ _ (SteadyCall-unchanged g _) (
      SteadyCall-after g _ _ (SteadyCall-open_on g s (some a.port) channel)
        (λ h. SteadyCall-then h _ _ (Steady-with_socket h u _))))

SteadyCall-listen_udt : (g : United) (s : CudtSocket) → SteadyCall g (listen_udt g s)
unfolding listen_udt
SteadyCall-listen_udt g s = SteadyCall-if g (not s.udt.is_open) _ _ (SteadyCall-unchanged g _) (
    SteadyCall-if g (s.udt.is_connecting || s.udt.is_connected) _ _ (SteadyCall-unchanged g _) (
      SteadyCall-if g s.udt.is_listening _ _ (SteadyCall-unchanged g _)
        (entered (fetch g.muxes s.mux_id))))
  where
    entered :
        (o : Option Mux)
        → SteadyCall g (elim o as (λ p. Reply ℤ × United) [
          | none ↦ (throws 5 11, g)
          | some m ↦ elim (set_listener m s.socket_id) [
            | none ↦ (throws 5 11, g)
            | some m' ↦ (
              returns (pos 0),
              with_udt
                  (record g { muxes = assign_key g.muxes s.mux_id m' })
                  s.socket_id
                  (λ d. record d { is_listening = true }),
            )
          ]
        ])
    entered none = unfold SteadyCall in refl
    entered (some m) =
        unfold SteadyCall in
        elim (Option-cases (set_listener m s.socket_id)) [
          | inl taken ↦ rw taken refl
          | inr (m', new) ↦ rw new (Steady-with_udt (record g { muxes = _ }) s.socket_id _)
        ]

pub SteadyCall-listen : (g : United) (u backlog : ℤ) → SteadyCall g (listen g u backlog)
unfolding listen set_status
SteadyCall-listen g u backlog = SteadyCall-on_socket g u _ (λ s.
    SteadyCall-if g (is s.status listening) _ _ (SteadyCall-unchanged g _) (
      SteadyCall-if g (not (is s.status opened)) _ _ (SteadyCall-unchanged g _) (
        SteadyCall-if g s.udt.rendezvous _ _ (SteadyCall-unchanged g _) (
          SteadyCall-if g (leb_ℤ backlog (pos 0)) _ _ (SteadyCall-unchanged g _) (
            SteadyCall-after g _ _
              (SteadyCall-from g _ _ (Steady-with_socket g u _)
                (SteadyCall-listen_udt (with_socket g u _) s))
              (λ h. SteadyCall-then h _ _ (Steady-with_socket h u _)))))))

Steady-responded : (g : United) (s : CudtSocket) (d : Udt) → Steady g (responded g s d)
unfolding responded set_status copy_self_addr
Steady-responded g s d = elim (Bool-cases (d.is_connected && not s.udt.is_connected)) [
  | inl now ↦
      rw (now, responded)
        (Steady-with_socket _ s.socket_id _ ∙ (Steady-with_socket _ s.socket_id _ ∙ first))
  | inr not_now ↦ rw (not_now, responded) first
]
  where
    first : Steady g (set_status (with_udt g s.socket_id (λ old. d)) s.socket_id connecting)
    first =
        unfold set_status in
        Steady-with_socket (with_udt g s.socket_id (λ old. d)) s.socket_id _
        ∙ Steady-with_udt g s.socket_id (λ old. d)

SteadyCall-attempted :
    (g : United) (s : CudtSocket) (r : Reply ℤ × Udt) → SteadyCall g (attempted g s r)
unfolding attempted set_status SteadyCall
SteadyCall-attempted g s (returns v, d) = Steady-responded g s d
SteadyCall-attempted g s (throws major minor, d) =
    Steady-with_socket (responded g s d) s.socket_id _ ∙ Steady-responded g s d
SteadyCall-attempted g s (waits, d) = Steady-responded g s d

SteadyCall-try_connect :
    (g : United) (u : ℤ) (attempt : Attempt) → SteadyCall g (try_connect g u attempt)
unfolding try_connect SteadyCall
SteadyCall-try_connect g u attempt = elim (Option-cases (fetch g.heap u)) [
  | inl gone ↦ rw (gone, try_connect) refl
  | inr (s, there) ↦ rw (there, try_connect) (SteadyCall-attempted g s (connect_udt s.udt attempt))
]

SteadyCall-make_open :
    (g : United) (s : CudtSocket) (channel : Channel) → SteadyCall g (make_open g s channel)
unfolding make_open
SteadyCall-make_open g s channel =
    SteadyCall-if g (is s.status init) _ _
      (SteadyCall-if g s.udt.rendezvous _ _ (SteadyCall-unchanged g _)
        (SteadyCall-open_on g s none channel))
      (SteadyCall-if g (is s.status opened) _ _ (SteadyCall-unchanged g _)
        (SteadyCall-unchanged g _))

pub SteadyCall-connect :
    (g : United) (u : ℤ) (name : SockAddr) (namelen : ℕ) (channel : Channel) (attempt : Attempt)
    → SteadyCall g (connect g u name namelen channel attempt)
unfolding connect record_peer
SteadyCall-connect g u name namelen channel attempt = SteadyCall-on_socket g u _ (λ s.
    SteadyCall-if g (not (namelen == addr_size s.ip_version)) _ _ (SteadyCall-unchanged g _) (
      SteadyCall-after g _ _ (SteadyCall-make_open g s channel) (λ h.
        SteadyCall-after h _ _ (SteadyCall-try_connect h u attempt)
          (λ k. SteadyCall-then k _ _ (Steady-with_socket k u _)))))

pub held-Steady :
    (g : United) (r : Reply ℤ × United) (u : ℤ)
    → SteadyCall g r
    → contains g.sockets u ≡ true
    → contains r.1.sockets u ≡ true
unfolding SteadyCall
held-Steady g r u same held = ap (λ xs. contains xs u) same ∙ held
