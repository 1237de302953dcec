-- ===== src/United/View.antt =====
-- What CUDT::close, as UDT4/src/api.cpp calls it, leaves of every socket and of the table.
use uvudt.Common.{
  ℕ, Option, none, some, List, ◌≡◌, refl, ◌∙◌, if◌then◌else◌, Bool-cases, Option-cases, inl, inr,
  ap,
}
use uvudt.Common.Int.{ℤ, ◌==ℤ◌}
use uvudt.United.Maps.{fetch}
use uvudt.United.Types.{CudtSocket, Udt, United}
use uvudt.United.Entity.{with_socket, with_udt}
use uvudt.United.EntityClose.{close_udt, lingered, shut, linger, Linger, over, later, still, Moment}
use uvudt.United.Heap.{fetch-with_socket, sockets-with_socket}

module _ {A : Type 0} (φ : CudtSocket → A) where
  abbrev pub view : Option CudtSocket → Option A
  view none = none
  view (some s) = some (φ s)

  -- No socket differs in `φ`.
  abbrev pub Same : United → United → Type 0
  Same g h = (v : ℤ) → view (fetch h.heap v) ≡ view (fetch g.heap v)

  pub Same-trans : (g h k : United) → Same g h → Same h k → Same g k
  Same-trans g h k p q v = q v ∙ p v

  pub Same-with_socket :
      (g : United) (u : ℤ) (f : CudtSocket → CudtSocket)
      → ((s : CudtSocket) → φ (f s) ≡ φ s)
      → Same g (with_socket g u f)
  Same-with_socket g u f same v =
      ap view (fetch-with_socket g u v f) ∙ elim (Bool-cases (u ==ℤ v)) [
        | inr other ↦ rw other refl
        | inl here ↦ rw here (elim (Option-cases (fetch g.heap v)) [
          | inl gone ↦ rw gone refl
          | inr (s, there) ↦ rw there (ap some (same s))
        ])
      ]

module _ {A : Type 0} (φ : CudtSocket → A)
    (free : (s : CudtSocket) (d : Udt) → φ (record s { udt = d }) ≡ φ s) where
  pub Same-with_udt : (g : United) (u : ℤ) (f : Udt → Udt) → Same φ g (with_udt g u f)
  unfolding with_udt
  Same-with_udt g u f =
      Same-with_socket φ g u (λ s. record s { udt = f s.udt }) (λ s. free s (f s.udt))

  Same-lingered :
      (g : United) (s : CudtSocket) (entertime : ℕ) (l : Linger)
      → Same φ g (lingered g s entertime l).1
  unfolding lingered shut
  Same-lingered g s entertime over v =
      Same-with_udt (record g { muxes = _; epoll = _ }) s.socket_id _ v
  Same-lingered g s entertime later v = Same-with_udt g s.socket_id _ v
  Same-lingered g s entertime still v = refl

  pub Same-close_udt :
      (g : United) (s : CudtSocket) (entertime : ℕ) (moments : List Moment)
      → Same φ g (close_udt g s entertime moments).1
  unfolding close_udt
  Same-close_udt g s entertime moments v = elim (Bool-cases s.udt.is_open) [
    | inr shut_already ↦ rw (shut_already, close_udt) refl
    | inl ready ↦
        rw (ready, close_udt)
          (Same-lingered g s entertime
            (if s.udt.linger_on then linger s.udt entertime moments else over) v)
  ]

-- The sets of the table.
abbrev pub SameSets : United → United → Type 0
SameSets g h = (h.sockets ≡ g.sockets) × (h.closed_sockets ≡ g.closed_sockets)

SameSets-lingered :
    (g : United) (s : CudtSocket) (entertime : ℕ) (l : Linger)
    → SameSets g (lingered g s entertime l).1
unfolding lingered shut with_udt
SameSets-lingered g s entertime over =
    let kept = sockets-with_socket (record g { muxes = _; epoll = _ }) s.socket_id _ in
    (kept.0, kept.1)
SameSets-lingered g s entertime later =
    let kept = sockets-with_socket g s.socket_id _ in (kept.0, kept.1)
SameSets-lingered g s entertime still = (refl, refl)

pub SameSets-close_udt :
    (g : United) (s : CudtSocket) (entertime : ℕ) (moments : List Moment)
    → SameSets g (close_udt g s entertime moments).1
unfolding close_udt
SameSets-close_udt g s entertime moments = elim (Bool-cases s.udt.is_open) [
  | inr shut_already ↦ rw (shut_already, close_udt) (refl, refl)
  | inl ready ↦
      rw (ready, close_udt)
        (SameSets-lingered g s entertime
          (if s.udt.linger_on then linger s.udt entertime moments else over))
]
