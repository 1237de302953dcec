-- ===== src/United/Heap.antt =====
-- What a change of one socket of UDT4/src/api.cpp leaves of the others.
use uvudt.Common.{
  Option, none, some, ◌≡◌, refl, sym, ◌∙◌, arith, if◌then◌else◌, true, false, Bool-cases,
  Option-cases, inl, inr, ap,
}
use uvudt.Common.Int.{ℤ, pos, ◌-ℤ◌, ◌==ℤ◌, ==ℤ_iff}
use uvudt.United.Maps.{fetch, fetch-assign_key}
use uvudt.United.Types.{CudtSocket, United}
use uvudt.United.Entity.{with_socket}

abbrev pub changed : (CudtSocket → CudtSocket) → Option CudtSocket → Option CudtSocket
changed f none = none
changed f (some s) = some (f s)

pub fetch-with_socket :
    (g : United) (u v : ℤ) (f : CudtSocket → CudtSocket)
    → fetch (with_socket g u f).heap v
      ≡ (if u ==ℤ v then changed f (fetch g.heap v) else fetch g.heap v)
unfolding with_socket
fetch-with_socket g u v f = elim (Option-cases (fetch g.heap u)) [
  | inl gone ↦
      rw (gone, with_socket)
        (elim (Bool-cases (u ==ℤ v)) [
          | inl same ↦ rw (same, sym ((==ℤ_iff u v).0 same), gone) refl
          | inr other ↦ rw other refl
        ])
  | inr (s, there) ↦
      rw (there, with_socket, fetch-assign_key g.heap u v (f s))
        (elim (Bool-cases (u ==ℤ v)) [
          | inl same ↦ rw (same, sym ((==ℤ_iff u v).0 same), there) refl
          | inr other ↦ rw other refl
        ])
]

pub with_socket_self :
    (g : United) (u : ℤ) (f : CudtSocket → CudtSocket) (s : CudtSocket)
    → fetch g.heap u ≡ some s
    → fetch (with_socket g u f).heap u ≡ some (f s)
with_socket_self g u f s there =
    let same : (u ==ℤ u) ≡ true = ground arith in fetch-with_socket g u u f ∙ rw (same, there) refl

pub with_socket_ne :
    (g : United) (u v : ℤ) (f : CudtSocket → CudtSocket)
    → (u ==ℤ v) ≡ false
    → fetch (with_socket g u f).heap v ≡ fetch g.heap v
with_socket_ne g u v f other = fetch-with_socket g u v f ∙ rw other refl

-- The other members of the table.
pub sockets-with_socket :
    (g : United) (u : ℤ) (f : CudtSocket → CudtSocket)
    → ((with_socket g u f).sockets ≡ g.sockets)
      × ((with_socket g u f).closed_sockets ≡ g.closed_sockets)
      × ((with_socket g u f).muxes ≡ g.muxes)
      × ((with_socket g u f).peer_rec ≡ g.peer_rec)
unfolding with_socket
sockets-with_socket g u f = elim (Option-cases (fetch g.heap u)) [
  | inl gone ↦ rw (gone, with_socket) (refl, refl, refl, refl)
  | inr (s, there) ↦ rw (there, with_socket) (refl, refl, refl, refl)
]

seed-with_socket :
    (g : United) (u : ℤ) (f : CudtSocket → CudtSocket)
    → (with_socket g u f).socket_seed ≡ g.socket_seed
unfolding with_socket
seed-with_socket g u f = elim (Option-cases (fetch g.heap u)) [
  | inl gone ↦ rw (gone, with_socket) refl
  | inr (s, there) ↦ rw (there, with_socket) refl
]

-- The number of the next socket is as unused as before.
pub with_socket-unused :
    (g : United) (u : ℤ) (f : CudtSocket → CudtSocket)
    → fetch g.heap (g.socket_seed -ℤ pos 1) ≡ none
    → fetch (with_socket g u f).heap ((with_socket g u f).socket_seed -ℤ pos 1) ≡ none
with_socket-unused g u f unused =
    ap (λ i. fetch (with_socket g u f).heap (i -ℤ pos 1)) (seed-with_socket g u f)
    ∙ (fetch-with_socket g u (g.socket_seed -ℤ pos 1) f
        ∙ elim (Bool-cases (u ==ℤ (g.socket_seed -ℤ pos 1))) [
          | inl same ↦ rw (same, unused) refl
          | inr other ↦ rw other unused
        ])
