-- ===== src/United/Buried.antt =====
-- What the collector of UDT4/src/api.cpp makes of the sockets in the queue of a listener it removes.
use uvudt.Common.{
  some_injective, ℕ, none, some, List, [], ◌∷◌, ◌≡◌, refl, sym, ◌∙◌, arith, true, false, Bool-cases,
  Option-cases, inl, inr, ap,
}
use uvudt.Common.Int.{ℤ, ◌==ℤ◌, ==ℤ_iff}
use mathlib.Core.Path.{subst}
use uvudt.Epoll.Sets.{contains, erase, contains-erase}
use uvudt.United.Maps.{fetch, add_member, contains-add_member}
use uvudt.United.Types.{CudtSocket, United, closed}
use uvudt.United.Entity.{with_socket, with_udt}
use uvudt.United.Lookup.{find_socket, get_status}
use uvudt.United.Incoming.{close_now, peer_key}
use uvudt.United.Heap.{sockets-with_socket}
use uvudt.United.View.{SameSets, SameSets-close_udt}
use uvudt.United.Collector.{close_queued, drop_peer, delete_socket}

-- The number is among the closed sockets, and no more among the others.
abbrev pub Buried : United → ℤ → Type 0
Buried g v = (contains g.sockets v ≡ false) × (contains g.closed_sockets v ≡ true)

pub Buried-get_status : (g : United) (v : ℤ) → Buried g v → get_status g v ≡ closed
unfolding get_status find_socket
Buried-get_status g v (out, among) = rw (out, find_socket, get_status, among) refl

SameSets-close_now : (g : United) (u : ℤ) (now : ℕ) → SameSets g (close_now g u now)
unfolding close_now
SameSets-close_now g u now = elim (Option-cases (fetch g.heap u)) [
  | inl gone ↦ rw (gone, close_now) (refl, refl)
  | inr (s, there) ↦ rw (there, close_now) (SameSets-close_udt g s now _)
]

Buried-SameSets : (g h : United) (v : ℤ) → SameSets g h → Buried g v → Buried h v
Buried-SameSets g h v (sockets, others) (out, among) =
    (ap (λ xs. contains xs v) sockets ∙ out, ap (λ xs. contains xs v) others ∙ among)

-- One socket more that is closed.
bury_one : United → ℤ → United
bury_one g q = record g {
  closed_sockets = add_member g.closed_sockets q;
  sockets = erase g.sockets q;
}

Buried-bury_one : (g : United) (q v : ℤ) → Buried g v → Buried (bury_one g q) v
unfolding bury_one
Buried-bury_one g q v (out, among) = (
  contains-erase g.sockets q v ∙ ground (arith, out),
  contains-add_member g.closed_sockets q v ∙ ground (arith, among),
)

bury_one-Buried : (g : United) (q : ℤ) → Buried (bury_one g q) q
unfolding bury_one
bury_one-Buried g q = (
  contains-erase g.sockets q q ∙ ground arith,
  contains-add_member g.closed_sockets q q ∙ ground arith,
)

-- The table once the first socket of the queue is closed.
first_closed : United → ℤ → ℕ → United
first_closed g q now =
    with_socket (close_now (with_udt g q (λ d. record d { is_broken = true })) q now) q
      (λ t. record t { time_stamp = now; status = closed })

SameSets-first_closed : (g : United) (q : ℤ) (now : ℕ) → SameSets g (first_closed g q now)
unfolding first_closed with_udt
SameSets-first_closed g q now =
    let broken = with_udt g q (λ d. record d { is_broken = true }) in
    let shut = close_now broken q now in
    let a = sockets-with_socket g q (λ s. record s { udt = record s.udt { is_broken = true } }) in
    let b = SameSets-close_now broken q now in
    let c = sockets-with_socket shut q (λ t. record t { time_stamp = now; status = closed }) in
    (c.0 ∙ (b.0 ∙ a.0), c.1 ∙ (b.1 ∙ a.1))

close_queued_step :
    (g h : United) (q : ℤ) (qs : List ℤ) (now : ℕ)
    → close_queued g (q ∷ qs) now ≡ some h
    → close_queued (bury_one (first_closed g q now) q) qs now ≡ some h
unfolding close_queued bury_one first_closed
close_queued_step g h q qs now path = elim (Option-cases (find_socket g q)) [
  | inl gone ↦
      let crash : close_queued g (q ∷ qs) now ≡ none = rw (gone, close_queued) refl in
      let impossible : ⊥ = cc (crash, path) in elim impossible [ ]
  | inr (s, there) ↦
      let goes_on : close_queued g (q ∷ qs) now
          ≡ close_queued (bury_one (first_closed g q now) q) qs now =
        rw (there, close_queued) refl in
      sym goes_on ∙ path
]

-- What is closed stays so.
Buried-close_queued :
    (g h : United) (qs : List ℤ) (now : ℕ) (v : ℤ)
    → close_queued g qs now ≡ some h
    → Buried g v
    → Buried h v
unfolding close_queued
Buried-close_queued g h [] now v path buried =
    subst (λ k. Buried k v) (some_injective g h path) buried
Buried-close_queued g h (q ∷ qs) now v path buried =
    let k = first_closed g q now in
    Buried-close_queued (bury_one k q) h qs now v (close_queued_step g h q qs now path)
      (Buried-bury_one k q v (Buried-SameSets g k v (SameSets-first_closed g q now) buried))

pub close_queued-Buried :
    (g h : United) (qs : List ℤ) (now : ℕ) (v : ℤ)
    → close_queued g qs now ≡ some h
    → contains qs v ≡ true
    → Buried h v
unfolding contains
close_queued-Buried g h [] now v path among = let impossible : ⊥ = cc among in elim impossible [ ]
close_queued-Buried g h (q ∷ qs) now v path among =
    let k = bury_one (first_closed g q now) q in
    let rest = close_queued_step g h q qs now path in
    elim (Bool-cases (v ==ℤ q)) [
      | inl same ↦
          Buried-close_queued k h qs now v rest (
            subst (Buried k) (sym ((==ℤ_iff v q).0 same))
              (bury_one-Buried (first_closed g q now) q))
      | inr other ↦ close_queued-Buried k h qs now v rest (ground (arith, among, other))
    ]

-- The removal of another socket.
pub Buried-delete_socket :
    (g : United) (s : CudtSocket) (now : ℕ) (v : ℤ)
    → (v ==ℤ s.socket_id) ≡ false
    → Buried g v
    → Buried (delete_socket g s now) v
unfolding delete_socket
Buried-delete_socket g s now v other buried =
    let g1 : United = record g {
      peer_rec = drop_peer g.peer_rec (peer_key s.peer_id s.isn) s.socket_id;
    } in
    let h = close_now g1 s.socket_id now in
    let (out, among) =
      Buried-SameSets g1 h v (SameSets-close_now g1 s.socket_id now) (buried.0, buried.1) in
    (out, contains-erase h.closed_sockets s.socket_id v ∙ rw other among)
