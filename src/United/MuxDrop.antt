-- ===== src/United/MuxDrop.antt =====
-- The reference counts of the multiplexers of UDT4/src/api.cpp when sockets are closed and removed.
use uvudt.Common.{
  ℕ, Option, none, some, List, [], ◌∷◌, ◌≡◌, refl, sym, ◌∙◌, if◌then◌else◌, Bool-cases,
  Option-cases, inl, inr, ap,
}
use uvudt.Common.Int.{ℤ, ◌==ℤ◌, ==ℤ_iff}
use mathlib.Core.Path.{subst}
use uvudt.United.Maps.{fetch, assign_key, fetch-assign_key, Distinct, Distinct-assign_key}
use uvudt.United.Types.{CudtSocket, Udt, Mux, United}
use uvudt.United.Entity.{with_socket, with_udt}
use uvudt.United.EntityClose.{
  close_udt, lingered, shut, without_listener, linger, Linger, over, later, still, Moment,
}
use uvudt.United.Entity.{remove_listener}
use uvudt.United.Incoming.{close_now, look}
use uvudt.United.Heap.{fetch-with_socket}
use uvudt.United.MuxCount.{Counted, refs, Counted-with_socket}
use uvudt.United.MuxUsers.{users}

abbrev pub mux_of : Option CudtSocket → Option ℤ
mux_of none = none
mux_of (some s) = some s.mux_id

-- The counts stay right, and each socket keeps its multiplexer.
pub record Quiet (g h : United) : Type 0 where
  pub counted : Counted g → Counted h
  pub keeps : (v : ℤ) → mux_of (fetch h.heap v) ≡ mux_of (fetch g.heap v)

pub Quiet-refl : (g : United) → Quiet g g
Quiet-refl g = record { counted = λ c. c; keeps = λ v. refl }

pub Quiet-trans : (g h k : United) → Quiet g h → Quiet h k → Quiet g k
Quiet-trans g h k p q = record {
  counted = λ c. q.counted (p.counted c);
  keeps = λ v. q.keeps v ∙ p.keeps v;
}

pub Quiet-with_socket :
    (g : United) (u : ℤ) (f : CudtSocket → CudtSocket)
    → ((s : CudtSocket) → (f s).mux_id ≡ s.mux_id)
    → Quiet g (with_socket g u f)
Quiet-with_socket g u f same = record {
  counted = λ c. Counted-with_socket g u f same c;
  keeps = λ v. ap mux_of (fetch-with_socket g u v f) ∙ elim (Bool-cases (u ==ℤ v)) [
    | inr other ↦ rw other refl
    | inl here ↦ rw here (elim (Option-cases (fetch g.heap v)) [
      | inl gone ↦ rw gone refl
      | inr (s, there) ↦ rw there (ap some (same s))
    ])
  ];
}

pub Quiet-with_udt : (g : United) (u : ℤ) (f : Udt → Udt) → Quiet g (with_udt g u f)
unfolding with_udt
Quiet-with_udt g u f = Quiet-with_socket g u (λ s. record s { udt = f s.udt }) (λ s. refl)

-- A multiplexer is replaced by one with the same count and number.
Counted-replace :
    (g : United) (i : ℤ) (m n : Mux)
    → fetch g.muxes i ≡ some m
    → n.ref_count ≡ m.ref_count
    → n.id ≡ m.id
    → Counted g
    → Counted (record g { muxes = assign_key g.muxes i n })
Counted-replace g i m n there same_count same_id c = record {
  counts = λ k named. ap refs (fetch-assign_key g.muxes i k n) ∙ elim (Bool-cases (i ==ℤ k)) [
    | inr other ↦ rw other (c.counts k named)
    | inl same ↦
        let at_k : refs (fetch g.muxes k) ≡ m.ref_count =
          rw (sym ((==ℤ_iff i k).0 same), there) refl in
        rw same (same_count ∙ (sym at_k ∙ c.counts k named))
  ];
  ids = λ k l found. elim (Bool-cases (i ==ℤ k)) [
    | inr other ↦ c.ids k l (sym (fetch-assign_key g.muxes i k n ∙ rw other refl) ∙ found)
    | inl same ↦
        let is_n : some n ≡ some l = sym (fetch-assign_key g.muxes i k n ∙ rw same refl) ∙ found in
        let number = c.ids i m there in cc (is_n, same_id, number, (==ℤ_iff i k).0 same)
  ];
  distinct = Distinct-assign_key g.muxes i n c.distinct;
}

remove_listener_same :
    (m : Mux) (u : ℤ)
    → ((remove_listener m u).ref_count ≡ m.ref_count) × ((remove_listener m u).id ≡ m.id)
unfolding remove_listener
remove_listener_same m u = elim (Option-cases m.listener) [
  | inl none_there ↦ rw (none_there, remove_listener) (refl, refl)
  | inr (v, there) ↦ elim (Bool-cases (v ==ℤ u)) [
    | inl same ↦ rw (there, same, remove_listener) (refl, refl)
    | inr other ↦ rw (there, other, remove_listener) (refl, refl)
  ]
]

Counted-without_listener :
    (g : United) (s : CudtSocket) → Counted g → Counted (record g { muxes = without_listener g s })
unfolding without_listener
Counted-without_listener g s c = elim (Option-cases (fetch g.muxes s.mux_id)) [
  | inl gone ↦ rw (gone, without_listener) c
  | inr (m, there) ↦ elim (Bool-cases s.udt.is_listening) [
    | inr other ↦ rw (there, other, without_listener) c
    | inl listens ↦
        rw (there, listens, without_listener)
          (let (same_count, same_id) = remove_listener_same m s.socket_id in
            Counted-replace g s.mux_id m (remove_listener m s.socket_id) there same_count same_id c)
  ]
]

Quiet-shut : (g : United) (s : CudtSocket) → Quiet g (shut g s)
unfolding shut
Quiet-shut g s =
    Quiet-trans g (record g { muxes = without_listener g s; epoll = _ }) (shut g s)
      (record {
        counted = λ c.
            let d = Counted-without_listener g s c in
            record { counts = d.counts; ids = d.ids; distinct = d.distinct };
        keeps = λ v. refl;
      })
      (Quiet-with_udt (record g { muxes = without_listener g s; epoll = _ }) s.socket_id _)

Quiet-lingered :
    (g : United) (s : CudtSocket) (entertime : ℕ) (l : Linger)
    → Quiet g (lingered g s entertime l).1
unfolding lingered
Quiet-lingered g s entertime over = Quiet-shut g s
Quiet-lingered g s entertime later = Quiet-with_udt g s.socket_id _
Quiet-lingered g s entertime still = Quiet-refl g

pub Quiet-close_udt :
    (g : United) (s : CudtSocket) (entertime : ℕ) (moments : List Moment)
    → Quiet g (close_udt g s entertime moments).1
unfolding close_udt
Quiet-close_udt g s entertime moments = elim (Bool-cases s.udt.is_open) [
  | inr shut_already ↦ rw (shut_already, close_udt) (Quiet-refl g)
  | inl ready ↦
      rw (ready, close_udt)
        (Quiet-lingered g s entertime
          (if s.udt.linger_on then linger s.udt entertime moments else over))
]

pub Quiet-close_now : (g : United) (u : ℤ) (now : ℕ) → Quiet g (close_now g u now)
unfolding close_now
Quiet-close_now g u now = elim (Option-cases (fetch g.heap u)) [
  | inl gone ↦ rw (gone, close_now) (Quiet-refl g)
  | inr (s, there) ↦ rw (there, close_now) (Quiet-close_udt g s now (look s now ∷ []))
]

-- The members that the counts do not speak of.
pub Quiet-other : (g h : United) → h.heap ≡ g.heap → h.muxes ≡ g.muxes → Quiet g h
Quiet-other g h same_heap same_muxes = record {
  counted = λ c. record {
    counts = λ k named.
        ap (λ ms. refs (fetch ms k)) same_muxes
        ∙ (c.counts k named ∙ ap (λ l. users l k) (sym same_heap));
    ids = λ k m found. c.ids k m (sym (ap (λ ms. fetch ms k) same_muxes) ∙ found);
    distinct = subst Distinct (sym same_muxes) c.distinct;
  };
  keeps = λ v. ap (λ l. mux_of (fetch l v)) same_heap;
}
