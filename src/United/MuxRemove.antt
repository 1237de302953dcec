-- ===== src/United/MuxRemove.antt =====
-- The reference counts of the multiplexers of UDT4/src/api.cpp when the collector removes sockets.
use uvudt.Common.{
  some_injective, ℕ, ◌+◌, ◌-◌, ◌≤◌, Option, none, some, List, [], ◌∷◌, ◌≡◌, refl, sym, ◌∙◌, arith,
  if◌then◌else◌, true, false, ◌==◌, ◌⊎◌, Bool-cases, Option-cases, inl, inr, ap,
}
use uvudt.Common.Int.{ℤ, ◌==ℤ◌, ==ℤ_iff}
use mathlib.Core.Path.{subst}
use uvudt.Epoll.Sets.{contains, erase}
use uvudt.United.Maps.{
  fetch, discard, fetch-assign_key, Distinct, Distinct-assign_key, Distinct-discard, fetch-discard,
  add_member,
}
use uvudt.United.Types.{CudtSocket, Mux, United, closed}
use uvudt.United.Entity.{with_socket, with_udt}
use uvudt.United.Lookup.{find_socket, get_status}
use uvudt.United.Buried.{Buried, Buried-get_status, close_queued-Buried, Buried-delete_socket}
use uvudt.United.Incoming.{close_now, peer_key, members}
use uvudt.United.Collector.{
  close_queued, drop_peer, drop_user, delete_socket, delete_from, remove_socket,
}
use uvudt.United.MuxCount.{Counted, refs}
use uvudt.United.MuxUsers.{one, users-discard}
use uvudt.United.MuxDrop.{
  mux_of, Quiet, Quiet-refl, Quiet-trans, Quiet-with_socket, Quiet-with_udt, Quiet-close_now,
  Quiet-other,
}

refs-drop_user :
    (ms : List (ℤ × Mux)) (i k : ℤ)
    → Distinct ms
    → one (i ==ℤ k) ≤ refs (fetch ms k)
    → refs (fetch (drop_user ms i) k) + one (i ==ℤ k) ≡ refs (fetch ms k)
unfolding drop_user
refs-drop_user ms i k d enough = elim (Option-cases (fetch ms i)) [
  | inl gone ↦
      rw (gone, drop_user)
        (elim (Bool-cases (i ==ℤ k)) [
          | inr other ↦ rw other (omega arith)
          | inl same ↦
              let nothing : refs (fetch ms k) ≡ 0 = rw (sym ((==ℤ_iff i k).0 same), gone) refl in
              let some_user : one (i ==ℤ k) ≡ 1 = rw same refl in
              omega (arith, nothing, some_user, enough)
        ])
  | inr (m, there) ↦ elim (Bool-cases (m.ref_count == 1)) [
    | inl last ↦
        rw (there, last, drop_user)
          (elim (Bool-cases (i ==ℤ k)) [
            | inr other ↦ rw (fetch-discard ms i k d, other) (omega arith)
            | inl same ↦
                let at_k : refs (fetch ms k) ≡ m.ref_count =
                  rw (sym ((==ℤ_iff i k).0 same), there) refl in
                rw (fetch-discard ms i k d, same) (ground (arith, at_k, last))
          ])
    | inr more ↦
        rw (there, more, drop_user)
          (elim (Bool-cases (i ==ℤ k)) [
            | inr other ↦
                rw (fetch-assign_key ms i k (record m { ref_count = m.ref_count - 1 }), other)
                  (omega arith)
            | inl same ↦
                let at_k : refs (fetch ms k) ≡ m.ref_count =
                  rw (sym ((==ℤ_iff i k).0 same), there) refl in
                let some_user : one (i ==ℤ k) ≡ 1 = rw same refl in
                rw (fetch-assign_key ms i k (record m { ref_count = m.ref_count - 1 }), same)
                  (omega (arith, at_k, some_user, enough))
          ])
  ]
]

Ids : List (ℤ × Mux) → Type 0
Ids ms = (k : ℤ) (m : Mux) → fetch ms k ≡ some m → m.id ≡ k

drop_user-Ids :
    (ms : List (ℤ × Mux)) (i : ℤ)
    → Distinct ms
    → Ids ms
    → Ids (drop_user ms i) × Distinct (drop_user ms i)
unfolding drop_user Ids
drop_user-Ids ms i d ids = elim (Option-cases (fetch ms i)) [
  | inl gone ↦ rw (gone, drop_user) (ids, d)
  | inr (m, there) ↦ elim (Bool-cases (m.ref_count == 1)) [
    | inl last ↦
        rw (there, last, drop_user)
          (
            (λ k n found. elim (Bool-cases (i ==ℤ k)) [
              | inr other ↦ ids k n (sym (fetch-discard ms i k d ∙ rw other refl) ∙ found)
              | inl same ↦
                  let nothing : fetch (discard ms i) k ≡ none =
                    fetch-discard ms i k d ∙ rw same refl in
                  cc (nothing, found)
            ]),
            Distinct-discard ms i d,
          )
    | inr more ↦
        rw (there, more, drop_user)
          (
            (λ k n found.
                let changes = fetch-assign_key ms i k (record m { ref_count = m.ref_count - 1 }) in
                elim (Bool-cases (i ==ℤ k)) [
                  | inr other ↦ ids k n (sym (changes ∙ rw other refl) ∙ found)
                  | inl same ↦
                      let is_n : some (record m { ref_count = m.ref_count - 1 }) ≡ some n =
                        sym (changes ∙ rw same refl) ∙ found in
                      let number : (record m { ref_count = m.ref_count - 1 }).id ≡ n.id =
                        ap (λ l. l.id)
                          (some_injective (record m { ref_count = m.ref_count - 1 }) n is_n) in
                      sym number ∙ (ids i m there ∙ (==ℤ_iff i k).0 same)
                ]),
            Distinct-assign_key ms i _ d,
          )
  ]
]

-- One socket less, and its multiplexer told.
Counted-removed :
    (g : United) (u : ℤ) (s : CudtSocket)
    → fetch g.heap u ≡ some s
    → Counted g
    → Counted (record g { heap = discard g.heap u; muxes = drop_user g.muxes s.mux_id })
unfolding Ids
Counted-removed g u s there c =
    let (ids, distinct) = drop_user-Ids g.muxes s.mux_id c.distinct c.ids in
    record {
      counts = λ k named.
          let all = c.counts k named in
          let fewer = users-discard g.heap u k s there in
          let dropped = refs-drop_user g.muxes s.mux_id k c.distinct (omega (arith, all, fewer)) in
          omega (arith, all, fewer, dropped);
      ids = ids;
      distinct = distinct;
    }

delete_socket-Counted :
    (g : United) (s : CudtSocket) (now : ℕ)
    → mux_of (fetch g.heap s.socket_id) ≡ some s.mux_id
    → Counted g
    → Counted (delete_socket g s now)
unfolding delete_socket
delete_socket-Counted g s now there c = elim (Option-cases (fetch h.heap s.socket_id)) [
  | inl gone ↦ let lost : none ≡ some s.mux_id = sym (ap mux_of gone) ∙ keeps_mux in absurd lost
  | inr (w, found) ↦
      let path : some w.mux_id ≡ some s.mux_id = sym (ap mux_of found) ∙ keeps_mux in
      let removed =
        subst
          (λ (i : ℤ).
            Counted (record h { heap = discard h.heap s.socket_id; muxes = drop_user h.muxes i }))
          (cc path) (Counted-removed h s.socket_id w found (quiet.counted c)) in
      (Quiet-other
          (record h { heap = discard h.heap s.socket_id; muxes = drop_user h.muxes s.mux_id })
          (delete_socket g s now) refl refl).counted
        removed
]
  where
    g1 : United
    g1 = record g { peer_rec = drop_peer g.peer_rec (peer_key s.peer_id s.isn) s.socket_id }

    h : United
    h = close_now g1 s.socket_id now

    quiet : Quiet g h
    quiet = Quiet-trans g g1 h (Quiet-other g g1 refl refl) (Quiet-close_now g1 s.socket_id now)

    keeps_mux : mux_of (fetch h.heap s.socket_id) ≡ some s.mux_id
    keeps_mux = quiet.keeps s.socket_id ∙ there

    absurd : none ≡ some s.mux_id → Counted (delete_socket g s now)
    absurd path = let impossible : ⊥ = cc path in elim impossible [ ]

Quiet-close_queued :
    (g h : United) (qs : List ℤ) (now : ℕ) → close_queued g qs now ≡ some h → Quiet g h
unfolding close_queued
Quiet-close_queued g h [] now path = subst (Quiet g) (some_injective g h path) (Quiet-refl g)
Quiet-close_queued g h (q ∷ qs) now path = elim (Option-cases (find_socket g q)) [
  | inl gone ↦
      let crash : close_queued g (q ∷ qs) now ≡ none = rw (gone, close_queued) refl in
      let impossible : ⊥ = cc (crash, path) in elim impossible [ ]
  | inr (s, there) ↦
      let goes_on : close_queued g (q ∷ qs) now ≡ close_queued g3 qs now =
        rw (there, close_queued) refl in
      Quiet-trans g g3 h quiet (Quiet-close_queued g3 h qs now (sym goes_on ∙ path))
]
  where
    g1 : United
    g1 = with_udt g q (λ d. record d { is_broken = true })

    g2 : United
    g2 = close_now g1 q now

    k : United
    k = with_socket g2 q (λ t. record t { time_stamp = now; status = closed })

    g3 : United
    g3 = record k { closed_sockets = add_member k.closed_sockets q; sockets = erase k.sockets q }

    quiet : Quiet g g3
    quiet = Quiet-trans g g1 g3 (Quiet-with_udt g q _) (
        Quiet-trans g1 g2 g3 (Quiet-close_now g1 q now)
          (Quiet-trans g2 k g3 (Quiet-with_socket g2 q _ (λ t. refl)) (Quiet-other k g3 refl refl)))

-- Each of the sockets, but for `u` itself, is among the closed ones, and its status is CLOSED.
abbrev pub AllBuried : United → ℤ → List ℤ → Type 0
AllBuried g u [] = Unit
AllBuried g u (q ∷ qs) = ((q ≡ u) ⊎ (Buried g q × (get_status g q ≡ closed))) × AllBuried g u qs

AllBuried-of :
    (g : United) (u : ℤ) (qs : List ℤ)
    → ((q : ℤ) → contains qs q ≡ true → (q ==ℤ u) ≡ false → Buried g q)
    → AllBuried g u qs
unfolding contains
AllBuried-of g u [] each = tt
AllBuried-of g u (q ∷ qs) each = (
  elim (Bool-cases (q ==ℤ u)) [
    | inl same ↦ inl ((==ℤ_iff q u).0 same)
    | inr other ↦
        let buried = each q (ground arith) other in inr (buried, Buried-get_status g q buried)
  ],
  AllBuried-of g u qs (λ v among other. each v (ground (arith, among)) other),
)

-- A removal of a closed socket that does not follow NULL, of a pointer to the object with its number,
-- leaves reference counts that are the numbers of the sockets of each multiplexer, if they were that
-- before. Each other socket in the queue of the removed one is then among the closed ones, and no
-- more among the open ones, and its status is CLOSED.
pub remove_socket-Counted :
    (g h : United) (u : ℤ) (s : CudtSocket) (now : ℕ)
    → contains g.closed_sockets u ≡ true
    → fetch g.heap u ≡ some s
    → s.socket_id ≡ u
    → Counted g
    → remove_socket g u now ≡ some h
    → Counted h × AllBuried h u (members s.queued)
unfolding remove_socket delete_from
remove_socket-Counted g h u s now held there number c path =
    elim (Option-cases (close_queued g (members s.queued) now)) [
      | inl crash ↦
          let nothing : remove_socket g u now ≡ none = removes ∙ ap deletes crash in
          let impossible : ⊥ = cc (nothing, path) in elim impossible [ ]
      | inr (k, closes) ↦
          let quiet = Quiet-close_queued g k (members s.queued) now closes in
          let kept_mux : mux_of (fetch k.heap s.socket_id) ≡ some s.mux_id =
            quiet.keeps s.socket_id
            ∙ (ap (λ i. mux_of (fetch g.heap i)) number ∙ ap mux_of there) in
          subst (λ l. Counted l × AllBuried l u (members s.queued))
            (some_injective (delete_socket k s now) h (sym (removes ∙ ap deletes closes) ∙ path))
            (
              delete_socket-Counted k s now kept_mux (quiet.counted c),
              AllBuried-of (delete_socket k s now) u (members s.queued) (λ q among other.
                  Buried-delete_socket k s now q (ap (λ i. q ==ℤ i) number ∙ other)
                    (close_queued-Buried g k (members s.queued) now q closes among)),
            )
    ]
  where
    deletes : Option United → Option United
    deletes o = delete_from o s now

    removes : remove_socket g u now ≡ delete_from (close_queued g (members s.queued) now) s now
    removes =
        let found : (if contains g.closed_sockets u then fetch g.heap u else none) ≡ some s =
          rw held there in
        unfold remove_socket in rw (found, remove_socket) refl
