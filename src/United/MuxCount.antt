-- ===== src/United/MuxCount.antt =====
-- The reference counts of the multiplexers of UDT4/src/api.cpp, and the sockets that use them.
use uvudt.Common.{
  ℕ, ◌+◌, Option, none, some, List, [], ◌∷◌, ◌≡◌, refl, sym, ◌∙◌, arith, if◌then◌else◌, ◌&&◌, true,
  false, ◌==◌, Bool-cases, Option-cases, inl, inr, ap,
}
use uvudt.Common.Int.{ℤ, minus_one, ◌==ℤ◌, ==ℤ_iff}
use mathlib.Core.Path.{subst}
use uvudt.United.Maps.{fetch, assign_key, fetch-assign_key, Distinct, Distinct-assign_key}
use uvudt.United.Types.{CudtSocket, Mux, United}
use uvudt.United.Entity.{with_socket}
use uvudt.United.Heap.{sockets-with_socket}
use uvudt.United.Muxes.{
  Channel, bound_to, no_channel, update_mux, open_mux, own_mux, share, reusable,
}
use uvudt.United.MuxUsers.{one, users, users-with_socket, users-with_socket_same}

-- The count of a multiplexer that may be there.
abbrev pub refs : Option Mux → ℕ
refs none = 0
refs (some m) = m.ref_count

-- Every multiplexer counts its sockets, and a socket that has the number of one has the multiplexer.
pub record Counted (g : United) : Type 0 where
  pub counts : (k : ℤ) → (k ==ℤ minus_one) ≡ false → refs (fetch g.muxes k) ≡ users g.heap k
  pub ids : (k : ℤ) (m : Mux) → fetch g.muxes k ≡ some m → m.id ≡ k
  pub distinct : Distinct g.muxes

-- A change of a socket that leaves its multiplexer.
pub Counted-with_socket :
    (g : United) (u : ℤ) (f : CudtSocket → CudtSocket)
    → ((s : CudtSocket) → (f s).mux_id ≡ s.mux_id)
    → Counted g
    → Counted (with_socket g u f)
Counted-with_socket g u f same h =
    let muxes = (sockets-with_socket g u f).2 in
    record {
      counts = λ k named.
          ap (λ ms. refs (fetch ms k)) muxes
          ∙ (h.counts k named ∙ sym (users-with_socket_same g u k f same));
      ids = λ k m there. h.ids k m (sym (ap (λ ms. fetch ms k) muxes) ∙ there);
      distinct = subst Distinct (sym muxes) h.distinct;
    }

-- A socket without a multiplexer joins a multiplexer.
join : United → ℤ → Mux → ℤ → United
join g i m u =
    with_socket (record g { muxes = assign_key g.muxes i m }) u (λ t. record t { mux_id = m.id })

muxes-join : (g : United) (i u : ℤ) (m : Mux) → (join g i m u).muxes ≡ assign_key g.muxes i m
unfolding join
muxes-join g i u m =
    (sockets-with_socket (record g { muxes = assign_key g.muxes i m }) u
      (λ t. record t { mux_id = m.id })).2

fetch-join :
    (g : United) (i k u : ℤ) (m : Mux)
    → fetch (join g i m u).muxes k ≡ (if i ==ℤ k then some m else fetch g.muxes k)
fetch-join g i k u m = ap (λ ms. fetch ms k) (muxes-join g i u m) ∙ fetch-assign_key g.muxes i k m

users-join :
    (g : United) (i k u : ℤ) (m : Mux) (s : CudtSocket)
    → fetch g.heap u ≡ some s
    → s.mux_id ≡ minus_one
    → m.id ≡ i
    → (k ==ℤ minus_one) ≡ false
    → users (join g i m u).heap k ≡ users g.heap k + one (i ==ℤ k)
unfolding join
users-join g i k u m s at alone number named =
    let moved =
      users-with_socket (record g { muxes = assign_key g.muxes i m }) u k
        (λ t. record t { mux_id = m.id }) s at in
    let from_none : one (s.mux_id ==ℤ k) ≡ 0 = rw alone (ground arith) in
    let to_i : one (m.id ==ℤ k) ≡ one (i ==ℤ k) = ap (λ j. one (j ==ℤ k)) number in
    omega (arith, moved, from_none, to_i)

join-Counted :
    (g : United) (i u : ℤ) (m : Mux) (s : CudtSocket)
    → Counted g
    → fetch g.heap u ≡ some s
    → s.mux_id ≡ minus_one
    → m.ref_count ≡ refs (fetch g.muxes i) + 1
    → m.id ≡ i
    → Counted (join g i m u)
join-Counted g i u m s h at alone one_more number = record {
  counts = λ k named.
      rw (fetch-join g i k u m, users-join g i k u m s at alone number named)
        (elim (Bool-cases (i ==ℤ k)) [
          | inl same ↦ rw same (
              one_more
              ∙ ap (λ n. n + 1)
                  (ap (λ j. refs (fetch g.muxes j)) ((==ℤ_iff i k).0 same) ∙ h.counts k named))
          | inr other ↦ rw other (h.counts k named ∙ omega arith)
        ]);
  ids = λ k n found. elim (Bool-cases (i ==ℤ k)) [
    | inl same ↦
        let is_m : some m ≡ some n = sym (fetch-join g i k u m ∙ rw same refl) ∙ found in
        cc (is_m, number, (==ℤ_iff i k).0 same)
    | inr other ↦ h.ids k n (sym (fetch-join g i k u m ∙ rw other refl) ∙ found)
  ];
  distinct = subst Distinct (sym (muxes-join g i u m)) (Distinct-assign_key g.muxes i m h.distinct);
}

share-Counted :
    (g : United) (i u : ℤ) (m : Mux) (s : CudtSocket)
    → Counted g
    → fetch g.muxes i ≡ some m
    → fetch g.heap u ≡ some s
    → s.mux_id ≡ minus_one
    → Counted (share g i m u)
unfolding share join
share-Counted g i u m s h there at alone =
    join-Counted g i u (record m { ref_count = m.ref_count + 1 }) s h at alone (rw there refl)
      (h.ids i m there)

own_mux-Counted :
    (g : United) (s t : CudtSocket) (port : ℕ)
    → Counted g
    → fetch g.heap s.socket_id ≡ some t
    → t.mux_id ≡ minus_one
    → fetch g.muxes s.socket_id ≡ none
    → Counted (own_mux g s port)
unfolding own_mux join
own_mux-Counted g s t port h at alone unused =
    join-Counted g s.socket_id s.socket_id _ t h at alone (rw unused refl) refl

same_entry :
    (j i : ℤ) (n m : Mux)
    → ◌≡◌ {A = Option (ℤ × Mux)} (some (j, n)) (some (i, m))
    → (j ≡ i) × (n ≡ m)
same_entry j i n m path = (cc path, cc path)

reusable-found :
    (s : CudtSocket) (port : ℕ) (ms : List (ℤ × Mux)) (i : ℤ) (m : Mux)
    → Distinct ms
    → reusable s port ms ≡ some (i, m)
    → fetch ms i ≡ some m
unfolding reusable fetch
reusable-found s port [] i m d found = ground arith
reusable-found s port ((j, n) ∷ ms) i m d found =
    elim (Bool-cases (
      (n.ip_version == s.udt.ip_version)
      && (n.mss ==ℤ s.udt.mss)
      && n.reuse_able
      && (n.port == port))) [
        | inl fits ↦
            let first : reusable s port ((j, n) ∷ ms) ≡ some (j, n) = rw (fits, reusable) refl in
            let (same_key, same_mux) = same_entry j i n m (sym first ∙ found) in
            let hit : (j ==ℤ i) ≡ true = rw same_key (ground arith) in
            rw (hit, fetch) (ap some same_mux)
        | inr unfit ↦
            let further : reusable s port ((j, n) ∷ ms) ≡ reusable s port ms =
              rw (unfit, reusable) refl in
            let there = reusable-found s port ms i m d.1 (sym further ∙ found) in
            elim (Bool-cases (j ==ℤ i)) [
              | inl same ↦
                  let gone : fetch ms i ≡ none =
                    subst (λ k. fetch ms k ≡ none) ((==ℤ_iff j i).0 same) d.0 in
                  cc (gone, there)
              | inr other ↦ rw (other, fetch) there
            ]
      ]

open_mux-Counted :
    (g : United) (s t : CudtSocket) (channel : Channel)
    → Counted g
    → fetch g.heap s.socket_id ≡ some t
    → t.mux_id ≡ minus_one
    → fetch g.muxes s.socket_id ≡ none
    → Counted (open_mux g s channel).1
unfolding open_mux
open_mux-Counted g s t (bound_to port) h at alone unused =
    own_mux-Counted g s t port h at alone unused
open_mux-Counted g s t (no_channel major minor) h at alone unused = h

-- A socket has no multiplexer, and its number is that of none. The reference counts are the numbers of
-- the sockets of each multiplexer after the call as they were before it, whether the socket gets a
-- new multiplexer, shares one or gets none.
pub update_mux-Counted :
    (g : United) (s t : CudtSocket) (asked : Option ℕ) (channel : Channel)
    → Counted g
    → fetch g.heap s.socket_id ≡ some t
    → t.mux_id ≡ minus_one
    → fetch g.muxes s.socket_id ≡ none
    → Counted (update_mux g s asked channel).1
unfolding update_mux
update_mux-Counted g s t none channel h at alone unused =
    open_mux-Counted g s t channel h at alone unused
update_mux-Counted g s t (some port) channel h at alone unused =
    elim (Option-cases (if s.udt.reuse_addr then reusable s port g.muxes else none)) [
      | inl new ↦ rw (new, update_mux) (open_mux-Counted g s t channel h at alone unused)
      | inr ((i, m), old) ↦
          rw (old, update_mux) (share-Counted g i s.socket_id m t h (found i m old) at alone)
    ]
  where
    found :
        (i : ℤ) (m : Mux)
        → (if s.udt.reuse_addr then reusable s port g.muxes else none) ≡ some (i, m)
        → fetch g.muxes i ≡ some m
    found i m old = elim (Bool-cases s.udt.reuse_addr) [
      | inl asks ↦
          let chosen : (if s.udt.reuse_addr then reusable s port g.muxes else none)
              ≡ reusable s port g.muxes =
            rw asks refl in
          reusable-found s port g.muxes i m h.distinct (sym chosen ∙ old)
      | inr not_asked ↦
          let nothing : (if s.udt.reuse_addr then reusable s port g.muxes else none) ≡ none =
            rw not_asked refl in
          cc (nothing, old)
    ]
