-- ===== src/United/Collect.antt =====
-- The second loop of `checkBrokenSockets` of UDT4/src/api.cpp: which closed sockets it removes.
use uvudt.Common.{
  ℕ, ◌+◌, ◌-◌, ◌%◌, ◌^◌, Option, none, some, List, [], ◌∷◌, ◌≡◌, refl, sym, ◌∙◌, arith,
  if◌then◌else◌, true, false, ◌&&◌, ◌||◌, ltb, leb, ◌==◌, ◌<◌, ◌≢◌, ◌⊎◌, Bool-cases, Option-cases,
  inl, inr, ap,
}
use uvudt.Common.Int.{ℤ, ◌==ℤ◌, ==ℤ_iff}
use mathlib.Core.Path.{subst}
use uvudt.Epoll.Sets.{contains}
use uvudt.United.Maps.{fetch}
use uvudt.United.Types.{CudtSocket, Udt, United}
use uvudt.United.Entity.{with_socket, minus_64}
use uvudt.United.Collector.{check_closed, end_linger, linger_done, removable}
use uvudt.United.Heap.{fetch-with_socket, changed}

-- The linger of the socket does not end now: it has no deadline, or the deadline is ahead and there is
-- data to send.
abbrev pub Lasting : ℕ → Udt → Type 0
Lasting now d =
    (d.linger_expiration ≡ 0)
    ⊎ ((n : ℕ) × (d.snd_data ≡ some n) × (n ≢ 0) × (now < d.linger_expiration))

-- A socket with a stamp that is more than a second old, that the receiving thread has let go, and with
-- a linger that does not end now.
abbrev pub Old : ℕ → Option CudtSocket → Type 0
Old now none = ⊥
Old now (some s) =
    (ltb 1_000_000 (minus_64 now s.time_stamp) ≡ true)
    × (s.udt.is_on_rcv_list ≡ false)
    × Lasting now s.udt

lasts :
    (d : Udt) (now : ℕ) → (ltb 0 d.linger_expiration && linger_done d now) ≡ false → Lasting now d
unfolding linger_done
lasts d now h = elim (Bool-cases (ltb 0 d.linger_expiration)) [
  | inr no_deadline ↦ inl (ground arith)
  | inl deadline ↦ elim (Option-cases d.snd_data) [
    | inl no_buffer ↦
        let ends : linger_done d now ≡ true = rw (no_buffer, linger_done) refl in
        let impossible : ⊥ = ground (arith, h, deadline, ends) in elim impossible [ ]
    | inr (n, there) ↦
        let test : linger_done d now ≡ ((n == 0) || leb d.linger_expiration now) =
          rw (there, linger_done) refl in
        let goes_on : ((n == 0) || leb d.linger_expiration now) ≡ false =
          sym test ∙ ground (arith, h, deadline) in
        inr (n, there, ground (arith, goes_on), ground (arith, goes_on))
  ]
]

removable_fresh : (s : CudtSocket) (now : ℕ) → s.time_stamp ≡ now → removable s now ≡ false
unfolding removable minus_64
removable_fresh s now fresh =
    let zero_time : (now + 2 ^ 64 - now) % 2 ^ 64 ≡ 0 =
      ap (λ (k : ℕ). k % 2 ^ 64) (difference now) in
    rw (removable, fresh, zero_time) refl
  where
    difference : (k : ℕ) → k + 2 ^ 64 - k ≡ 2 ^ 64
    difference k = omega arith

removable-parts :
    (s : CudtSocket) (now : ℕ)
    → removable s now ≡ true
    → (ltb 1_000_000 (minus_64 now s.time_stamp) ≡ true) × (s.udt.is_on_rcv_list ≡ false)
unfolding removable
removable-parts s now r = ground arith

-- A socket whose linger ends in this pass is not removed in it.
removable-Old :
    (s : CudtSocket) (now : ℕ) → removable (end_linger s now) now ≡ true → Old now (some s)
unfolding removable end_linger minus_64
removable-Old s now h = elim (Bool-cases (ltb 0 s.udt.linger_expiration && linger_done s.udt now)) [
  | inr goes_on ↦
      let same : end_linger s now ≡ s = rw (goes_on, end_linger) refl in
      let parts = removable-parts s now (ap (λ t. removable t now) (sym same) ∙ h) in
      (parts.0, parts.1, lasts s.udt now goes_on)
  | inl ends ↦
      let stamped : (end_linger s now).time_stamp ≡ now = rw (ends, end_linger) refl in
      let stays = removable_fresh (end_linger s now) now stamped in
      let impossible : ⊥ = cc (stays, h) in elim impossible [ ]
]

Old-end_linger :
    (o : Option CudtSocket) (now : ℕ) → Old now (changed (λ t. end_linger t now) o) → Old now o
unfolding removable
Old-end_linger none now h = h
Old-end_linger (some s) now h =
    removable-Old s now (let (late, let_go, lasting) = h in rw (removable, late, let_go) refl)

contains_other : (v u : ℤ) (xs : List ℤ) → (v ==ℤ u) ≡ false → contains (u ∷ xs) v ≡ contains xs v
unfolding contains
contains_other v u xs other = rw other refl

check_closed_step :
    (g : United) (u : ℤ) (us : List ℤ) (now : ℕ) (v : ℤ) (s : CudtSocket)
    → fetch g.heap u ≡ some s
    → (contains (check_closed (with_socket g u (λ t. end_linger t now)) us now).0 v ≡ true
        → Old now (fetch (with_socket g u (λ t. end_linger t now)).heap v))
    → contains (check_closed g (u ∷ us) now).0 v ≡ true
    → Old now (fetch g.heap v)
unfolding check_closed
check_closed_step g u us now v s there earlier found =
    elim (Bool-cases (removable (end_linger s now) now)) [
      | inr stays ↦
          let lists : (check_closed g (u ∷ us) now).0 ≡ rest =
            rw (there, check_closed, stays) refl in
          before (ap (λ xs. contains xs v) (sym lists) ∙ found)
      | inl goes ↦
          let lists : (check_closed g (u ∷ us) now).0 ≡ u ∷ rest =
            rw (there, check_closed, goes) refl in
          let in_list : contains (u ∷ rest) v ≡ true =
            ap (λ xs. contains xs v) (sym lists) ∙ found in
          elim (Bool-cases (v ==ℤ u)) [
            | inl same ↦
                subst (λ i. Old now (fetch g.heap i)) (sym ((==ℤ_iff v u).0 same))
                  (subst (Old now) (sym there) (removable-Old s now goes))
            | inr other ↦ before (sym (contains_other v u rest other) ∙ in_list)
          ]
    ]
  where
    g1 : United
    g1 = with_socket g u (λ t. end_linger t now)

    rest : List ℤ
    rest = (check_closed g1 us now).0

    then_changed : Option CudtSocket
    then_changed =
        if u ==ℤ v then changed (λ t. end_linger t now) (fetch g.heap v) else fetch g.heap v

    before : contains rest v ≡ true → Old now (fetch g.heap v)
    before in_rest =
        let older : Old now then_changed =
          subst (Old now) (fetch-with_socket g u v (λ t. end_linger t now)) (earlier in_rest) in
        elim (Bool-cases (u ==ℤ v)) [
          | inr other ↦
              let same : then_changed ≡ fetch g.heap v = rw other refl in subst (Old now) same older
          | inl same ↦
              let here : then_changed ≡ changed (λ t. end_linger t now) (fetch g.heap v) =
                rw same refl in
              Old-end_linger (fetch g.heap v) now (subst (Old now) here older)
        ]

-- Each socket that the pass is to remove has, when the pass begins, a stamp that is more than a second
-- old, and is not on the list of the receiving thread; and its linger does not end in this pass: it
-- has no deadline, or the deadline is ahead and there is data to send.
pub check_closed-Old :
    (g : United) (us : List ℤ) (now : ℕ) (v : ℤ)
    → contains (check_closed g us now).0 v ≡ true
    → Old now (fetch g.heap v)
unfolding check_closed contains
check_closed-Old g [] now v found = let impossible : ⊥ = cc found in elim impossible [ ]
check_closed-Old g (u ∷ us) now v found = elim (Option-cases (fetch g.heap u)) [
  | inl gone ↦
      let skips : check_closed g (u ∷ us) now ≡ check_closed g us now =
        rw (gone, check_closed) refl in
      check_closed-Old g us now v (ap (λ p. contains p.0 v) (sym skips) ∙ found)
  | inr (s, there) ↦
      check_closed_step g u us now v s there
        (check_closed-Old (with_socket g u (λ t. end_linger t now)) us now v) found
]
