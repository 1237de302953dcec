-- ===== src/United/Selecting.antt =====
-- What `selectEx` of UDT4/src/api.cpp returns.
use uvudt.Common.{
  ℕ, ◌+◌, Bool, true, false, not, ◌&&◌, ◌||◌, Option, none, some, some_injective, List, [], ◌∷◌,
  ◌≡◌, ◌↔◌, ◌⊎◌, ◌≤◌, ◌<◌, refl, sym, ◌∙◌, ap, arith, ltb, if◌then◌else◌, length, Bool-cases,
  Option-cases, inl, inr,
}
use uvudt.Common.Int.{ℤ}
use mathlib.Core.Path.{subst}
use uvudt.Epoll.Sets.{IntSet, is_empty}
use uvudt.United.Types.{CudtSocket, Udt, United, Reply, returns, closed}
use uvudt.United.Lookup.{is, locate}
use uvudt.United.Incoming.{members}
use uvudt.United.StatusSteps.{is-eq}
use uvudt.United.Select.{
  Look, Asked, Found, has_data, has_space, has_waiting, is_lost, can_read, can_write, bit, put,
  look_at, select_ex,
}

-- The members of the list that pass the test, in their order.
abbrev filter : (ℤ → Bool) → List ℤ → List ℤ
filter p [] = []
filter p (u ∷ us) = if p u then u ∷ filter p us else filter p us

-- What the tests of the source pick.
abbrev Filtered : United → Asked → List ℤ → Found → Type 0
Filtered g a fds f =
    (f.reads ≡ filter (λ u. a.reads && not (is_lost g u) && can_read g u) fds)
    × (f.writes ≡ filter (λ u. a.writes && not (is_lost g u) && can_write g u) fds)
    × (f.excepts ≡ filter (λ u. a.excepts && is_lost g u) fds)
    × (f.count ≡ length f.reads + length f.writes + length f.excepts)

length-put : (b : Bool) (u : ℤ) (us : List ℤ) → length (put b u us) ≡ bit b + length us
length-put b u us = ground arith

look_at-Filtered : (g : United) (a : Asked) (fds : List ℤ) → Filtered g a fds (look_at g a fds)
unfolding look_at
look_at-Filtered g a [] = (refl, refl, refl, refl)
look_at-Filtered g a (u ∷ us) =
    let (reads, writes, excepts, counted) = look_at-Filtered g a us in
    let rest = look_at g a us in
    (
      ap (λ (l : List ℤ). put reads_it u l) reads,
      ap (λ (l : List ℤ). put writes_it u l) writes,
      ap (λ (l : List ℤ). put excepts_it u l) excepts,
      omega (
        arith,
        counted,
        length-put reads_it u rest.reads,
        length-put writes_it u rest.writes,
        length-put excepts_it u rest.excepts,
      ),
    )
  where
    reads_it : Bool
    reads_it = a.reads && not (is_lost g u) && can_read g u

    writes_it : Bool
    writes_it = a.writes && not (is_lost g u) && can_write g u

    excepts_it : Bool
    excepts_it = a.excepts && is_lost g u

-- The socket is not there, or broken, or closed.
abbrev pub Lost : Option CudtSocket → Type 0
Lost none = Unit
Lost (some s) = (s.udt.is_broken ≡ true) ⊎ (s.status ≡ closed)

-- The socket is connected and has data, of which there is a whole message unless it is a stream; or it
-- listens and a connection waits in its queue.
abbrev pub Readable : Option CudtSocket → Type 0
Readable none = ⊥
Readable (some s) =
    ((s.udt.is_connected ≡ true)
      × ((n : ℕ) × (s.udt.rcv_data ≡ some n) × (1 ≤ n))
      × ((s.udt.stream ≡ true) ⊎ (1 ≤ s.udt.rcv_msgs)))
    ⊎ ((s.udt.is_listening ≡ true) × ((q : ℤ) × (qs : IntSet) × (s.queued ≡ some (q ∷ qs))))

-- The socket is connected, and its buffer is below its limit.
abbrev pub Writable : Option CudtSocket → Type 0
Writable none = ⊥
Writable (some s) =
    (s.udt.is_connected ≡ true) × ((n : ℕ) × (s.udt.snd_data ≡ some n) × (n < s.udt.snd_buf_size))

-- The list has the members of which the predicate holds, in their order.
abbrev pub Chosen : (ℤ → Type 0) → List ℤ → List ℤ → Type 0
Chosen P [] out = out ≡ []
Chosen P (u ∷ us) out =
    (P u × ((rest : List ℤ) × (out ≡ u ∷ rest) × Chosen P us rest)) ⊎ (¬ (P u) × Chosen P us out)

filter-Chosen :
    (P : ℤ → Type 0) (p : ℤ → Bool) (us : List ℤ)
    → ((u : ℤ) → (p u ≡ true) ↔ P u)
    → Chosen P us (filter p us)
filter-Chosen P p [] test = refl
filter-Chosen P p (u ∷ us) test = elim (Bool-cases (p u)) [
  | inl passes ↦ rw passes (inl ((test u).0 passes, (filter p us, refl, filter-Chosen P p us test)))
  | inr fails ↦ rw fails (
      inr (
        (λ holds. let impossible : ⊥ = cc (fails, (test u).1 holds) in impossible),
        filter-Chosen P p us test,
      ))
]

is_lost-Lost : (g : United) (u : ℤ) → (is_lost g u ≡ true) ↔ Lost (locate g u)
unfolding is_lost
is_lost-Lost g u = elim (Option-cases (locate g u)) [
  | inl gone ↦ rw (gone, is_lost) ((λ h. tt), (λ h. refl))
  | inr (s, there) ↦
      rw (there, is_lost)
        (
          (λ h. elim (Bool-cases s.udt.is_broken) [
            | inl broken_one ↦ inl broken_one
            | inr whole ↦ inr (is-eq s.status closed (ground (arith, h, whole)))
          ]),
          (λ h. elim h [
            | inl broken_one ↦ rw broken_one refl
            | inr shut ↦ let same : is s.status closed ≡ true = rw shut refl in ground (arith, same)
          ]),
        )
]

has_data-parts :
    (d : Udt)
    → (has_data d ≡ true) ↔ (
        (d.is_connected ≡ true)
        × ((n : ℕ) × (d.rcv_data ≡ some n) × (1 ≤ n))
        × ((d.stream ≡ true) ⊎ (1 ≤ d.rcv_msgs)))
unfolding has_data
has_data-parts d = elim (Option-cases d.rcv_data) [
  | inl none_there ↦
      rw (none_there, has_data)
        (
          (λ h. let impossible : ⊥ = cc h in elim impossible [ ]),
          (λ h. let impossible : ⊥ = cc (h.1.1) in elim impossible [ ]),
        )
  | inr (n, there) ↦
      rw (there, has_data)
        (
          (λ h. (ground (arith, h), (n, refl, ground (arith, h)), ground (arith, h))),
          (λ h.
              let same : n ≡ h.1.0 = some_injective n h.1.0 h.1.1 in
              ground (arith, same, h.0, h.1.2, h.2)),
        )
]

has_waiting-parts :
    (s : CudtSocket)
    → (has_waiting s ≡ true)
      ↔ ((s.udt.is_listening ≡ true) × ((q : ℤ) × (qs : IntSet) × (s.queued ≡ some (q ∷ qs))))
unfolding has_waiting
has_waiting-parts s = (
  (λ h. (ground (arith, h), queue s.queued (ground (arith, h)))),
  (λ h. rw (h.0, h.1.2, has_waiting) refl),
)
  where
    queue :
        (o : Option IntSet)
        → is_empty (members o) ≡ false
        → (q : ℤ) × (qs : IntSet) × (o ≡ some (q ∷ qs))
    queue none h = let impossible : ⊥ = cc h in elim impossible [ ]
    queue (some []) h = let impossible : ⊥ = cc h in elim impossible [ ]
    queue (some (q ∷ qs)) h = (q, qs, refl)

can_read-Readable : (g : United) (u : ℤ) → (can_read g u ≡ true) ↔ Readable (locate g u)
unfolding can_read
can_read-Readable g u = elim (Option-cases (locate g u)) [
  | inl gone ↦
      rw (gone, can_read) ((λ h. let impossible : ⊥ = cc h in impossible), (λ h. elim h [ ]))
  | inr (s, there) ↦
      rw (there, can_read)
        (
          (λ h. elim (Bool-cases (has_data s.udt)) [
            | inl data_there ↦ inl ((has_data-parts s.udt).0 data_there)
            | inr none_there ↦ inr ((has_waiting-parts s).0 (ground (arith, h, none_there)))
          ]),
          (λ h. elim h [
            | inl data_there ↦ rw ((has_data-parts s.udt).1 data_there) refl
            | inr waiting ↦ let one = (has_waiting-parts s).1 waiting in ground (arith, one)
          ]),
        )
]

can_write-Writable : (g : United) (u : ℤ) → (can_write g u ≡ true) ↔ Writable (locate g u)
unfolding can_write has_space
can_write-Writable g u = elim (Option-cases (locate g u)) [
  | inl gone ↦
      rw (gone, can_write) ((λ h. let impossible : ⊥ = cc h in impossible), (λ h. elim h [ ]))
  | inr (s, there) ↦
      rw (there, can_write)
        (elim (Option-cases s.udt.snd_data) [
          | inl none_there ↦
              rw (none_there, has_space)
                (
                  (λ h. let impossible : ⊥ = cc h in elim impossible [ ]),
                  (λ h. let impossible : ⊥ = cc (h.1.1) in elim impossible [ ]),
                )
          | inr (n, some_there) ↦
              rw (some_there, has_space)
                (
                  (λ h. (ground (arith, h), (n, refl, ground (arith, h)))),
                  (λ h.
                      let same : n ≡ h.1.0 = some_injective n h.1.0 h.1.1 in
                      ground (arith, same, h.0, h.1.2)),
                )
        ])
]

-- What the sockets of one table are: lost, or not lost and ready; each vector that is NULL is empty.
abbrev pub Sorted : United → Asked → List ℤ → Found → Type 0
Sorted g a fds f =
    Chosen (λ u. (a.reads ≡ true) × ¬ (Lost (locate g u)) × Readable (locate g u)) fds f.reads
    × Chosen (λ u. (a.writes ≡ true) × ¬ (Lost (locate g u)) × Writable (locate g u)) fds f.writes
    × Chosen (λ u. (a.excepts ≡ true) × Lost (locate g u)) fds f.excepts
    × (f.count ≡ length f.reads + length f.writes + length f.excepts)

-- A test of the source, and what it means.
ready_test :
    (asked lost ready : Bool) (P Q : Type 0)
    → (lost ≡ true) ↔ P
    → (ready ≡ true) ↔ Q
    → (asked && not lost && ready ≡ true) ↔ ((asked ≡ true) × ¬ P × Q)
ready_test asked lost ready P Q is_p is_q = (
  (λ h. (
    ground (arith, h),
    (λ p. let impossible : ⊥ = ground (arith, h, is_p.1 p) in impossible),
    is_q.0 (ground (arith, h)),
  )),
  (λ h. elim (Bool-cases lost) [
    | inl gone ↦ elim (h.1 (is_p.0 gone)) [ ]
    | inr there ↦ rw (h.0, there, is_q.1 h.2) refl
  ]),
)

lost_test :
    (asked lost : Bool) (P : Type 0)
    → (lost ≡ true) ↔ P
    → (asked && lost ≡ true) ↔ ((asked ≡ true) × P)
lost_test asked lost P is_p =
    ((λ h. (ground (arith, h), is_p.0 (ground (arith, h)))), (λ h. rw (h.0, is_p.1 h.1) refl))

look_at-Sorted : (g : United) (a : Asked) (fds : List ℤ) → Sorted g a fds (look_at g a fds)
look_at-Sorted g a fds =
    let (reads, writes, excepts, counted) = look_at-Filtered g a fds in
    (
      rw reads (
          filter-Chosen _ _ fds (λ u.
            ready_test a.reads (is_lost g u) (can_read g u) _ _ (is_lost-Lost g u)
              (can_read-Readable g u))),
      rw writes (
          filter-Chosen _ _ fds (λ u.
            ready_test a.writes (is_lost g u) (can_write g u) _ _ (is_lost-Lost g u)
              (can_write-Writable g u))),
      rw excepts
          (filter-Chosen _ _ fds (λ u. lost_test a.excepts (is_lost g u) _ (is_lost-Lost g u))),
      counted,
    )

abbrev pub Member : Look → List Look → Type 0
Member l [] = ⊥
Member l (k ∷ ks) = (k ≡ l) ⊎ Member l ks

-- What `selectEx` returns is what one of its rounds finds in its table, and something is found there, or
-- the time is over: in `exceptfds` the sockets that are not there, broken or closed; in `readfds` the others with
-- data, or a waiting connection, to read, and in `writefds` the others with space to write, each in
-- the order of `fds`; a vector that is NULL is empty; and the count is the sum of the three lengths.
pub select_ex-returns :
    (a : Asked) (fds : List ℤ) (looks : List Look) (f : Found)
    → select_ex a fds looks ≡ returns f
    → (l : Look) × Member l looks × Sorted l.table a fds f × ((ltb 0 f.count || l.late) ≡ true)
unfolding select_ex
select_ex-returns a fds [] f path = let impossible : ⊥ = cc path in elim impossible [ ]
select_ex-returns a fds (l ∷ ls) f path =
    elim (Bool-cases (ltb 0 (look_at l.table a fds).count || l.late)) [
      | inl ends ↦
          let result : select_ex a fds (l ∷ ls) ≡ returns (look_at l.table a fds) =
            rw (ends, select_ex) refl in
          let same : look_at l.table a fds ≡ f =
            found_is (look_at l.table a fds) f (sym result ∙ path) in
          (
            l,
            inl refl,
            subst (Sorted l.table a fds) same (look_at-Sorted l.table a fds),
            subst (λ (h : Found). (ltb 0 h.count || l.late) ≡ true) same ends,
          )
      | inr goes_on ↦
          let result : select_ex a fds (l ∷ ls) ≡ select_ex a fds ls =
            rw (goes_on, select_ex) refl in
          let (k, among, sorted, done) = select_ex-returns a fds ls f (sym result ∙ path) in
          (k, inr among, sorted, done)
    ]
  where
    found_is : (f h : Found) → ◌≡◌ {A = Reply Found} (returns f) (returns h) → f ≡ h
    found_is f h path = cc path
