-- ===== src/United/Status.antt =====
-- The statuses that the calls of UDT4/src/api.cpp take a socket through.
use uvudt.Common.{Option, none, some, ◌≡◌, refl, sym, ◌∙◌, Bool-cases, Option-cases, inl, inr, ap}
use uvudt.Common.Int.{ℤ, ◌==ℤ◌, ==ℤ_iff}
use mathlib.Core.Path.{subst}
use uvudt.United.Maps.{fetch}
use uvudt.United.Types.{
  CudtSocket, Udt, United, Status, init, opened, listening, connecting, connected, closed,
}
use uvudt.United.Entity.{with_socket, with_udt}
use uvudt.United.Lookup.{set_status}
use uvudt.United.Heap.{fetch-with_socket, with_socket_self}

-- The moves of a status, one after the other.
pub data Moves : Status → Status → Type 0 where
  stays : (a : Status) → Moves a a
  opens : Moves init opened
  listens : Moves opened listening
  connects : Moves opened connecting
  completes : Moves connecting connected
  fails_open : Moves connecting opened
  drops_open : Moves connected opened
  closes : (a : Status) → Moves a closed
  goes_on : (a b c : Status) → Moves a b → Moves b c → Moves a c

-- The number and the status that the object of a pointer has.
abbrev pub facts : Option CudtSocket → Option (ℤ × Status)
facts none = none
facts (some s) = some (s.socket_id, s.status)

abbrev pub facts_of : United → ℤ → Option (ℤ × Status)
facts_of g v = facts (fetch g.heap v)

-- A socket that is there stays there under its number, and its status moves; a new one is INIT at
-- first.
abbrev pub Follows : ℤ → Option (ℤ × Status) → Option (ℤ × Status) → Type 0
Follows v none none = Unit
Follows v none (some (j, b)) = (j ≡ v) × Moves init b
Follows v (some (i, a)) none = ⊥
Follows v (some (i, a)) (some (j, b)) = (j ≡ i) × Moves a b

abbrev pub Kept : United → United → Type 0
Kept g h = (v : ℤ) → Follows v (facts_of g v) (facts_of h v)

-- Every object has the number that its pointer stands for.
abbrev pub Named : United → Type 0
Named g = (v i : ℤ) (a : Status) → facts_of g v ≡ some (i, a) → i ≡ v

-- Nothing of that changes.
abbrev pub Still : United → United → Type 0
Still g h = (v : ℤ) → facts_of h v ≡ facts_of g v

pub Follows-refl : (v : ℤ) (o : Option (ℤ × Status)) → Follows v o o
Follows-refl v none = tt
Follows-refl v (some (i, a)) = (refl, stays a)

Follows-trans :
    (v : ℤ) (a b c : Option (ℤ × Status)) → Follows v a b → Follows v b c → Follows v a c
Follows-trans v none none c h k = k
Follows-trans v none (some (i, a)) none h k = tt
Follows-trans v none (some (i, a)) (some (j, b)) h k = (k.0 ∙ h.0, goes_on init a b h.1 k.1)
Follows-trans v (some (i, a)) none c h k = elim h [ ]
Follows-trans v (some (i, a)) (some (j, b)) none h k = k
Follows-trans v (some (i, a)) (some (j, b)) (some (l, c)) h k = (k.0 ∙ h.0, goes_on a b c h.1 k.1)

pub Kept-refl : (g : United) → Kept g g
Kept-refl g v = Follows-refl v (facts_of g v)

pub Kept-trans : (g h k : United) → Kept g h → Kept h k → Kept g k
Kept-trans g h k p q v = Follows-trans v (facts_of g v) (facts_of h v) (facts_of k v) (p v) (q v)

pub Kept-Still : (g h : United) → Still g h → Kept g h
Kept-Still g h still v = rw (still v) (Follows-refl v (facts_of g v))

pub Still-with_socket :
    (g : United) (u : ℤ) (f : CudtSocket → CudtSocket)
    → ((s : CudtSocket) → facts (some (f s)) ≡ facts (some s))
    → Still g (with_socket g u f)
Still-with_socket g u f same_facts v = rw (fetch-with_socket g u v f) (elim (Bool-cases (u ==ℤ v)) [
  | inl same ↦ rw same (elim (Option-cases (fetch g.heap v)) [
    | inl gone ↦ rw gone refl
    | inr (s, there) ↦ rw there (same_facts s)
  ])
  | inr other ↦ rw other refl
])

pub Still-with_udt : (g : United) (u : ℤ) (f : Udt → Udt) → Still g (with_udt g u f)
unfolding with_udt
Still-with_udt g u f = Still-with_socket g u (λ s. record s { udt = f s.udt }) (λ s. refl)

-- A change of the status, from what it is.
pub Kept-with_socket :
    (g : United) (u i : ℤ) (a b : Status) (f : CudtSocket → CudtSocket)
    → facts_of g u ≡ some (i, a)
    → Moves a b
    → ((s : CudtSocket) → facts (some (f s)) ≡ some (s.socket_id, b))
    → Kept g (with_socket g u f)
Kept-with_socket g u i a b f now moves new_facts v =
    rw (fetch-with_socket g u v f) (elim (Bool-cases (u ==ℤ v)) [
      | inl same ↦ rw same (elim (Option-cases (fetch g.heap v)) [
        | inl gone ↦ rw gone tt
        | inr (s, there) ↦ rw there (
            subst (Follows v (facts (some s))) (sym (new_facts s))
              (refl, subst (λ c. Moves c b) (status_is s (rw ((==ℤ_iff u v).0 same) there)) moves))
      ])
      | inr other ↦ rw other (Follows-refl v (facts_of g v))
    ])
  where
    status_is : (s : CudtSocket) → fetch g.heap u ≡ some s → a ≡ s.status
    status_is s there = cc (now, ap facts there)

pub facts-with_socket :
    (g : United) (u i : ℤ) (a b : Status) (f : CudtSocket → CudtSocket)
    → facts_of g u ≡ some (i, a)
    → ((s : CudtSocket) → facts (some (f s)) ≡ some (s.socket_id, b))
    → facts_of (with_socket g u f) u ≡ some (i, b)
facts-with_socket g u i a b f now new_facts = elim (Option-cases (fetch g.heap u)) [
  | inl gone ↦ cc (now, ap facts gone)
  | inr (s, there) ↦
      let path : some (s.socket_id, s.status) ≡ some (i, a) = sym (ap facts there) ∙ now in
      ap facts (with_socket_self g u f s there)
      ∙ (new_facts s ∙ ap (λ j. some (j, b)) (number_is s i a path))
]
  where
    number_is :
        (s : CudtSocket) (i : ℤ) (a : Status) → facts (some s) ≡ some (i, a) → s.socket_id ≡ i
    number_is s i a path = cc path

pub Kept-set_status :
    (g : United) (u i : ℤ) (a b : Status)
    → facts_of g u ≡ some (i, a)
    → Moves a b
    → Kept g (set_status g u b)
unfolding set_status
Kept-set_status g u i a b now moves =
    Kept-with_socket g u i a b (λ s. record s { status = b }) now moves (λ s. refl)

pub Named-Kept : (g h : United) → Named g → Kept g h → Named h
Named-Kept g h named kept v j b now = elim (Option-cases (facts_of g v)) [
  | inl gone ↦
      (subst (λ o. Follows v o (some (j, b))) gone
        (subst (Follows v (facts_of g v)) now (kept v))).0
  | inr ((i, a), there) ↦
      (subst (λ o. Follows v o (some (j, b))) there
        (subst (Follows v (facts_of g v)) now (kept v))).0
      ∙ named v i a there
]
