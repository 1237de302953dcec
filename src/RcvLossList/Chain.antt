-- ===== src/RcvLossList/Chain.antt =====
-- The nodes of the receiver's loss list (UDT4/src/list.cpp), in the order of their links.
use uvudt.Common.{Bool, true, false, List, [], ◌∷◌, ◌≡◌, refl, if◌then◌else◌}
use uvudt.Common.Int.{ℤ, ◌==ℤ◌, minus_one, IntArray, put}

-- From `p` on the links lead through the nodes and end.
abbrev pub Linked : IntArray → ℤ → List ℤ → Type 0
Linked next p [] = p ≡ minus_one
Linked next p (q ∷ qs) = (p ≡ q) × ((p ==ℤ minus_one) ≡ false) × Linked next (next p) qs

abbrev pub any : (ℤ → Bool) → List ℤ → Bool
any f [] = false
any f (q ∷ qs) = if f q then true else any f qs

-- None of the nodes is `p`.
abbrev pub Free : ℤ → List ℤ → Type 0
Free p [] = Unit {0}
Free p (q ∷ qs) = ((q ==ℤ p) ≡ false) × Free p qs

-- The last node, or `p`.
abbrev pub last : ℤ → List ℤ → ℤ
last p [] = p
last p (q ∷ qs) = last q qs

abbrev pub Distinct : List ℤ → Type 0
Distinct [] = Unit {0}
Distinct (q ∷ qs) = Free q qs × Distinct qs

-- The two ends of each node's range, the second one -1 for a single number.
abbrev pub ranges : IntArray → IntArray → List ℤ → List (ℤ × ℤ)
ranges data1 data2 [] = []
ranges data1 data2 (q ∷ qs) = (data1 q, data2 q) ∷ ranges data1 data2 qs

pub Linked-put :
    (next : IntArray) (loc v p : ℤ) (qs : List ℤ)
    → Free loc qs
    → Linked next p qs
    → Linked (put next loc v) p qs
Linked-put next loc v p [] free link = link
Linked-put next loc v p (q ∷ qs) free link =
    let kept : put next loc v p ≡ next p = rw (link.0, free.0) refl in
    (link.0, link.1, rw kept (Linked-put next loc v (next p) qs free.1 link.2))

pub ranges-put₁ :
    (data1 data2 : IntArray) (loc a : ℤ) (qs : List ℤ)
    → Free loc qs
    → ranges (put data1 loc a) data2 qs ≡ ranges data1 data2 qs
ranges-put₁ data1 data2 loc a [] free = refl
ranges-put₁ data1 data2 loc a (q ∷ qs) free =
    rw (free.0, ranges-put₁ data1 data2 loc a qs free.1) refl

pub ranges-put₂ :
    (data1 data2 : IntArray) (loc b : ℤ) (qs : List ℤ)
    → Free loc qs
    → ranges data1 (put data2 loc b) qs ≡ ranges data1 data2 qs
ranges-put₂ data1 data2 loc b [] free = refl
ranges-put₂ data1 data2 loc b (q ∷ qs) free =
    rw (free.0, ranges-put₂ data1 data2 loc b qs free.1) refl
