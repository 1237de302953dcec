-- ===== src/SndBuffer/Ring.antt =====
-- The circle of blocks of CSndBuffer: what is sent, what waits and what is free.
use uvudt.Common.{
  ℕ, suc, ◌+◌, ◌<◌, false, List, [], ◌∷◌, ◌++◌, ◌≡◌, ◌∙◌, sym, ap, ◌==◌, length, All, All-append,
  All-split,
}
use mathlib.Core.Path.{subst}
use uvudt.SndBuffer.{Block, SndBuffer}

-- The links lead from `p` through the blocks to `q`.
abbrev pub Segment : (ℕ → ℕ) → ℕ → ℕ → List ℕ → Type 0
Segment next p q [] = p ≡ q
Segment next p q (i ∷ is) = (p ≡ i) × Segment next (next p) q is

-- None of the blocks is `p`, and none comes twice.
abbrev pub Free : ℕ → List ℕ → Type 0
Free p = All (λ i. (i == p) ≡ false)

abbrev pub Distinct : List ℕ → Type 0
Distinct [] = Unit {0}
Distinct (i ∷ is) = Free i is × Distinct is

abbrev pub Below : ℕ → List ℕ → Type 0
Below n = All (λ i. i < n)

-- The bytes of the blocks.
abbrev pub bytes : (ℕ → Block) → List ℕ → List ℕ
bytes block [] = []
bytes block (i ∷ is) = (block i).pc_data ++ bytes block is

-- The circle from the first block on: the blocks that are sent and wait for their ACK, the blocks
-- that wait to be sent, and the others, which begin with the last block.
pub record Holds (b : SndBuffer) (sent queued spare : List ℕ) : Type 0 where
  pub to_curr : Segment b.next b.first_block b.curr_block sent
  pub to_last : Segment b.next b.curr_block b.last_block queued
  pub around : Segment b.next b.last_block b.first_block (b.last_block ∷ spare)
  pub distinct : Distinct (sent ++ queued ++ b.last_block ∷ spare)
  pub below : Below b.fresh (sent ++ queued ++ b.last_block ∷ spare)
  pub counted : b.count ≡ length sent + length queued
  pub sized : b.size ≡ length sent + length queued + suc (length spare)

pub Segment-append :
    (next : ℕ → ℕ) (p q r : ℕ) (xs ys : List ℕ)
    → Segment next p q xs
    → Segment next q r ys
    → Segment next p r (xs ++ ys)
Segment-append next p q r [] ys sx sy = subst (λ k. Segment next k r ys) (sym sx) sy
Segment-append next p q r (x ∷ xs) ys sx sy = (sx.0, Segment-append next (next p) q r xs ys sx.1 sy)

-- Links that agree on the blocks lead the same way.
pub Segment-agree :
    (next next' : ℕ → ℕ) (p q : ℕ) (xs : List ℕ)
    → All (λ i. next' i ≡ next i) xs
    → Segment next p q xs
    → Segment next' p q xs
Segment-agree next next' p q [] same sx = sx
Segment-agree next next' p q (x ∷ xs) same sx =
    let goes : next' p ≡ next p = ap next' sx.0 ∙ same.0 ∙ ap next (sym sx.0) in
    (
      sx.0,
      subst (λ k. Segment next' k q xs) (sym goes)
          (Segment-agree next next' (next p) q xs same.1 sx.1),
    )

pub Distinct-split :
    (xs ys : List ℕ) → Distinct (xs ++ ys) → Distinct xs × Distinct ys × All (λ x. Free x ys) xs
Distinct-split [] ys d = (tt, d, tt)
Distinct-split (x ∷ xs) ys d =
    let (dx, dy, apart) = Distinct-split xs ys d.1 in
    let (fx, fy) = All-split (λ i. (i == x) ≡ false) xs ys d.0 in ((fx, dx), dy, (fy, apart))

pub Distinct-append :
    (xs ys : List ℕ) → Distinct xs → Distinct ys → All (λ x. Free x ys) xs → Distinct (xs ++ ys)
Distinct-append [] ys dx dy apart = dy
Distinct-append (x ∷ xs) ys dx dy apart =
    (All-append (λ i. (i == x) ≡ false) xs ys dx.0 apart.0, Distinct-append xs ys dx.1 dy apart.1)
