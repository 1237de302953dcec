-- ===== src/SndBuffer/Grow.antt =====
-- CSndBuffer makes room: new blocks join the circle behind the last block.
use uvudt.Common.{
  ℕ, zero, suc, ◌+◌, ◌-◌, ◌≤◌, ◌<◌, false, some, List, [], ◌∷◌, ◌++◌, ◌≡◌, refl, sym, ap, arith,
  leb, ◌==◌, length, length-append, All, All-append, All-split, All-imp, Bool-cases, inl, inr,
}
use mathlib.Core.Path.{subst}
use uvudt.SndBuffer.Ring.{
  Segment, Free, Distinct, Below, Holds, Segment-append, Segment-agree, Distinct-split,
  Distinct-append,
}
use uvudt.SndBuffer.{SndBuffer, create, grown_next, increase, grow}

-- `n` numbers from `start` on.
abbrev pub run : ℕ → ℕ → List ℕ
run start zero = []
run start (suc n) = start ∷ run (start + 1) n

length-run : (start n : ℕ) → length (run start n) ≡ n
length-run start zero = refl
length-run start (suc n) = ap suc (length-run (start + 1) n)

run-Free : (x start n : ℕ) → x < start → Free x (run start n)
run-Free x start zero h = tt
run-Free x start (suc n) h = (ground arith, run-Free x (start + 1) n (omega arith))

run-Distinct : (start n : ℕ) → Distinct (run start n)
run-Distinct start zero = tt
run-Distinct start (suc n) =
    (run-Free start (start + 1) n (omega arith), run-Distinct (start + 1) n)

run-Below : (start n m : ℕ) → start + n ≤ m → Below m (run start n)
run-Below start zero m h = tt
run-Below start (suc n) m h = (omega arith, run-Below (start + 1) n m (omega arith))

run-Free-All : (start n : ℕ) (xs : List ℕ) → Below start xs → All (λ x. Free x (run start n)) xs
run-Free-All start n [] h = tt
run-Free-All start n (x ∷ xs) h = (run-Free x start n h.0, run-Free-All start n xs h.1)

All-Free-append :
    (xs ys zs : List ℕ)
    → All (λ x. Free x ys) xs
    → All (λ x. Free x zs) xs
    → All (λ x. Free x (ys ++ zs)) xs
All-Free-append [] ys zs hy hz = tt
All-Free-append (x ∷ xs) ys zs hy hz =
    (All-append (λ i. (i == x) ≡ false) ys zs hy.0 hz.0, All-Free-append xs ys zs hy.1 hz.1)

-- The numbers of `xs` are below all of `ys`, and so none of `ys` is in `xs`.
Free-Below : (y n : ℕ) (xs : List ℕ) → Below n xs → n ≤ y → Free y xs
Free-Below y n [] h le = tt
Free-Below y n (x ∷ xs) h le = (ground (arith, h.0), Free-Below y n xs h.1 le)

run-apart :
    (start n m : ℕ) (xs : List ℕ) → Below m xs → m ≤ start → All (λ y. Free y xs) (run start n)
run-apart start zero m xs h le = tt
run-apart start (suc n) m xs h le =
    (Free-Below start m xs h le, run-apart (start + 1) n m xs h (omega arith))

-- The old blocks but the last one keep their links.
old_links :
    (b : SndBuffer) (xs : List ℕ)
    → All (λ x. (x == b.last_block) ≡ false) xs
    → Below b.fresh xs
    → 1 ≤ b.unit_size
    → All (λ x. grown_next b x ≡ b.next x) xs
old_links b [] apart below some_units = tt
old_links b (x ∷ xs) apart below some_units =
    (ground (arith, apart.0, below.0), old_links b xs apart.1 below.1 some_units)

new_links :
    (b : SndBuffer) (start n : ℕ)
    → b.last_block < b.fresh
    → b.fresh ≤ start
    → start + suc n ≡ b.fresh + b.unit_size
    → Segment (grown_next b) start (b.next b.last_block) (run start (suc n))
new_links b start zero last_old from ends = (refl, ground arith)
new_links b start (suc n) last_old from ends =
    let goes : grown_next b start ≡ start + 1 = ground arith in
    (
      refl,
      subst (λ k. Segment (grown_next b) k (b.next b.last_block) (run (start + 1) (suc n)))
          (sym goes) (new_links b (start + 1) n last_old (omega arith) (omega arith)),
    )

not_last : (l : ℕ) (ys xs : List ℕ) → All (λ x. Free x (l ∷ ys)) xs → All (λ x. (x == l) ≡ false) xs
not_last l ys [] h = tt
not_last l ys (x ∷ xs) h = (let other = h.0.0 in ground arith, not_last l ys xs h.1)

not_last_spare : (l : ℕ) (xs : List ℕ) → Free l xs → All (λ x. (x == l) ≡ false) xs
not_last_spare l [] h = tt
not_last_spare l (x ∷ xs) h = (h.0, not_last_spare l xs h.1)

Free-above : (l : ℕ) (m : ℕ) (xs : List ℕ) → Below m xs → m ≤ l → Free l xs
Free-above l m xs h le = Free-Below l m xs h le

join-All :
    (l : ℕ) (run' spare xs : List ℕ)
    → All (λ x. Free x (l ∷ spare)) xs
    → All (λ x. Free x run') xs
    → All (λ x. Free x (l ∷ run' ++ spare)) xs
join-All l run' spare [] hs hr = tt
join-All l run' spare (x ∷ xs) hs hr = (
  (hs.0.0, All-append (λ i. (i == x) ≡ false) run' spare hr.0 hs.0.1),
  join-All l run' spare xs hs.1 hr.1,
)

run_spare :
    (n : ℕ) (start m : ℕ) (spare : List ℕ)
    → Below m spare
    → m ≤ start
    → All (λ y. Free y spare) (run start n)
run_spare n start m spare below from = run-apart start n m spare below from

abbrev new_blocks : SndBuffer → List ℕ
new_blocks b = run b.fresh (suc (b.unit_size - 1))

-- `increase` puts the new blocks among the spare ones, and leaves the others as they are.
pub increase-Holds :
    (b : SndBuffer) (sent queued spare : List ℕ)
    → 1 ≤ b.unit_size
    → Holds b sent queued spare
    → Holds (increase b) sent queued (new_blocks b ++ spare)
unfolding increase
increase-Holds b sent queued spare some_units h =
    let l = b.last_block in
    let used = sent ++ queued in
    let (d_used, d_spare, apart) = Distinct-split used (l ∷ spare) h.distinct in
    let (b_used, b_spare) = All-split (λ i. i < b.fresh) used (l ∷ spare) h.below in
    let (b_sent, b_queued) = All-split (λ i. i < b.fresh) sent queued b_used in
    let (l_sent, l_queued) =
      All-split (λ i. (i == l) ≡ false) sent queued (not_last l spare used apart) in
    let new = new_blocks b in
    let total : suc (b.unit_size - 1) ≡ b.unit_size = omega arith in
    let end_is : b.fresh + suc (b.unit_size - 1) ≡ b.fresh + b.unit_size = omega arith in
    let starts : grown_next b l ≡ b.fresh = ground arith in
    record {
      to_curr =
          Segment-agree b.next (grown_next b) b.first_block b.curr_block sent
            (old_links b sent l_sent b_sent some_units) h.to_curr;
      to_last =
          Segment-agree b.next (grown_next b) b.curr_block l queued
            (old_links b queued l_queued b_queued some_units) h.to_last;
      around = (
        refl,
        subst (λ k. Segment (grown_next b) k b.first_block (new ++ spare)) (sym starts)
            (Segment-append (grown_next b) b.fresh (b.next l) b.first_block new spare
              (new_links b b.fresh (b.unit_size - 1) b_spare.0 (omega arith) end_is)
              (Segment-agree b.next (grown_next b) (b.next l) b.first_block spare
                (old_links b spare (not_last_spare l spare d_spare.0) b_spare.1 some_units)
                h.around.1)),
      );
      distinct =
          Distinct-append used (l ∷ new ++ spare) d_used
            (
              All-append (λ i. (i == l) ≡ false) new spare
                  (run-Free l b.fresh (suc (b.unit_size - 1)) b_spare.0) d_spare.0,
              Distinct-append new spare (run-Distinct b.fresh (suc (b.unit_size - 1))) d_spare.1
                  (run-apart b.fresh (suc (b.unit_size - 1)) b.fresh spare b_spare.1 (omega arith)),
            )
            (join-All l new spare used apart
              (run-Free-All b.fresh (suc (b.unit_size - 1)) used b_used));
      below =
          All-append (λ i. i < b.fresh + b.unit_size) used (l ∷ new ++ spare)
            (All-imp (λ i. i < b.fresh) (λ i. i < b.fresh + b.unit_size) (λ i lt. omega arith) used
              b_used)
            (
              let l_in = b_spare.0 in omega arith,
              All-append (λ i. i < b.fresh + b.unit_size) new spare
                  (run-Below b.fresh (suc (b.unit_size - 1)) (b.fresh + b.unit_size) (omega arith))
                  (All-imp (λ i. i < b.fresh) (λ i. i < b.fresh + b.unit_size) (λ i lt. omega arith)
                    spare b_spare.1),
            );
      counted = h.counted;
      sized =
          omega
            (arith, h.sized, length-append new spare, length-run b.fresh (suc (b.unit_size - 1)));
    }

-- The loop of `addBuffer` ends with room for `n` more blocks and one block to spare.
pub grow-Holds :
    (fuel : ℕ) (b : SndBuffer) (n : ℕ) (sent queued spare : List ℕ)
    → 1 ≤ b.unit_size
    → 1 ≤ fuel
    → suc (n + b.count) < fuel + b.size
    → Holds b sent queued spare
    → (b' : SndBuffer) × (spare' : List ℕ) × (grow fuel b n ≡ some b')
      × Holds b' sent queued spare'
      × (b'.block ≡ b.block)
      × (b'.mss ≡ b.mss)
      × (b'.next_msg_no ≡ b.next_msg_no)
      × (n ≤ length spare')
unfolding grow
grow-Holds zero b n sent queued spare some_units some_fuel enough h = absurd (omega arith)
grow-Holds (suc fuel) b n sent queued spare some_units some_fuel enough h =
    elim (Bool-cases (leb b.size (n + b.count))) [
      | inl full ↦
          let (b', spare', ends, held, blocks, mss, number, room) =
            grow-Holds fuel (increase b) n sent queued (new_blocks b ++ spare)
              (unfold increase in some_units) (let f = full in ground arith)
              (unfold increase in let f = full in ground arith)
              (increase-Holds b sent queued spare some_units h) in
          (
            b',
            spare',
            rw full ends,
            held,
            unfold increase in blocks,
            unfold increase in mss,
            unfold increase in number,
            room,
          )
      | inr roomy ↦ (
        b,
        spare,
        rw roomy refl,
        h,
        refl,
        refl,
        refl,
        let c = h.counted in let s = h.sized in ground arith,
      )
    ]

circle_links :
    (size mss start n : ℕ)
    → start + suc n ≡ size
    → Segment (create size mss).next start 0 (run start (suc n))
unfolding create
circle_links size mss start zero ends = (refl, ground arith)
circle_links size mss start (suc n) ends =
    let goes : (create size mss).next start ≡ start + 1 = unfold create in ground arith in
    (
      refl,
      subst (λ k. Segment (create size mss).next k 0 (run (start + 1) (suc n))) (sym goes)
          (circle_links size mss (start + 1) n (omega arith)),
    )

-- A new buffer is a circle of spare blocks.
pub create-Holds : (n mss : ℕ) → Holds (create (suc n) mss) [] [] (run 1 n)
unfolding create
create-Holds n mss = record {
  to_curr = refl;
  to_last = refl;
  around = circle_links (suc n) mss 0 n (omega arith);
  distinct = run-Distinct 0 (suc n);
  below = run-Below 0 (suc n) (suc n) (omega arith);
  counted = omega arith;
  sized = omega (arith, length-run 1 n);
}
