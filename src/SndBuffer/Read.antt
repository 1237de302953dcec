-- ===== src/SndBuffer/Read.antt =====
-- `readData` and `ackData` of CSndBuffer move blocks from one part of the circle to the next.
use uvudt.Common.{
  ℕ, ◌<◌, true, false, Option, some, none, List, [], ◌∷◌, ◌++◌, ◌≡◌, ◌∙◌, refl, sym, ap, arith,
  ◌==◌, length, length-append, append_assoc, append_nil, All, All-append, All-split,
}
use mathlib.Core.Path.{subst}
use uvudt.Common.Int.{pos, leb_ℤ}
use uvudt.SndBuffer.Ring.{
  Segment, Free, Distinct, Below, Holds, Segment-append, Distinct-split, Distinct-append,
}
use uvudt.SndBuffer.{Block, SndBuffer, resend, read_data, read_data_at, ack_data, advance}

-- The block that goes out, and what waits behind it.
abbrev pub head_block : (ℕ → Block) → List ℕ → Option Block
head_block block [] = none
head_block block (q ∷ qs) = some (block q)

abbrev pub tail : List ℕ → List ℕ
tail [] = []
tail (q ∷ qs) = qs

abbrev pub first_one : List ℕ → List ℕ
first_one [] = []
first_one (q ∷ qs) = q ∷ []

curr-ne-last :
    (b : SndBuffer) (sent qs spare : List ℕ) (q : ℕ)
    → Holds b sent (q ∷ qs) spare
    → (b.curr_block == b.last_block) ≡ false
curr-ne-last b sent qs spare q h =
    let (d_used, d_spare, apart) =
      Distinct-split (sent ++ q ∷ qs) (b.last_block ∷ spare) h.distinct in
    let (a_sent, a_queued) = All-split (λ x. Free x (b.last_block ∷ spare)) sent (q ∷ qs) apart in
    let other = a_queued.0.0 in let is_q = h.to_last.0 in ground arith

moved :
    (sent : List ℕ) (q : ℕ) (qs spare : List ℕ)
    → sent ++ q ∷ qs ++ spare ≡ sent ++ q ∷ [] ++ qs ++ spare
moved sent q qs spare = ap (λ l. l ++ spare) (sym (append_assoc sent (q ∷ []) qs))

-- `readData`: the first block that waits goes out and then waits for its ACK; nothing goes out, and
-- nothing changes, where no block waits.
pub read_data-Holds :
    (b : SndBuffer) (sent queued spare : List ℕ)
    → Holds b sent queued spare
    → ((read_data b).0 ≡ head_block b.block queued)
      × Holds (read_data b).1 (sent ++ first_one queued) (tail queued) spare
      × ((read_data b).1.block ≡ b.block)
unfolding read_data
read_data-Holds b sent [] spare h =
    let same : (b.curr_block == b.last_block) ≡ true = (let e = h.to_last in ground arith) in
    rw (same, read_data) (refl, subst (λ l. Holds b l [] spare) (sym (append_nil sent)) h, refl)
read_data-Holds b sent (q ∷ qs) spare h =
    let other = curr-ne-last b sent qs spare q h in
    let goes = h.to_last in
    rw (other, read_data)
      (
        ap (λ k. some (b.block k)) goes.0,
        record {
          to_curr =
              Segment-append b.next b.first_block b.curr_block (b.next b.curr_block) sent (q ∷ [])
                h.to_curr (goes.0, refl);
          to_last = goes.1;
          around = h.around;
          distinct = subst Distinct (moved sent q qs (b.last_block ∷ spare)) h.distinct;
          below = subst (Below b.fresh) (moved sent q qs (b.last_block ∷ spare)) h.below;
          counted = omega (arith, h.counted, length-append sent (q ∷ []));
          sized = omega (arith, h.sized, length-append sent (q ∷ []));
        },
        refl,
      )

-- The links behind the first blocks.
pub Segment-advance :
    (next : ℕ → ℕ) (p q : ℕ) (xs ys : List ℕ)
    → Segment next p q (xs ++ ys)
    → Segment next p (advance next (length xs) p) xs
      × Segment next (advance next (length xs) p) q ys
unfolding advance
Segment-advance next p q [] ys s = (refl, s)
Segment-advance next p q (x ∷ xs) ys s =
    let (front, back) = Segment-advance next (next p) q xs ys s.1 in ((s.0, front), back)

All-Free_nil : (ys : List ℕ) → All (λ y. Free y []) ys
All-Free_nil [] = tt
All-Free_nil (y ∷ ys) = (tt, All-Free_nil ys)

add-Free :
    (x : ℕ) (xs ys : List ℕ) → Free x ys → All (λ y. Free y xs) ys → All (λ y. Free y (x ∷ xs)) ys
add-Free x xs [] f a = tt
add-Free x xs (y ∷ ys) f a = ((let e = f.0 in ground arith, a.0), add-Free x xs ys f.1 a.1)

flip-Free : (xs ys : List ℕ) → All (λ x. Free x ys) xs → All (λ y. Free y xs) ys
flip-Free [] ys a = All-Free_nil ys
flip-Free (x ∷ xs) ys a = add-Free x xs ys a.0 (flip-Free xs ys a.1)

Distinct-rotate : (xs ys : List ℕ) → Distinct (xs ++ ys) → Distinct (ys ++ xs)
Distinct-rotate xs ys d =
    let (dx, dy, apart) = Distinct-split xs ys d in
    Distinct-append ys xs dy dx (flip-Free xs ys apart)

rotated :
    (acked rest queued spare : List ℕ)
    → acked ++ rest ++ queued ++ spare ≡ acked ++ (rest ++ queued ++ spare)
rotated acked rest queued spare =
    ap (λ l. l ++ spare) (append_assoc acked rest queued)
    ∙ append_assoc acked (rest ++ queued) spare

-- `ackData` for blocks that are sent: they are spare again, and the other blocks stay where they are.
pub ack_data_lem :
    (b : SndBuffer) (acked rest queued spare : List ℕ)
    → Holds b (acked ++ rest) queued spare
    → Holds (ack_data b (length acked)) rest queued (spare ++ acked)
unfolding ack_data
ack_data_lem b acked rest queued spare h =
    let l = b.last_block in
    let (front, back) = Segment-advance b.next b.first_block b.curr_block acked rest h.to_curr in
    let apart = rotated acked rest queued (l ∷ spare) in
    let back_again = append_assoc (rest ++ queued) (l ∷ spare) acked in
    let (b_acked, b_others) =
      All-split (λ i. i < b.fresh) acked (rest ++ queued ++ l ∷ spare)
        (subst (Below b.fresh) apart h.below) in
    record {
      to_curr = back;
      to_last = h.to_last;
      around = (
        refl,
        Segment-append b.next (b.next l) b.first_block (advance b.next (length acked) b.first_block)
            spare acked h.around.1 front,
      );
      distinct =
          subst Distinct back_again
            (Distinct-rotate acked (rest ++ queued ++ l ∷ spare) (subst Distinct apart h.distinct));
      below =
          subst (Below b.fresh) back_again
            (All-append (λ i. i < b.fresh) (rest ++ queued ++ l ∷ spare) acked b_others b_acked);
      counted = omega (arith, h.counted, length-append acked rest);
      sized = omega (arith, h.sized, length-append acked rest, length-append spare acked);
    }

-- Reading at an offset gives the block at that place of the circle, where its message does not
-- expire.
pub read_data_at-resend :
    (b : SndBuffer) (xs ys : List ℕ) (p now : ℕ) (sent queued spare : List ℕ)
    → Holds b sent queued spare
    → sent ++ queued ≡ xs ++ p ∷ ys
    → leb_ℤ (pos 0) (b.block p).ttl ≡ false
    → read_data_at b (length xs) now ≡ some (resend (b.block p), b)
unfolding read_data_at
read_data_at-resend b xs ys p now sent queued spare h at endless =
    let whole =
      Segment-append b.next b.first_block b.curr_block b.last_block sent queued h.to_curr
        h.to_last in
    let (front, back) =
      Segment-advance b.next b.first_block b.last_block xs (p ∷ ys)
        (subst (Segment b.next b.first_block b.last_block) at whole) in
    rw (back.0, endless, read_data_at) refl
