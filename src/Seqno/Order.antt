-- ===== src/Seqno/Order.antt =====
-- How the comparisons of UDT4/src/common.h fit together.
use uvudt.Common.{ℕ, ◌+◌, ◌≡◌, ◌≤◌, ◌<◌, ◌↔◌, ◌⊎◌, inl, inr, arith}
use uvudt.Common.Int.{ℤ, pos, pos_part, ◌+ℤ◌, ◌-ℤ◌, ◌≤ℤ◌, ◌<ℤ◌}
use uvudt.Seqno.{seqcmp, seqlen, seqoff, incseq_by, max_seqno, msgcmp, msglen, msgoff, max_msgno}

-- Swapping the arguments negates the comparison, whatever the integers are.
pub seqcmp_antisym : (a b : ℤ) → seqcmp a b ≡ pos 0 -ℤ seqcmp b a
unfolding seqcmp
seqcmp_antisym a b = ground arith

-- Two numbers of the circle compare as equal exactly when they are the same.
pub seqcmp-zero_iff : (a b : ℕ) → (seqcmp (pos a) (pos b) ≡ pos 0) ↔ (a ≡ b)
unfolding seqcmp
seqcmp-zero_iff a b = ground arith

-- For two sequence numbers, the comparison puts the second behind the first exactly when the
-- offset from the first to the second is positive, and before it exactly when it is negative.
pub seqcmp-seqoff :
    (a b : ℕ)
    → a ≤ max_seqno
    → b ≤ max_seqno
    → ((pos 0 <ℤ seqoff (pos a) (pos b)) ↔ (seqcmp (pos a) (pos b) <ℤ pos 0))
      × ((seqoff (pos a) (pos b) <ℤ pos 0) ↔ (pos 0 <ℤ seqcmp (pos a) (pos b)))
unfolding seqcmp seqoff
seqcmp-seqoff a b ha hb = ground arith

-- For two sequence numbers whose offset is not negative, to go on from the first by the offset
-- reaches the second, and the length of the range is the offset plus one.
pub incseq_by-seqoff :
    (a b : ℕ)
    → a ≤ max_seqno
    → b ≤ max_seqno
    → pos 0 ≤ℤ seqoff (pos a) (pos b)
    → (incseq_by (pos a) (seqoff (pos a) (pos b)) ≡ pos b)
      × (seqlen (pos a) (pos b) ≡ seqoff (pos a) (pos b) +ℤ pos 1)
unfolding seqoff seqlen incseq_by
incseq_by-seqoff a b ha hb h = ground arith

-- What an offset that is not negative says of the two numbers.
pub seqoff_inv :
    (a b : ℕ)
    → a ≤ max_seqno
    → b ≤ max_seqno
    → pos 0 ≤ℤ seqoff (pos a) (pos b)
    → (k : ℕ) × (seqoff (pos a) (pos b) ≡ pos k) × ((b ≡ a + k) ⊎ (b + 0x4000_0000 ≡ a + k))
seqoff_inv a b ha hb h = (
  pos_part (seqoff (pos a) (pos b)),
  unfold seqoff in ground arith,
  unfold seqoff in ground arith,
)

-- The other way round, below the threshold.
pub seqoff_of_gap :
    (a b k : ℕ)
    → a ≤ max_seqno
    → b ≤ max_seqno
    → k < 0x1fff_ffff
    → (b ≡ a + k) ⊎ (b + 0x4000_0000 ≡ a + k)
    → seqoff (pos a) (pos b) ≡ pos k
unfolding seqoff
seqoff_of_gap a b k ha hb hk (inl e) = ground arith
seqoff_of_gap a b k ha hb hk (inr e) = ground arith

-- For three sequence numbers, offsets add up where each of the two offsets is not negative and
-- their sum is below the threshold 0x1fffffff.
pub seqoff_add :
    (a b c : ℕ)
    → a ≤ max_seqno
    → b ≤ max_seqno
    → c ≤ max_seqno
    → pos 0 ≤ℤ seqoff (pos a) (pos b)
    → pos 0 ≤ℤ seqoff (pos b) (pos c)
    → seqoff (pos a) (pos b) +ℤ seqoff (pos b) (pos c) <ℤ pos 0x1fff_ffff
    → seqoff (pos a) (pos c) ≡ seqoff (pos a) (pos b) +ℤ seqoff (pos b) (pos c)
seqoff_add a b c ha hb hc p q r =
    let (j, ej, gj) = seqoff_inv a b ha hb p in
    let (k, ek, gk) = seqoff_inv b c hb hc q in
    let sum : pos j +ℤ pos k ≡ pos (j + k) = unfold ◌+ℤ◌ in ground arith in
    let below = rw (ej, ek, sum) at r in
    let small : j + k < 0x1fff_ffff = omega arith in
    rw (ej, ek, sum) (seqoff_of_gap a c (j + k) ha hc small (omega arith))

-- The laws of `seqcmp-seqoff` and `incseq_by-seqoff` for message numbers.
pub msgcmp-msgoff :
    (a b : ℕ)
    → a ≤ max_msgno
    → b ≤ max_msgno
    → ((pos 0 <ℤ msgoff (pos a) (pos b)) ↔ (msgcmp (pos a) (pos b) <ℤ pos 0))
      × (pos 0 ≤ℤ msgoff (pos a) (pos b) → msglen (pos a) (pos b) ≡ msgoff (pos a) (pos b) +ℤ pos 1)
unfolding msgcmp msgoff msglen
msgcmp-msgoff a b ha hb = ground arith
