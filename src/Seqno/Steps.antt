-- ===== src/Seqno/Steps.antt =====
-- Single steps on the circle of sequence, ACK and message numbers.
use uvudt.Common.{ℕ, ◌+◌, ◌%◌, ◌^◌, ◌≡◌, ◌∙◌, ap, ◌≤◌, arith}
use uvudt.Common.Int.{pos, negsuc, ◌≤ℤ◌}
use uvudt.Seqno.{incseq, decseq, incseq_by, seqoff, seqcmp, max_seqno}
use uvudt.Seqno.Circular.{IsOn}

-- One step forward of a sequence number stays in range, one step back undoes it and the other way
-- round, and the offset and the comparison see the step as one.
pub incseq_lem :
    (a : ℕ)
    → a ≤ max_seqno
    → IsOn max_seqno (incseq (pos a))
      × (decseq (incseq (pos a)) ≡ pos a)
      × (incseq (decseq (pos a)) ≡ pos a)
      × (seqoff (pos a) (incseq (pos a)) ≡ pos 1)
      × (seqcmp (pos a) (incseq (pos a)) ≤ℤ negsuc 0)
unfolding incseq decseq seqoff seqcmp
incseq_lem a h = ground arith

-- A sequence number advanced by up to 2^30 - 1 is the sum modulo 2^30, and so is one advanced by
-- one with `incseq`.
pub incseq_by-mod :
    (a n : ℕ)
    → a ≤ max_seqno
    → n ≤ max_seqno
    → (incseq_by (pos a) (pos n) ≡ pos ((a + n) % 2 ^ 30))
      × (incseq (pos a) ≡ pos ((a + 1) % 2 ^ 30))
unfolding incseq incseq_by
incseq_by-mod a n ha hn = (ground arith, ground arith)

-- To go on by `m` and then by `n` is to go on by their sum, where the sum is below 2^30.
pub incseq_by-add :
    (a m n : ℕ)
    → a ≤ max_seqno
    → m + n ≤ max_seqno
    → incseq_by (incseq_by (pos a) (pos m)) (pos n) ≡ incseq_by (pos a) (pos (m + n))
incseq_by-add a m n ha h =
    rw ((incseq_by-mod a m ha (omega arith)).0, (incseq_by-mod a (m + n) ha h).0)
      ((incseq_by-mod ((a + m) % 2 ^ 30) n (omega arith) (omega arith)).0 ∙ ap pos (omega arith))
