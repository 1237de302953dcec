-- ===== src/Seqno/Bounds.antt =====
-- The results of CSeqNo fit an int32_t, on arguments in range.
use uvudt.Common.{ℕ, ◌+◌, ◌≤◌, arith}
use uvudt.Common.Int.{pos, negsuc, ◌≤ℤ◌}
use uvudt.Seqno.{seqlen, seqoff, incseq_by, max_seqno}
use uvudt.Seqno.Circular.{IsOn}

-- For two sequence numbers the offset lies between -0x20000001 and 0x20000001, the length of a
-- range between 1 and 2^30, and a sequence number advanced by another is in range again; so no
-- result leaves an int32_t.
pub seqno_bounds :
    (a b : ℕ)
    → a ≤ max_seqno
    → b ≤ max_seqno
    → (negsuc 0x2000_0000 ≤ℤ seqoff (pos a) (pos b))
      × (seqoff (pos a) (pos b) ≤ℤ pos 0x2000_0001)
      × (pos 1 ≤ℤ seqlen (pos a) (pos b))
      × (seqlen (pos a) (pos b) ≤ℤ pos (max_seqno + 1))
      × IsOn max_seqno (incseq_by (pos a) (pos b))
unfolding seqlen seqoff incseq_by
seqno_bounds a b ha hb = ground arith
