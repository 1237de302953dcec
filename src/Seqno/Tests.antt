-- ===== src/Seqno/Tests.antt =====
-- Runs of the arithmetic of sequence numbers, and its theorems at concrete numbers.
use uvudt.Common.{◌≡◌, refl}
use uvudt.Common.Int.{pos, ◌-ℤ◌}
use uvudt.Seqno.{seqcmp, seqoff}
use uvudt.Seqno.Order.{seqcmp_antisym}

-- From the last number but one past the end of the circle.
seqoff_wraps : seqoff (pos 0x3fff_fffe) (pos 3) ≡ pos 5
unfolding seqoff
seqoff_wraps = refl

seqcmp_antisym_example : seqcmp (pos 7) (pos 9) ≡ pos 0 -ℤ seqcmp (pos 9) (pos 7)
seqcmp_antisym_example = seqcmp_antisym (pos 7) (pos 9)
