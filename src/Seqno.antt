-- ===== src/Seqno.antt =====
-- The numbers of UDT4/src/common.h: CSeqNo, CAckNo and CMsgNo, with the constants of
-- UDT4/src/udt_core.cpp. An `int` is an integer; `Bounds` is about its range.
pub mod Circular
pub mod Order
pub mod Steps
pub mod Bounds
mod Tests
use uvudt.Common.{ℕ, Bool, if◌then◌else◌}
use uvudt.Common.Int.{ℤ, pos, ◌+ℤ◌, ◌-ℤ◌, ltb_ℤ, leb_ℤ, ◌==ℤ◌, abs}
use Circular.{cmp, len, off, next, prev, ahead}

-- CSeqNo::m_iSeqNoTH and CSeqNo::m_iMaxSeqNo: 30 bits.
abbrev pub seqno_th : ℕ
seqno_th = 0x1fff_ffff

abbrev pub max_seqno : ℕ
max_seqno = 0x3fff_ffff

abbrev pub max_ack_seqno : ℕ
max_ack_seqno = 0x3fff_ffff

abbrev pub msgno_th : ℕ
msgno_th = 0xfff_ffff

abbrev pub max_msgno : ℕ
max_msgno = 0x1fff_ffff

unfoldable pub seqcmp : ℤ → ℤ → ℤ
unfolding cmp
seqcmp = cmp seqno_th

unfoldable pub seqlen : ℤ → ℤ → ℤ
unfolding len
seqlen = len max_seqno

unfoldable pub seqoff : ℤ → ℤ → ℤ
unfolding off
seqoff = off seqno_th max_seqno

unfoldable pub incseq : ℤ → ℤ
unfolding next
incseq = next max_seqno

unfoldable pub decseq : ℤ → ℤ
unfolding prev
decseq = prev max_seqno

-- The overload `incseq(seq, inc)`.
unfoldable pub incseq_by : ℤ → ℤ → ℤ
unfolding ahead
incseq_by = ahead max_seqno

unfoldable pub incack : ℤ → ℤ
unfolding next
incack = next max_ack_seqno

unfoldable pub msgcmp : ℤ → ℤ → ℤ
unfolding cmp
msgcmp = cmp msgno_th

unfoldable pub msglen : ℤ → ℤ → ℤ
unfolding len
msglen = len max_msgno

unfoldable pub msgoff : ℤ → ℤ → ℤ
unfolding off
msgoff = off msgno_th max_msgno

unfoldable pub incmsg : ℤ → ℤ
unfolding next
incmsg = next max_msgno
