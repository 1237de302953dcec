-- ===== src/AckWindow/Contents.antt =====
-- The ACKs that a window holds, oldest first, and what the two operations do to them.
use uvudt.Common.{
  ℕ, zero, suc, ◌+◌, ◌-◌, ◌%◌, ◌<◌, List, [], ◌∷◌, ◌++◌, Option, none, some, leb, ◌==◌,
  if◌then◌else◌, length,
}
use uvudt.Common.Int.{ℤ, ◌==ℤ◌}
use uvudt.AckWindow.{AckWindow}

pub record Entry : Type 0 where
  pub seq : ℤ
  pub ack : ℤ
  pub stamp : ℕ

pub record IsValid (w : AckWindow) : Type 0 where
  pub head_in : w.head < w.size
  pub tail_in : w.tail < w.size

abbrev pub entry : AckWindow → ℕ → Entry
entry w i = record { seq = w.ack_seq_no i; ack = w.ack i; stamp = w.time_stamp i }

-- The `n` entries from index `i` on.
abbrev pub slots : AckWindow → ℕ → ℕ → List Entry
slots w i zero = []
slots w i (suc n) = entry w (i % w.size) ∷ slots w (i + 1) n

abbrev pub count : AckWindow → ℕ
count w = if leb w.tail w.head then w.head - w.tail else w.head + w.size - w.tail

abbrev pub contents : AckWindow → List Entry
contents w = slots w w.tail (count w)

-- A history of ACKs of at most `size - 1` entries: the oldest one makes room.
abbrev pub drop_oldest : List Entry → List Entry
drop_oldest [] = []
drop_oldest (e ∷ es) = es

abbrev pub remember : ℕ → List Entry → Entry → List Entry
remember size es e = if length es + 1 == size then drop_oldest (es ++ e ∷ []) else es ++ e ∷ []

-- The oldest ACK with the number `seq`, and the ones that are newer than it.
abbrev pub drop_through : ℤ → List Entry → Option (Entry × List Entry)
drop_through seq [] = none
drop_through seq (e ∷ es) = if seq ==ℤ e.seq then some (e, es) else drop_through seq es
