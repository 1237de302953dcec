-- ===== src/Seqno/Circular.antt =====
-- The arithmetic that CSeqNo and CMsgNo of UDT4/src/common.h share: numbers from 0 to `top` on a
-- circle, compared by a threshold `th`.
use uvudt.Common.{ℕ, if◌then◌else◌}
use uvudt.Common.Int.{ℤ, pos, ◌+ℤ◌, ◌-ℤ◌, ◌≤ℤ◌, ltb_ℤ, leb_ℤ, ◌==ℤ◌, abs}

unfoldable pub cmp : ℕ → ℤ → ℤ → ℤ
unfolding ◌-ℤ◌ abs
cmp th a b = if ltb_ℤ (abs (a -ℤ b)) (pos th) then a -ℤ b else b -ℤ a

unfoldable pub len : ℕ → ℤ → ℤ → ℤ
unfolding ◌-ℤ◌ ◌+ℤ◌
len top a b = if leb_ℤ a b then b -ℤ a +ℤ pos 1 else b -ℤ a +ℤ pos top +ℤ pos 2

unfoldable pub off : ℕ → ℕ → ℤ → ℤ → ℤ
unfolding ◌-ℤ◌ ◌+ℤ◌ abs
off th top a b =
    if ltb_ℤ (abs (a -ℤ b)) (pos th)
    then b -ℤ a
    else if ltb_ℤ a b
    then b -ℤ a -ℤ pos top -ℤ pos 1
    else b -ℤ a +ℤ pos top +ℤ pos 1

unfoldable pub next : ℕ → ℤ → ℤ
unfolding ◌+ℤ◌
next top a = if a ==ℤ pos top then pos 0 else a +ℤ pos 1

unfoldable pub prev : ℕ → ℤ → ℤ
unfolding ◌-ℤ◌
prev top a = if a ==ℤ pos 0 then pos top else a -ℤ pos 1

unfoldable pub ahead : ℕ → ℤ → ℤ → ℤ
unfolding ◌-ℤ◌ ◌+ℤ◌
ahead top a n = if leb_ℤ n (pos top -ℤ a) then a +ℤ n else a -ℤ pos top +ℤ n -ℤ pos 1

-- On the circle.
abbrev pub IsOn : ℕ → ℤ → Type 0
IsOn top a = (pos 0 ≤ℤ a) × (a ≤ℤ pos top)
