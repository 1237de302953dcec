-- ===== src/Connection/Wire.antt =====
-- The words of a control packet's payload, as `int`s in the memory of a little-endian machine.
use uvudt.Common.{ℕ, ◌+◌, ◌*◌, ◌^◌, ◌<◌, Option, none, some, List, [], ◌∷◌, ◌++◌, ◌≡◌, arith, drop}
use uvudt.Common.Int.{ℤ, pos, negsuc, to_int, to_word}
use uvudt.Packet.{Packet, word_bytes}

-- `*(int32_t *)p`
unfoldable pub read_int : List ℕ → Option ℤ
read_int [] = none
read_int (a ∷ []) = none
read_int (a ∷ b ∷ []) = none
read_int (a ∷ b ∷ c ∷ []) = none
read_int (a ∷ b ∷ c ∷ d ∷ rest) = some (to_int (a + b * 2 ^ 8 + c * 2 ^ 16 + d * 2 ^ 24))

-- `((int32_t *)m_pcData)[i]`
unfoldable pub load : Packet → ℕ → Option ℤ
unfolding read_int
load p i = elim p.base [ none ↦ none | some bytes ↦ read_int (drop (4 * i) bytes) ]

-- The whole payload as an array of `int`s.
pub ints : List ℕ → List ℤ
ints (a ∷ b ∷ c ∷ d ∷ rest) = to_int (a + b * 2 ^ 8 + c * 2 ^ 16 + d * 2 ^ 24) ∷ ints rest
ints other = []

pub payload_ints : Packet → List ℤ
unfolding ints
payload_ints p = elim p.base [ none ↦ [] | some bytes ↦ ints bytes ]

-- The bytes of an array of `int`s.
unfoldable pub int_bytes : List ℤ → List ℕ
int_bytes [] = []
int_bytes (x ∷ xs) = word_bytes (to_word x) ++ int_bytes xs

-- An `int32_t`.
abbrev pub IsInt : ℤ → Type 0
IsInt (pos n) = n < 2 ^ 31
IsInt (negsuc n) = n < 2 ^ 31

to_int-to_word : (x : ℤ) → IsInt x → to_int (to_word x) ≡ x
unfolding to_int to_word
to_int-to_word (pos n) h = ground arith
to_int-to_word (negsuc n) h = ground arith
