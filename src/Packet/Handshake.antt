-- ===== src/Packet/Handshake.antt =====
-- CHandShake of UDT4/src/packet.h and UDT4/src/packet.cpp: the handshake as twelve words.
use uvudt.Common.{ℕ, ◌<◌, ◌≤◌, ◌≡◌, Option, none, some, List, [], ◌∷◌, arith, ltb, if◌then◌else◌}
use uvudt.Common.Int.{ℤ, pos, minus_one}

pub record HandShake : Type 0 where
  pub version : ℤ
  pub type : ℤ
  pub isn : ℤ
  pub mss : ℤ
  pub flight_flag_size : ℤ
  pub req_type : ℤ
  pub id : ℤ
  pub cookie : ℤ
  pub ip0 : ℤ
  pub ip1 : ℤ
  pub ip2 : ℤ
  pub ip3 : ℤ

abbrev pub content_size : ℕ
content_size = 48

unfoldable pub create : HandShake
create = record {
  version = pos 0;
  type = pos 0;
  isn = pos 0;
  mss = pos 0;
  flight_flag_size = pos 0;
  req_type = pos 0;
  id = pos 0;
  cookie = pos 0;
  ip0 = pos 0;
  ip1 = pos 0;
  ip2 = pos 0;
  ip3 = pos 0;
}

-- What a call of `serialize` leaves: its return value, the words of the buffer, and `size`.
pub record Written : Type 0 where
  pub status : ℤ
  pub words : List ℤ
  pub size : ℕ

-- The words from the thirteenth on are left as they were.
abbrev skip_content : List ℤ → List ℤ
skip_content (a ∷ b ∷ c ∷ d ∷ e ∷ f ∷ g ∷ h ∷ i ∷ j ∷ k ∷ l ∷ rest) = rest
skip_content other = []

unfoldable pub serialize : HandShake → List ℤ → ℕ → Written
serialize h buf size =
    if ltb size content_size
    then record { status = minus_one; words = buf; size = size }
    else record {
      status = pos 0;
      words =
          h.version
          ∷ h.type
          ∷ h.isn
          ∷ h.mss
          ∷ h.flight_flag_size
          ∷ h.req_type
          ∷ h.id
          ∷ h.cookie
          ∷ h.ip0
          ∷ h.ip1
          ∷ h.ip2
          ∷ h.ip3
          ∷ skip_content buf;
      size = content_size;
    }

-- The fields from the words; `none` is a read past the end of the buffer.
unfoldable pub read_words : List ℤ → Option HandShake
read_words (a ∷ b ∷ c ∷ d ∷ e ∷ f ∷ g ∷ h ∷ i ∷ j ∷ k ∷ l ∷ rest) = some (record {
  version = a;
  type = b;
  isn = c;
  mss = d;
  flight_flag_size = e;
  req_type = f;
  id = g;
  cookie = h;
  ip0 = i;
  ip1 = j;
  ip2 = k;
  ip3 = l;
})
read_words other = none

-- The return value and the handshake after the call.
unfoldable pub deserialize : HandShake → List ℤ → ℕ → Option (ℤ × HandShake)
unfolding read_words
deserialize h buf size =
    if ltb size content_size
    then some (minus_one, h)
    else elim (read_words buf) [ none ↦ none | some h' ↦ some (pos 0, h') ]

-- A handshake that was written is read back whole, by any handshake object. Where the buffer is
-- said to be smaller than 48 bytes, writing fails with -1 and changes nothing, and so does reading.
pub deserialize-serialize :
    (h old : HandShake) (buf : List ℤ) (size : ℕ)
    → (content_size ≤ size
        → deserialize old (serialize h buf size).words (serialize h buf size).size
          ≡ some (pos 0, h))
      × (size < content_size
          → (serialize h buf size ≡ record { status = minus_one; words = buf; size = size })
            × (deserialize old buf size ≡ some (minus_one, old)))
unfolding serialize deserialize
deserialize-serialize h old buf size = ground arith
