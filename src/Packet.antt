-- ===== src/Packet.antt =====
-- CPacket of UDT4/src/packet.h and UDT4/src/packet.cpp: the header words, the payload, and the MAC.
-- A word is a number below 2^32. MD5 (UDT4/src/md5.cpp, a library) is the parameter `md5`: the
-- digest of some bytes under a key.
pub mod Pack
pub mod Mac
pub mod Handshake
mod Tests
use Prim.Native.Nat.{bit_or, bit_xor}
use uvudt.Common.{
  ℕ, ◌+◌, ◌-◌, ◌*◌, ◌/◌, ◌%◌, ◌^◌, Bool, true, false, ◌&&◌, not, Option, none, some, List, [], ◌∷◌,
  ◌++◌, ltb, ◌==◌, if◌then◌else◌,
}
use uvudt.Common.Int.{ℤ, pos, minus_one}

-- The five words of the header.
pub record Header : Type 0 where
  pub word0 : ℕ
  pub word1 : ℕ
  pub word2 : ℕ
  pub word3 : ℕ
  pub word4 : ℕ

-- `base` is the payload that `m_PacketVector[1].iov_base` points to, `none` for NULL, and `len` its
-- `iov_len`.
pub record Packet : Type 0 where
  pub header : Header
  pub base : Option (List ℕ)
  pub len : ℕ

pub create : Packet
create = record {
  header = record { word0 = 0; word1 = 0; word2 = 0; word3 = 0; word4 = 0 };
  base = none;
  len = 0;
}

unfoldable pub get_length : Packet → ℕ
get_length p = p.len

pub set_length : Packet → ℕ → Packet
set_length p len = record p { len = len }

-- `__pad`, which is 0.
abbrev pad : List ℕ
pad = 0 ∷ 0 ∷ 0 ∷ 0 ∷ []

abbrev padded : Packet → Packet
padded p = record p { base = some pad; len = 4 }

abbrev with_word0 : Packet → ℕ → Packet
with_word0 p w = record p {
  header = record {
    word0 = w;
    word1 = p.header.word1;
    word2 = p.header.word2;
    word3 = p.header.word3;
    word4 = p.header.word4;
  };
}

abbrev with_word1 : Packet → ℕ → Packet
with_word1 p w = record p {
  header = record {
    word0 = p.header.word0;
    word1 = w;
    word2 = p.header.word2;
    word3 = p.header.word3;
    word4 = p.header.word4;
  };
}

-- `m_nHeader[1] = *(int32_t *)lparam`; `none` is a read through NULL.
abbrev load_word1 : Packet → Option ℕ → Option Packet
load_word1 p none = none
load_word1 p (some w) = some (with_word1 p w)

abbrev map_packet : Option Packet → (Packet → Packet) → Option Packet
map_packet none f = none
map_packet (some p) f = some (f p)

-- The `switch` of `pack`, on the type in 14 bits.
pack_body : Packet → ℕ → Option ℕ → Option (List ℕ) → ℕ → Option Packet
pack_body p type lparam rparam size =
    if type == 2
    then some
        (record (elim lparam [ none ↦ p | some w ↦ with_word1 p w ]) { base = rparam; len = size })
    else if type == 6
    then map_packet (load_word1 p lparam) padded
    else if type == 3
    then some (record p { base = rparam; len = size })
    else if type == 4
    then some (padded p)
    else if type == 1
    then some (padded p)
    else if type == 0
    then some (record p { base = rparam; len = size })
    else if type == 5
    then some (padded p)
    else if type == 7
    then map_packet (load_word1 p lparam) (λ q. record q { base = rparam; len = size })
    else if type == 8
    then map_packet (load_word1 p lparam) padded
    else if type == 16383
    then elim lparam [
      | none ↦ none
      | some w ↦
          let q = with_word0 p (bit_or p.header.word0 w) in
          some (elim rparam [
            | none ↦ padded q
            | some bytes ↦ record q { base = some bytes; len = size }
          ])
    ]
    else some p

-- `0x80000000 | (pkttype << 16)` has disjoint bits.
pub pack : Packet → ℕ → Option ℕ → Option (List ℕ) → ℕ → Option Packet
unfolding pack_body
pack p pkttype lparam rparam size =
    let type = pkttype % 2 ^ 14 in
    pack_body (with_word0 p (0x8000_0000 + type * 2 ^ 16)) type lparam rparam size

pub get_flag : Packet → ℕ
get_flag p = p.header.word0 / 2 ^ 31

unfoldable pub get_type : Packet → ℕ
get_type p = p.header.word0 / 2 ^ 16 % 2 ^ 14

-- The bit 0x40000000 of the first word.
abbrev pub is_secure : Packet → Bool
is_secure p = p.header.word0 / 2 ^ 30 % 2 == 1

pub get_mac : Packet → ℕ
get_mac p = if is_secure p then p.header.word4 else 0

pub get_extended_type : Packet → ℕ
get_extended_type p = p.header.word0 % 2 ^ 16

unfoldable pub get_ack_seq_no : Packet → ℕ
get_ack_seq_no p = p.header.word1

pub get_msg_boundary : Packet → ℕ
get_msg_boundary p = p.header.word1 / 2 ^ 30

pub get_msg_order_flag : Packet → Bool
get_msg_order_flag p = p.header.word1 / 2 ^ 29 % 2 == 1

pub get_msg_seq : Packet → ℕ
get_msg_seq p = p.header.word1 % 2 ^ 29

-- The bytes of a word in the memory of a little-endian machine.
abbrev pub word_bytes : ℕ → List ℕ
word_bytes w = w % 256 ∷ w / 256 % 256 ∷ w / 2 ^ 16 % 256 ∷ w / 2 ^ 24 % 256 ∷ []

pub header_bytes : Header → List ℕ
header_bytes h =
    word_bytes h.word0
    ++ word_bytes h.word1
    ++ word_bytes h.word2
    ++ word_bytes h.word3
    ++ word_bytes h.word4

pub record Digest : Type 0 where
  pub digest0 : ℕ
  pub digest1 : ℕ
  pub digest2 : ℕ
  pub digest3 : ℕ

digest_bytes : Digest → List ℕ
digest_bytes d =
    word_bytes d.digest0 ++ word_bytes d.digest1 ++ word_bytes d.digest2 ++ word_bytes d.digest3

-- The payload is hashed for control packets only, if there is any.
pub protected : Packet → List ℕ
protected p = elim p.base [
  | none ↦ []
  | some bytes ↦ if (p.header.word0 / 2 ^ 31 % 2 == 1) && not (p.len == 0) then bytes else []
]

abbrev with_mac : Packet → ℕ → ℕ → Packet
with_mac p w mac = record p {
  header = record {
    word0 = w;
    word1 = p.header.word1;
    word2 = p.header.word2;
    word3 = p.header.word3;
    word4 = mac;
  };
}

module _ {Key : Type 0} (md5 : Key → List ℕ → Digest) where
  -- The two rounds, over the header as it stands and the protected payload.
  pub mac_of : Key → Packet → ℕ
  unfolding header_bytes digest_bytes protected
  mac_of key p =
      let first = md5 key (header_bytes p.header ++ protected p) in
      let second = md5 key (digest_bytes first) in
      bit_xor (bit_xor (bit_xor second.digest0 second.digest1) second.digest2) second.digest3

  -- `setMAC` returns the MAC, which is in the header too.
  pub set_mac : Packet → Key → Packet
  set_mac p key =
      let cleared =
        with_mac p (if is_secure p then p.header.word0 else p.header.word0 + 2 ^ 30) 0 in
      with_mac cleared cleared.header.word0 (mac_of key cleared)

  -- 1: pass, 0: fail, -1: bypass. A packet that is checked loses its MAC and its security flag.
  pub chk_mac : Packet → Key → ℤ × Packet
  unfolding get_type
  chk_mac p key =
      if is_secure p
      then (let cleared = with_mac p p.header.word0 0 in
          (
            if p.header.word4 == mac_of key cleared then pos 1 else pos 0,
            with_mac cleared (p.header.word0 - 2 ^ 30) 0,
          ))
      else if p.header.word0 / 2 ^ 31 % 2 == 1
      then (if get_type p == 0 then minus_one else pos 0, p)
      else (minus_one, p)
