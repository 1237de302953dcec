-- ===== src/Packet/Pack.antt =====
-- What the readers of a packet see of `pack`.
use uvudt.Common.{
  Option-cases, inl, inr, ℕ, ◌+◌, ◌*◌, ◌%◌, ◌^◌, ◌<◌, ◌≡◌, ◌≢◌, ◌↔◌, ◌⊎◌, Option, none, some, List,
  false, arith, ◌==◌,
}
use uvudt.Packet.{
  Packet, pack, pack_body, get_flag, get_type, get_mac, get_extended_type, get_msg_boundary,
  get_msg_order_flag, get_msg_seq, is_secure,
}

pack_body-word0 :
    (p q : Packet) (type : ℕ) (lparam : Option ℕ) (rparam : Option (List ℕ)) (size : ℕ)
    → type ≢ 16383
    → pack_body p type lparam rparam size ≡ some q
    → q.header.word0 ≡ p.header.word0
unfolding pack_body
pack_body-word0 p q type lparam rparam size h e = ground arith

-- A packet that `pack` makes, of another type than 0x3fff for user-defined packets, is a control
-- packet of the type asked for, in 14 bits; it is not secure, has no MAC and no extended type.
pub pack_lem :
    (p q : Packet) (pkttype : ℕ) (lparam : Option ℕ) (rparam : Option (List ℕ)) (size : ℕ)
    → pkttype % 2 ^ 14 ≢ 16383
    → pack p pkttype lparam rparam size ≡ some q
    → (get_flag q ≡ 1)
      × (get_type q ≡ pkttype % 2 ^ 14)
      × (is_secure q ≡ false)
      × (get_mac q ≡ 0)
      × (get_extended_type q ≡ 0)
unfolding pack get_flag get_type get_mac get_extended_type
pack_lem p q pkttype lparam rparam size h e =
    let w = pack_body-word0 _ q (pkttype % 2 ^ 14) lparam rparam size h e in ground (arith, w)

-- `pack` fails, by a read through NULL, exactly for the types 6, 7, 8 and 0x3fff without `lparam`.
pub pack_fails :
    (p : Packet) (pkttype : ℕ) (lparam : Option ℕ) (rparam : Option (List ℕ)) (size : ℕ)
    → (pack p pkttype lparam rparam size ≡ none) ↔ (
        (lparam ≡ none)
        × ((pkttype % 2 ^ 14 ≡ 6)
            ⊎ (pkttype % 2 ^ 14 ≡ 7)
            ⊎ (pkttype % 2 ^ 14 ≡ 8)
            ⊎ (pkttype % 2 ^ 14 ≡ 16383)))
unfolding pack pack_body
pack_fails p pkttype none rparam size = ground arith
pack_fails p pkttype (some w) rparam size = ground arith

-- With `lparam`, or for a type that does not read it, there is a packet.
pub pack_given :
    (p : Packet) (pkttype w : ℕ) (rparam : Option (List ℕ)) (size : ℕ)
    → (q : Packet) × (pack p pkttype (some w) rparam size ≡ some q)
pack_given p pkttype w rparam size = elim (Option-cases (pack p pkttype (some w) rparam size)) [
  | inl failed ↦ let given = ((pack_fails p pkttype (some w) rparam size).0 failed).0 in absurd cc
  | inr found ↦ found
]

pub pack_small :
    (p : Packet) (pkttype : ℕ) (rparam : Option (List ℕ)) (size : ℕ)
    → pkttype < 6
    → (q : Packet) × (pack p pkttype none rparam size ≡ some q)
pack_small p pkttype rparam size h = elim (Option-cases (pack p pkttype none rparam size)) [
  | inl failed ↦
      let types = ((pack_fails p pkttype none rparam size).0 failed).1 in
      absurd (ground (arith, types))
  | inr found ↦ found
]

-- The four fields of the message word of a data packet are read back: the boundary bits, the order
-- bit and the message number.
pub message_word :
    (p : Packet) (boundary order number : ℕ)
    → boundary < 4
    → order < 2
    → number < 2 ^ 29
    → p.header.word1 ≡ boundary * 2 ^ 30 + order * 2 ^ 29 + number
    → (get_msg_boundary p ≡ boundary)
      × (get_msg_order_flag p ≡ (order == 1))
      × (get_msg_seq p ≡ number)
unfolding get_msg_boundary get_msg_order_flag get_msg_seq
message_word p boundary order number hb ho hn e = ground arith
