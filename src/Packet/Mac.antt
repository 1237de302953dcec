-- ===== src/Packet/Mac.antt =====
-- `setMAC` and `chkMAC` of UDT4/src/packet.cpp, for any digest function.
use uvudt.Common.{
  ℕ, ◌+◌, ◌-◌, ◌/◌, ◌%◌, ◌^◌, ◌<◌, ◌≡◌, ◌≢◌, ◌∙◌, refl, ap, inl, inr, ◌==◌, ◌⊎◌, ◌↔◌, Option, List,
  true, false, arith, if◌then◌else◌, Bool-cases,
}
use uvudt.Common.Int.{pos, minus_one, ◌==ℤ◌}
use uvudt.Packet.{
  Packet, Digest, with_mac, set_mac, chk_mac, mac_of, protected, get_type, is_secure,
}

-- The packet without a MAC and without its security flag.
abbrev pub unsealed : Packet → Packet
unsealed p = with_mac p (if is_secure p then p.header.word0 - 2 ^ 30 else p.header.word0) 0

module _ {Key : Type 0} (md5 : Key → List ℕ → Digest) (key : Key) where
  chk_mac-sealed :
      (p : Packet) (w : ℕ)
      → w / 2 ^ 30 % 2 ≡ 1
      → chk_mac md5 (with_mac p w (mac_of md5 key (with_mac p w 0))) key
        ≡ (pos 1, with_mac p (w - 2 ^ 30) 0)
  unfolding chk_mac
  chk_mac-sealed p w h = ground arith

  -- A packet that `setMAC` has sealed is secure, and `chkMAC` under the same key passes it, and
  -- gives back the packet without the MAC and the security flag.
  pub chk_mac-set_mac :
      (p : Packet)
      → p.header.word0 < 2 ^ 32
      → (is_secure (set_mac md5 p key) ≡ true)
        × (chk_mac md5 (set_mac md5 p key) key ≡ (pos 1, unsealed p))
  unfolding set_mac
  chk_mac-set_mac p h = elim (Bool-cases (is_secure p)) [
    | inl old ↦ rw old (old, chk_mac-sealed p p.header.word0 (ground arith))
    | inr new ↦ rw new (
      ground arith,
      chk_mac-sealed p (p.header.word0 + 2 ^ 30) (ground arith)
          ∙ ap (λ (w : ℕ). (pos 1, with_mac p w 0)) (omega arith),
    )
  ]

  -- The verdict of `chkMAC`: a secure packet passes exactly if its MAC is that of its header and
  -- protected payload; one that is not secure is bypassed if it is a data packet or a handshake,
  -- and fails, unchanged, if it is any other control packet.
  pub chk_mac_verdict :
      (p : Packet)
      → (is_secure p ≡ true
          → ((chk_mac md5 p key).0 ≡ pos 1)
            ↔ (p.header.word4 ≡ mac_of md5 key (with_mac p p.header.word0 0)))
        × (is_secure p ≡ false → (chk_mac md5 p key).1 ≡ p)
        × (is_secure p ≡ false
            → ((chk_mac md5 p key).0 ≡ pos 0)
              ↔ ((p.header.word0 / 2 ^ 31 % 2 ≡ 1) × (get_type p ≢ 0)))
  unfolding chk_mac
  chk_mac_verdict p = ground arith

  -- The payload of a data packet is not protected: whatever is put in its place, the verdict is the
  -- same.
  pub chk_mac_payload :
      (p : Packet) (base : Option (List ℕ)) (len : ℕ)
      → p.header.word0 < 2 ^ 31
      → (chk_mac md5 (record p { base = base; len = len }) key).0 ≡ (chk_mac md5 p key).0
  unfolding chk_mac mac_of protected
  chk_mac_payload p base len h = ground arith

-- A secure packet with another MAC than its own, or a control packet that is not secure and no
-- handshake.
abbrev pub Forged : {Key : Type 0} → (Key → List ℕ → Digest) → Key → Packet → Type 0
Forged md5 key p =
    ((is_secure p ≡ true) × (p.header.word4 ≢ mac_of md5 key (with_mac p p.header.word0 0)))
    ⊎ ((is_secure p ≡ false) × (p.header.word0 / 2 ^ 31 % 2 ≡ 1) × (get_type p ≢ 0))

pub chk_mac-Forged :
    {Key : Type 0} (md5 : Key → List ℕ → Digest) (key : Key) (p : Packet)
    → Forged md5 key p
    → ((chk_mac md5 p key).0 ==ℤ pos 0) ≡ true
unfolding chk_mac
chk_mac-Forged md5 key p (inl (secure, wrong)) = ground (arith, wrong)
chk_mac-Forged md5 key p (inr (open_one, control, type)) = ground (arith, type)

-- A data packet that is not secure is not checked.
pub chk_mac-bypassed :
    {Key : Type 0} (md5 : Key → List ℕ → Digest) (key : Key) (p : Packet)
    → is_secure p ≡ false
    → p.header.word0 < 2 ^ 31
    → chk_mac md5 p key ≡ (minus_one, p)
unfolding chk_mac
chk_mac-bypassed md5 key p open_one data_one =
    let flag : (p.header.word0 / 2 ^ 31 % 2 == 1) ≡ false = ground arith in
    rw (open_one, flag, chk_mac) refl

-- Sealing sets one bit of the first word, and nothing of the payload.
pub set_mac_rest :
    {Key : Type 0} (md5 : Key → List ℕ → Digest) (p : Packet) (key : Key)
    → ((set_mac md5 p key).header.word0 % 2 ^ 30 ≡ p.header.word0 % 2 ^ 30)
      × ((set_mac md5 p key).base ≡ p.base)
unfolding set_mac
set_mac_rest md5 p key = (ground arith, refl)
