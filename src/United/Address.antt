-- ===== src/United/Address.antt =====
-- CIPAddress of UDT4/src/common.cpp: the comparison of two addresses, and an address as the four
-- words of a handshake.
use uvudt.Common.{
  ℕ, ◌+◌, ◌*◌, ◌/◌, ◌%◌, ◌<◌, ◌^◌, Bool, true, false, ◌&&◌, List, [], ◌∷◌, ◌==◌, ◌≡◌, refl, ap,
  arith, if◌then◌else◌, length, Bool-cases, inl, inr, ◌∙◌,
}
use uvudt.Common.Int.{to_int, to_word}
use uvudt.Packet.Handshake.{HandShake}
use uvudt.United.Types.{SockAddr}

abbrev pub af_inet : ℕ
af_inet = 2

same_bytes : List ℕ → List ℕ → Bool
same_bytes [] ys = true
same_bytes (x ∷ xs) [] = false
same_bytes (x ∷ xs) (y ∷ ys) = if x == y then same_bytes xs ys else false

unfoldable pub ipcmp : SockAddr → SockAddr → ℕ → Bool
unfolding same_bytes
ipcmp a b version =
    if version == af_inet
    then (a.port == b.port) && (a.addr == b.addr)
    else if a.port == b.port
    then same_bytes a.bytes b.bytes
    else false

-- Four bytes, the last one highest.
bytes_word : ℕ → ℕ → ℕ → ℕ → ℕ
bytes_word a b c d = d * 2 ^ 24 + c * 2 ^ 16 + b * 2 ^ 8 + a

ntop_words : List ℕ → List ℕ
unfolding bytes_word
ntop_words (a ∷ b ∷ c ∷ d ∷ rest) = bytes_word a b c d ∷ ntop_words rest
ntop_words bytes = []

-- `ip` is the array as it was: only its first word is written for IPv4.
unfoldable pub ntop : SockAddr → ℕ → List ℕ → List ℕ
unfolding ntop_words
ntop a version [] = []
ntop a version (w ∷ ip) = if version == af_inet then a.addr ∷ ip else ntop_words a.bytes

word_bytes_of : List ℕ → List ℕ
word_bytes_of [] = []
word_bytes_of (w ∷ ws) =
    w % 2 ^ 8 ∷ w / 2 ^ 8 % 2 ^ 8 ∷ w / 2 ^ 16 % 2 ^ 8 ∷ w / 2 ^ 24 % 2 ^ 8 ∷ word_bytes_of ws

unfoldable pub pton : SockAddr → List ℕ → ℕ → SockAddr
unfolding word_bytes_of
pton a [] version = a
pton a (w ∷ ip) version =
    if version == af_inet
    then record a { addr = w }
    else record a { bytes = word_bytes_of (w ∷ ip) }

-- `hs->m_piPeerIP`
unfoldable pub ip_words : HandShake → List ℕ
ip_words hs = to_word hs.ip0 ∷ to_word hs.ip1 ∷ to_word hs.ip2 ∷ to_word hs.ip3 ∷ []

unfoldable pub with_peer_ip : HandShake → List ℕ → HandShake
with_peer_ip hs (a ∷ b ∷ c ∷ d ∷ rest) = record hs {
  ip0 = to_int a;
  ip1 = to_int b;
  ip2 = to_int c;
  ip3 = to_int d;
}
with_peer_ip hs words = hs

-- Bytes, four by four.
abbrev pub Quads : List ℕ → Type 0
Quads [] = Unit
Quads (a ∷ b ∷ c ∷ d ∷ rest) = (a < 256) × (b < 256) × (c < 256) × (d < 256) × Quads rest
Quads bytes = ⊥

byte_of_word :
    (a b c d : ℕ)
    → a < 256
    → b < 256
    → c < 256
    → d < 256
    → (bytes_word a b c d % 2 ^ 8 ≡ a)
      × (bytes_word a b c d / 2 ^ 8 % 2 ^ 8 ≡ b)
      × (bytes_word a b c d / 2 ^ 16 % 2 ^ 8 ≡ c)
      × (bytes_word a b c d / 2 ^ 24 % 2 ^ 8 ≡ d)
unfolding bytes_word
byte_of_word a b c d ha hb hc hd = (omega arith, omega arith, omega arith, omega arith)

word_bytes_of-ntop_words : (bytes : List ℕ) → Quads bytes → word_bytes_of (ntop_words bytes) ≡ bytes
unfolding word_bytes_of ntop_words
word_bytes_of-ntop_words [] h = refl
word_bytes_of-ntop_words (a ∷ []) h = elim h [ ]
word_bytes_of-ntop_words (a ∷ b ∷ []) h = elim h [ ]
word_bytes_of-ntop_words (a ∷ b ∷ c ∷ []) h = elim h [ ]
word_bytes_of-ntop_words (a ∷ b ∷ c ∷ d ∷ rest) (ha, hb, hc, hd, more) =
    let (ea, eb, ec, ed) = byte_of_word a b c d ha hb hc hd in
    rw (ea, eb, ec, ed) (ap (λ l. a ∷ b ∷ c ∷ d ∷ l) (word_bytes_of-ntop_words rest more))

same_bytes_refl : (xs : List ℕ) → same_bytes xs xs ≡ true
unfolding same_bytes
same_bytes_refl [] = refl
same_bytes_refl (x ∷ xs) = let same : (x == x) ≡ true = ground arith in rw same (same_bytes_refl xs)

pton_of_words :
    (b : SockAddr) (ws : List ℕ) (version : ℕ)
    → (version == af_inet) ≡ false
    → 0 < length ws
    → pton b ws version ≡ record b { bytes = word_bytes_of ws }
unfolding pton
pton_of_words b [] version six some_words = let no_words : ⊥ = omega arith in elim no_words [ ]
pton_of_words b (w ∷ ws) version six some_words = rw (pton, six) refl

words_there : (bytes : List ℕ) → Quads bytes → 0 < length bytes → 0 < length (ntop_words bytes)
unfolding ntop_words
words_there [] h filled = omega arith
words_there (a ∷ []) h filled = elim h [ ]
words_there (a ∷ b ∷ []) h filled = elim h [ ]
words_there (a ∷ b ∷ c ∷ []) h filled = elim h [ ]
words_there (a ∷ b ∷ c ∷ d ∷ rest) h filled = omega arith

-- An address whose bytes come in fours, at least four of them, is written to the words of a handshake,
-- and these are put into another address with the same port: the two compare equal, as IPv4 and as
-- IPv6.
pub ipcmp-pton-ntop :
    (a b : SockAddr) (version w : ℕ) (ip : List ℕ)
    → Quads a.bytes
    → 0 < length a.bytes
    → b.port ≡ a.port
    → ipcmp a (pton b (ntop a version (w ∷ ip)) version) version ≡ true
unfolding ipcmp ntop pton
ipcmp-pton-ntop a b version w ip quads filled port =
    let same_port : (a.port == b.port) ≡ true = ground (arith, port) in
    elim (Bool-cases (version == af_inet)) [
      | inl four ↦
          let same_addr : (a.addr == a.addr) ≡ true = ground arith in
          let arrives : pton b (ntop a version (w ∷ ip)) version ≡ record b { addr = a.addr } =
            rw (four, pton, four) refl in
          ap (λ (c : SockAddr). ipcmp a c version) arrives
          ∙ rw (ipcmp, four, same_port, same_addr) refl
      | inr six ↦
          let arrives : pton b (ntop a version (w ∷ ip)) version ≡ record b { bytes = a.bytes } =
            rw six (
              pton_of_words b (ntop_words a.bytes) version six (words_there a.bytes quads filled)
              ∙ ap (λ (l : List ℕ). record b { bytes = l })
                  (word_bytes_of-ntop_words a.bytes quads)) in
          ap (λ (c : SockAddr). ipcmp a c version) arrives
          ∙ rw (ipcmp, six, same_port) (same_bytes_refl a.bytes)
    ]
