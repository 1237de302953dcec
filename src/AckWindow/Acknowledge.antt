-- ===== src/AckWindow/Acknowledge.antt =====
-- `acknowledge` of UDT4/src/window.cpp against the history of ACKs.
use uvudt.Common.{
  ℕ, zero, suc, ◌+◌, ◌-◌, ◌%◌, ◌<◌, ◌≤◌, ◌≡◌, inl, inr, refl, ap, ap₂, ◌∙◌, List, ◌∷◌, Option, none,
  some, arith, mod_once, mod-add-mod, Bool, true, false, Bool-cases, ◌==◌, leb,
}
use uvudt.Common.Int.{ℤ, ◌==ℤ◌}
use uvudt.AckWindow.{AckWindow, acknowledge, first_match, found, missing, round_trip, Acked}
use uvudt.AckWindow.Contents.{Entry, IsValid, entry, slots, count, contents, drop_through}
use uvudt.AckWindow.Store.{slots_round}

-- The search of the array is the search of the history.
data Searched (w : AckWindow) (seq : ℤ) (i k : ℕ) (m : Option ℕ) : Type 0 where
  nowhere : m ≡ none → drop_through seq (slots w i k) ≡ none → Searched w seq i k m
  somewhere :
      (d : ℕ)
      → d < k
      → m ≡ some (i + d)
      → drop_through seq (slots w i k)
        ≡ some (entry w ((i + d) % w.size), slots w (i + d + 1) (k - d - 1))
      → Searched w seq i k m

Searched-next :
    (w : AckWindow) (seq : ℤ) (i k : ℕ) (m : Option ℕ)
    → (seq ==ℤ w.ack_seq_no (i % w.size)) ≡ false
    → Searched w seq (i + 1) k m
    → Searched w seq i (suc k) m
Searched-next w seq i k m ne (nowhere a b) = nowhere a (rw ne b)
Searched-next w seq i k m ne (somewhere d h a b) =
    somewhere (suc d) (omega arith) (a ∙ ap some (omega arith)) (
      rw ne (
        b
        ∙ ap₂ (λ (x y : ℕ). some (entry w (x % w.size), slots w (x + 1) y)) (omega arith)
            (omega arith)))

first_match-Searched :
    (w : AckWindow) (seq : ℤ) (seqs : ℕ → ℤ) (i k : ℕ)
    → ((j : ℕ) → i ≤ j → j < i + k → seqs j ≡ w.ack_seq_no (j % w.size))
    → Searched w seq i k (first_match seqs seq i k)
unfolding first_match
first_match-Searched w seq seqs i zero same = nowhere refl refl
first_match-Searched w seq seqs i (suc k) same =
    elim (Bool-cases (seq ==ℤ w.ack_seq_no (i % w.size))) [
      | inl hit ↦
          somewhere 0 (omega arith)
            (rw (same i (omega arith) (omega arith), hit) (ap some (omega arith)))
            (rw hit (
              ap₂ (λ (x y : ℕ). some (entry w (x % w.size), slots w (x + 1) y)) (omega arith)
                (omega arith)))
      | inr miss ↦ Searched-next w seq i k _ miss (
          rw (same i (omega arith) (omega arith), miss)
            (first_match-Searched w seq seqs (i + 1) k
              λ j lo hi. same j (omega arith) (omega arith)))
    ]

slots-tail : (w : AckWindow) (t i n : ℕ) → slots (record w { tail = t }) i n ≡ slots w i n
slots-tail w t i zero = refl
slots-tail w t i (suc n) = ap (◌∷◌ (entry w (i % w.size))) (slots-tail w t (i + 1) n)

-- The window behind the ACK at distance `d` from the tail.
abbrev behind : AckWindow → ℕ → AckWindow
behind w d = record w { tail = ((w.tail + d) % w.size + 1) % w.size }

module _ (w : AckWindow) (d : ℕ) (v : IsValid w) (h : d < count w) where
  count-behind : count (behind w d) ≡ count w - d - 1
  count-behind =
      ground (arith, mod_once w.size (w.tail + d), mod_once w.size ((w.tail + d) % w.size + 1))

  contents-behind : contents (behind w d) ≡ slots w (w.tail + d + 1) (count w - d - 1)
  contents-behind =
      slots-tail w (behind w d).tail (behind w d).tail (count (behind w d))
      ∙ ap₂ (slots w) (mod-add-mod (w.tail + d) w.size 1) count-behind
      ∙ slots_round w (w.tail + d + 1) (count w - d - 1) (omega arith)

  behind-IsValid : IsValid (behind w d)
  behind-IsValid =
      ground (arith, mod_once w.size ((w.tail + d) % w.size + 1), mod_once w.size (w.tail + d))

-- What `acknowledge` owes to the history: the round trip time and the data ACK of the entry, and
-- a valid window of the newer entries; or -1 and no change.
abbrev pub Answers : AckWindow → ℤ → ℕ → Option (Entry × List Entry) → Acked → Type 0
Answers w ack now none r = r ≡ missing w ack
Answers w ack now (some (e, newer)) r =
    (r.rtt ≡ round_trip now e.stamp)
    × (r.data_ack ≡ e.ack)
    × IsValid r.window
    × (contents r.window ≡ newer)

found-Answers :
    (w : AckWindow) (ack : ℤ) (now d : ℕ) (last : Bool)
    → IsValid w
    → d < count w
    → (last ≡ true → d + 1 ≡ count w)
    → Answers w ack now
        (some (entry w ((w.tail + d) % w.size), slots w (w.tail + d + 1) (count w - d - 1)))
        (found w now last ((w.tail + d) % w.size))
unfolding found
found-Answers w ack now d false v h e =
    (refl, refl, behind-IsValid w d v h, contents-behind w d v h)
found-Answers w ack now d true v h e =
    let none_left : 0 ≡ count w - d - 1 = omega (arith, e refl) in
    (refl, refl, omega arith, ap (slots w (w.tail + d + 1)) none_left)

answer :
    (w : AckWindow) (seq ack : ℤ) (now k : ℕ) (m : Option ℕ) (last : ℕ → Bool) (at : ℕ → ℕ)
    → IsValid w
    → k ≡ count w
    → ((d : ℕ) → d < count w → at (w.tail + d) ≡ (w.tail + d) % w.size)
    → ((d : ℕ) → d < count w → last (w.tail + d) ≡ true → d + 1 ≡ count w)
    → Searched w seq w.tail k m
    → Answers w ack now
        (drop_through seq (slots w w.tail k))
        (elim m [ none ↦ missing w ack | some j ↦ found w now (last j) (at j) ])
answer w seq ack now k m last at v c pos_ok last_ok (nowhere a b) = rw (a, b) refl
answer w seq ack now k m last at v c pos_ok last_ok (somewhere d h a b) =
    rw (a, b, c, pos_ok d (omega arith))
      (found-Answers w ack now d (last (w.tail + d)) v (omega arith) (last_ok d (omega arith)))

-- On a valid window, `acknowledge` answers from the oldest entry of the history with that ACK
-- number: it returns the round trip time since the entry was stored, hands out its data ACK, and
-- leaves a valid window of exactly the newer entries. Where no entry has the number, it returns
-- -1 and changes nothing.
pub acknowledge-Answers :
    (w : AckWindow) (seq ack : ℤ) (now : ℕ)
    → IsValid w
    → Answers w ack now (drop_through seq (contents w)) (acknowledge w seq ack now)
unfolding acknowledge
acknowledge-Answers w seq ack now v = elim (Bool-cases (leb w.tail w.head)) [
  | inl low ↦ rw low (
      answer w seq ack now (w.head - w.tail) (first_match w.ack_seq_no seq w.tail (w.head - w.tail))
        (λ i. i + 1 == w.head) (λ i. i) v (ground arith)
        (λ d h. ground (arith, mod_once w.size (w.tail + d))) (λ d h e. ground arith)
        (first_match-Searched w seq w.ack_seq_no w.tail (w.head - w.tail)
          λ j lo hi. ap w.ack_seq_no (ground (arith, mod_once w.size j))))
  | inr high ↦ rw high (
      answer w seq ack now (w.head + w.size - w.tail)
        (first_match (λ j. w.ack_seq_no (j % w.size)) seq w.tail (w.head + w.size - w.tail))
        (λ j. j % w.size == w.head) (λ j. j % w.size) v (ground arith) (λ d h. refl)
        (λ d h e. ground (arith, mod_once w.size (w.tail + d)))
        (first_match-Searched w seq (λ j. w.ack_seq_no (j % w.size)) w.tail
          (w.head + w.size - w.tail) λ j lo hi. refl))
]
