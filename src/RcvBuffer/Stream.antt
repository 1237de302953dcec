-- ===== src/RcvBuffer/Stream.antt =====
-- The received bytes as a stream that `readBuffer` of CRcvBuffer takes from.
use uvudt.Common.{
  ℕ, zero, suc, ◌+◌, ◌-◌, ◌≤◌, true, false, ◌||◌, Option, none, some, List, [], ◌∷◌, ◌++◌, ◌≡◌, ◌∙◌,
  refl, sym, ap, arith, ltb, ◌==◌, length, take, drop, write, Bool-cases, inl, inr, take-0, drop-0,
  take_all, append_nil, Option-cases, take-append_short, take-append_long, drop-append_short,
  drop-append_long, drop-drop, length-drop,
}
use uvudt.RcvBuffer.{
  RcvUnit, RcvBuffer, step_pos, release_unit, unit_size, after_unit, joined, read_units,
  read_buffer,
}

-- None of the `n` slots from `p` on is `r`.
abbrev pub Unseen : ℕ → ℕ → ℕ → ℕ → Type 0
Unseen size r p zero = Unit {0}
Unseen size r p (suc n) = ((p == r) ≡ false) × Unseen size r (step_pos size p) n

-- The slots from `p` to `q` hold the units, and none twice.
abbrev pub Stored : (ℕ → Option RcvUnit) → ℕ → ℕ → ℕ → List RcvUnit → Type 0
Stored units size p q [] = p ≡ q
Stored units size p q (u ∷ us) =
    (units p ≡ some u)
    × ((p == q) ≡ false)
    × Unseen size p (step_pos size p) (length us)
    × Stored units size (step_pos size p) q us

abbrev pub bytes : List RcvUnit → List ℕ
bytes [] = []
bytes (u ∷ us) = u.pc_data ++ bytes us

-- The notch is within the first unit, and 0 without units.
abbrev pub Notched : ℕ → List RcvUnit → Type 0
Notched notch [] = notch ≡ 0
Notched notch (u ∷ us) = notch ≤ length u.pc_data

-- The buffer holds the acknowledged units, of which the notch's bytes are read.
pub record Holds (b : RcvBuffer) (us : List RcvUnit) : Type 0 where
  pub stored : Stored b.units b.size b.start_pos b.last_ack_pos us
  pub notched : Notched b.notch us

-- The bytes that wait for the reader.
abbrev pub waiting : RcvBuffer → List RcvUnit → List ℕ
waiting b us = drop b.notch (bytes us)

-- What reading `len` bytes gives, and the buffer that it leaves.
pub record Read (b : RcvBuffer) (us : List RcvUnit) (len : ℕ) (result : Option (List ℕ × RcvBuffer))
    : Type 0 where
  pub after : RcvBuffer
  pub left : List RcvUnit
  pub returned : result ≡ some (take len (waiting b us), after)
  pub holds : Holds after left
  pub remaining : waiting after left ≡ drop len (waiting b us)

Stored-write :
    (units : ℕ → Option RcvUnit) (size p q r : ℕ) (us : List RcvUnit)
    → Unseen size r p (length us)
    → Stored units size p q us
    → Stored (write units r none) size p q us
Stored-write units size p q r [] unseen stored = stored
Stored-write units size p q r (u ∷ us) unseen stored = (
  rw (unseen.0) (stored.0),
  stored.1,
  stored.2,
  Stored-write units size (step_pos size p) q r us unseen.1 stored.3,
)

-- Nothing to read, or nothing asked for.
read_nothing :
    (fuel : ℕ) (b : RcvBuffer) (len : ℕ)
    → ((b.start_pos == b.last_ack_pos || len == 0) ≡ true)
    → read_units (suc fuel) b len ≡ some ([], b)
unfolding read_units
read_nothing fuel b len h = elim (Option-cases (b.units b.start_pos)) [
  | inl gone ↦ rw (gone, read_units) (rw h refl)
  | inr (u, there) ↦ rw (there, read_units) (rw h refl)
]

read_unit :
    (fuel : ℕ) (b : RcvBuffer) (len : ℕ) (u : RcvUnit)
    → b.units b.start_pos ≡ some u
    → ((b.start_pos == b.last_ack_pos || len == 0) ≡ false)
    → b.notch ≤ length u.pc_data
    → read_units (suc fuel) b len
      ≡ joined
          (take (unit_size b u len) (drop b.notch u.pc_data))
          (read_units fuel (after_unit b u len) (len - unit_size b u len))
unfolding read_units
read_unit fuel b len u there goes notched =
    let within : ltb (length u.pc_data) b.notch ≡ false = ground arith in
    rw (there, read_units) (rw (goes, within) refl)

-- The unit is read to its end.
read_whole :
    (b : RcvBuffer) (len : ℕ) (u : RcvUnit)
    → length u.pc_data - b.notch ≤ len
    → (unit_size b u len ≡ length u.pc_data - b.notch) × (after_unit b u len ≡ release_unit b u)
unfolding unit_size after_unit
read_whole b len u enough =
    let all : ltb len (length u.pc_data - b.notch) ≡ false = ground arith in
    (rw all refl, rw all (ground arith))

-- The unit holds more than what is asked for.
read_part :
    (b : RcvBuffer) (len : ℕ) (u : RcvUnit)
    → suc len ≤ length u.pc_data - b.notch
    → (unit_size b u len ≡ len) × (after_unit b u len ≡ record b { notch = b.notch + len })
unfolding unit_size after_unit
read_part b len u more =
    let part : ltb len (length u.pc_data - b.notch) ≡ true = ground arith in
    (rw part refl, rw part (ground arith))

release_unit-Holds :
    (b : RcvBuffer) (u : RcvUnit) (us : List RcvUnit)
    → Holds b (u ∷ us)
    → Holds (release_unit b u) us
unfolding release_unit
release_unit-Holds b u us held = record {
  stored =
      Stored-write b.units b.size (step_pos b.size b.start_pos) b.last_ack_pos b.start_pos us
        (held.stored.2) (held.stored.3);
  notched = fresh us;
}
  where
    fresh : (vs : List RcvUnit) → Notched 0 vs
    fresh [] = refl
    fresh (v ∷ vs) = omega arith

waiting_of_first :
    (b : RcvBuffer) (u : RcvUnit) (us : List RcvUnit)
    → b.notch ≤ length u.pc_data
    → waiting b (u ∷ us) ≡ drop b.notch u.pc_data ++ bytes us
waiting_of_first b u us h = drop-append_short b.notch u.pc_data (bytes us) h

waiting_released :
    (b : RcvBuffer) (u : RcvUnit) (us : List RcvUnit) → waiting (release_unit b u) us ≡ bytes us
unfolding release_unit
waiting_released b u us = drop-0 (bytes us)

-- What is returned when the first unit holds more than what is asked for.
part_returned :
    (b b' : RcvBuffer) (u : RcvUnit) (us : List RcvUnit) (len : ℕ)
    → b.notch ≤ length u.pc_data
    → len ≤ length u.pc_data - b.notch
    → joined (take len (drop b.notch u.pc_data)) (some ([], b'))
      ≡ some (take len (waiting b (u ∷ us)), b')
unfolding joined
part_returned b b' u us len notched fits =
    let first = drop b.notch u.pc_data in
    let inside : len ≤ length first = rw (length-drop b.notch u.pc_data) fits in
    ap (λ xs. some (xs, b'))
      (append_nil (take len first)
        ∙ sym (take-append_short len first (bytes us) inside)
        ∙ ap (take len) (sym (waiting_of_first b u us notched)))

-- What is returned when the first unit is read to its end, and what stays.
whole_returned :
    (b b' : RcvBuffer) (u : RcvUnit) (us : List RcvUnit) (len : ℕ)
    → b.notch ≤ length u.pc_data
    → length u.pc_data - b.notch ≤ len
    → joined
        (take (length u.pc_data - b.notch) (drop b.notch u.pc_data))
        (some (take (len - (length u.pc_data - b.notch)) (waiting (release_unit b u) us), b'))
      ≡ some (take len (waiting b (u ∷ us)), b')
unfolding joined
whole_returned b b' u us len notched fits =
    let first = drop b.notch u.pc_data in
    let long : length first ≡ length u.pc_data - b.notch = length-drop b.notch u.pc_data in
    let all : take (length u.pc_data - b.notch) first ≡ first =
      take_all (length u.pc_data - b.notch) first (omega (arith, long)) in
    let joins = take-append_long len first (bytes us) (omega (arith, long)) in
    let counted : len - length first ≡ len - (length u.pc_data - b.notch) =
      ap (λ k. len - k) long in
    ap (λ xs. some (xs, b'))
      (rw (all, waiting_released b u us, waiting_of_first b u us notched, joins, counted) refl)

whole_remaining :
    (b : RcvBuffer) (u : RcvUnit) (us : List RcvUnit) (len : ℕ)
    → b.notch ≤ length u.pc_data
    → length u.pc_data - b.notch ≤ len
    → drop (len - (length u.pc_data - b.notch)) (waiting (release_unit b u) us)
      ≡ drop len (waiting b (u ∷ us))
whole_remaining b u us len notched fits =
    let first = drop b.notch u.pc_data in
    let long : length first ≡ length u.pc_data - b.notch = length-drop b.notch u.pc_data in
    let skips = drop-append_long len first (bytes us) (omega (arith, long)) in
    let counted : len - length first ≡ len - (length u.pc_data - b.notch) =
      ap (λ k. len - k) long in
    rw (waiting_released b u us, waiting_of_first b u us notched, skips, counted) refl

read_units-Read :
    (fuel : ℕ) (b : RcvBuffer) (us : List RcvUnit) (len : ℕ)
    → Holds b us
    → length us + 2 ≤ fuel
    → Read b us len (read_units fuel b len)
read_units-Read zero b us len held enough = absurd (omega arith)
read_units-Read (suc zero) b us len held enough = absurd (omega arith)
read_units-Read (suc (suc fuel)) b [] len held enough = record {
  after = b;
  left = [];
  returned = read_nothing (suc fuel) b len (let same = held.stored in ground arith);
  holds = held;
  remaining = refl;
}
read_units-Read (suc (suc fuel)) b (u ∷ us) len held enough = elim (Bool-cases (len == 0)) [
  | inl asked_none ↦
      let is_0 : len ≡ 0 = ground arith in
      record {
        after = b;
        left = u ∷ us;
        returned = rw is_0 (
            read_nothing (suc fuel) b 0 (ground arith)
            ∙ ap (λ xs. some (xs, b)) (sym (take-0 (waiting b (u ∷ us)))));
        holds = held;
        remaining = rw is_0 (sym (drop-0 (waiting b (u ∷ us))));
      }
  | inr asked_some ↦
      let notched : b.notch ≤ length u.pc_data = held.notched in
      let goes : (b.start_pos == b.last_ack_pos || len == 0) ≡ false =
        rw (asked_some, held.stored.1) refl in
      let one = read_unit (suc fuel) b len u (held.stored.0) goes notched in
      elim (Bool-cases (ltb len (length u.pc_data - b.notch))) [
        | inl part ↦
            let (size_is, after_is) = read_part b len u (ground arith) in
            let none_left : len - len ≡ 0 = omega arith in
            let b' = record b { notch = b.notch + len } in
            let stops = read_nothing fuel b' 0 (ground arith) in
            record {
              after = b';
              left = u ∷ us;
              returned =
                  (rw (size_is, after_is, none_left, stops) at one)
                  ∙ part_returned b b' u us len notched (ground arith);
              holds = record { stored = held.stored; notched = ground arith };
              remaining = sym (drop-drop len b.notch (bytes (u ∷ us)));
            }
        | inr whole ↦
            let (size_is, after_is) = read_whole b len u (ground arith) in
            let rest =
              read_units-Read (suc fuel) (release_unit b u) us (len - (length u.pc_data - b.notch))
                (release_unit-Holds b u us held) (omega arith) in
            record {
              after = rest.after;
              left = rest.left;
              returned =
                  (rw (size_is, after_is, rest.returned) at one)
                  ∙ whole_returned b rest.after u us len notched (ground arith);
              holds = rest.holds;
              remaining = rest.remaining ∙ whole_remaining b u us len notched (ground arith);
            }
      ]
]

-- `readBuffer` on a buffer that holds units: the call ends and returns the first `len` of the waiting
-- bytes, or all if there are fewer, and the buffer that it leaves holds exactly the other bytes.
pub read_buffer-Read :
    (b : RcvBuffer) (us : List RcvUnit) (len : ℕ)
    → Holds b us
    → length us ≤ b.size
    → Read b us len (read_buffer b len)
unfolding read_buffer
read_buffer-Read b us len held few = read_units-Read (b.size + 2) b us len held (omega arith)
