-- ===== src/RcvBuffer/Tests.antt =====
-- A ring of four slots with two units, which wraps, and the theorems on it.
use uvudt.Common.{ℕ, Option, none, some, List, [], ◌∷◌, ◌≡◌, refl, arith, write}
use uvudt.Common.Int.{pos}
use uvudt.RcvBuffer.Stream.{Holds, Read, read_buffer-Read}
use uvudt.RcvBuffer.{
  RcvUnit, RcvBuffer, step_pos, read_buffer, read_units, after_unit, unit_size, release_unit,
  joined,
}

abbrev unit : ℕ → List ℕ → RcvUnit
unit id bytes = record { id = id; flag = 1; pc_data = bytes; msg_no = id }

abbrev two : RcvBuffer
two = record {
  units =
      write (write (λ i. none) 3 (some (unit 8 (1 ∷ 2 ∷ 3 ∷ [])))) 0 (some (unit 9 (4 ∷ 5 ∷ [])));
  size = 4;
  queue_count = pos 2;
  freed = [];
  start_pos = 3;
  last_ack_pos = 1;
  max_pos = 0;
  notch = 1;
}

abbrev two_units : List RcvUnit
two_units = unit 8 (1 ∷ 2 ∷ 3 ∷ []) ∷ unit 9 (4 ∷ 5 ∷ []) ∷ []

two-Holds : Holds two two_units
unfolding step_pos
two-Holds = record {
  stored = (refl, refl, (refl, tt), (refl, refl, tt, refl));
  notched = omega arith;
}

abbrev summary : Option (List ℕ × RcvBuffer) → Option (List ℕ × ℕ × ℕ × List ℕ)
summary none = none
summary (some (bytes, b)) = some (bytes, b.start_pos, b.notch, b.freed)

-- Three bytes: the rest of the first unit, which is freed, and one of the second.
reads_three : summary (read_buffer two 3) ≡ some (2 ∷ 3 ∷ 4 ∷ [], 0, 1, 8 ∷ [])
unfolding read_buffer read_units after_unit unit_size release_unit joined step_pos
reads_three = refl

read_buffer-Read_example : Read two two_units 3 (read_buffer two 3)
read_buffer-Read_example = read_buffer-Read two two_units 3 two-Holds (omega arith)

abbrev third : RcvUnit
third = unit 10 (6 ∷ [])

abbrev arrived : RcvBuffer
arrived = record two { units = write two.units 1 (some third) }

arrived-Holds : Holds arrived two_units
unfolding step_pos
arrived-Holds = record {
  stored = (refl, refl, (refl, tt), (refl, refl, tt, refl));
  notched = omega arith;
}
