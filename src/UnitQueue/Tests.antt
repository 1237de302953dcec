-- ===== src/UnitQueue/Tests.antt =====
-- A queue of one entry with four units.
use uvudt.Common.{none, ◌≡◌, refl, arith, ◌==◌, if◌then◌else◌}
use uvudt.UnitQueue.{
  UnitQueue, get_next_avail_unit, give, search, scan, increase, next_queue, real_count, used_units,
}
use uvudt.UnitQueue.Avail.{Given, get_next_avail_unit-Given}

abbrev four : UnitQueue
four = record {
  flag = λ k i. if i == 3 then 0 else 1;
  entries = 1;
  entry_size = 4;
  curr_queue = 0;
  avail_unit = 1;
  size = 4;
  count = 3;
}

-- The last unit is free, and not given.
last_unit : (get_next_avail_unit four).0 ≡ none
unfolding get_next_avail_unit give search scan increase next_queue real_count used_units
last_unit = refl

get_next_avail_unit-Given_example :
    Given 4 (get_next_avail_unit four).0 (get_next_avail_unit four).1
get_next_avail_unit-Given_example =
    get_next_avail_unit-Given four (record { queue_in = omega arith; unit_in = omega arith })
