-- ===== src/UnitQueue.antt =====
-- CUnitQueue of UDT4/src/queue.h and UDT4/src/queue.cpp: the units that all connections of a port
-- receive into. The entries are a circle of arrays of one size, which the code links; here they have
-- numbers in the order of the circle. `flag k i` is the flag of the unit `i` of the entry `k`, and a
-- pointer to a unit is these two numbers. Memory does not run out.
pub mod Avail
mod Tests
use uvudt.Common.{
  ℕ, zero, suc, ◌+◌, ◌-◌, ◌*◌, Bool, true, false, Option, none, some, ltb, leb, ◌==◌, if◌then◌else◌,
}

pub record UnitQueue : Type 0 where
  pub flag : ℕ → ℕ → ℕ
  pub entries : ℕ
  pub entry_size : ℕ
  pub curr_queue : ℕ
  pub avail_unit : ℕ
  pub size : ℕ
  pub count : ℕ

pub init : ℕ → UnitQueue
init size = record {
  flag = λ k i. 0;
  entries = 1;
  entry_size = size;
  curr_queue = 0;
  avail_unit = 0;
  size = size;
  count = 0;
}

-- The units in use among the first `n` of an entry.
pub used_units : (ℕ → ℕ) → ℕ → ℕ
used_units flag zero = 0
used_units flag (suc n) = if flag n == 0 then used_units flag n else suc (used_units flag n)

-- `real_count`, over the first `k` entries.
pub real_count : UnitQueue → ℕ → ℕ
unfolding used_units
real_count q zero = 0
real_count q (suc k) = real_count q k + used_units (q.flag k) q.entry_size

-- The new entry comes last in the circle, with free units. The return value is not used.
pub increase : UnitQueue → UnitQueue
unfolding real_count
increase q =
    let counted = record q { count = real_count q q.entries } in
    if ltb (counted.count * 10) (q.size * 9) then counted else record counted {
      flag = λ k i. if k == q.entries then 0 else q.flag k i;
      entries = q.entries + 1;
      size = q.size + q.entry_size;
    }

-- The first free unit among the `n` from `i` on.
pub scan : (ℕ → ℕ) → ℕ → ℕ → Option ℕ
scan flag i zero = none
scan flag i (suc n) = let rest = scan flag (i + 1) n in if flag i == 0 then some i else rest

pub next_queue : UnitQueue → ℕ
next_queue q = if q.curr_queue + 1 == q.entries then 0 else q.curr_queue + 1

-- The `do` loop: the unit, or `none` for NULL. The circle comes back to the entrance within as many
-- rounds as there are entries.
pub search : ℕ → UnitQueue → ℕ → Option (ℕ × ℕ) × UnitQueue
unfolding scan increase next_queue
search zero q entrance = (none, increase q)
search (suc fuel) q entrance =
    let k = q.curr_queue in
    let moved = record q { curr_queue = next_queue q; avail_unit = 0 } in
    let rest = search fuel moved entrance in
    elim (scan (q.flag k) q.avail_unit (q.entry_size - 1 - q.avail_unit)) [
      | some i ↦ (some (k, i), record q { avail_unit = i })
      | none ↦
          if q.flag k 0 == 0
          then (some (k, 0), record q { avail_unit = 0 })
          else if next_queue q == entrance
          then (none, increase moved)
          else rest
    ]

-- The part behind the first `increase`.
pub give : UnitQueue → Option (ℕ × ℕ) × UnitQueue
unfolding search
give q = if leb q.size q.count then (none, q) else search q.entries q q.curr_queue

pub get_next_avail_unit : UnitQueue → Option (ℕ × ℕ) × UnitQueue
unfolding give increase
get_next_avail_unit q = give (if ltb (q.size * 9) (q.count * 10) then increase q else q)
