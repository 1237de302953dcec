-- ===== src/UnitQueue/Avail.antt =====
-- The unit that `getNextAvailUnit` of CUnitQueue gives.
use uvudt.Common.{
  ℕ, zero, suc, ◌+◌, ◌-◌, ◌*◌, ◌≤◌, ◌<◌, Option, none, some, ◌≡◌, ◌∙◌, refl, sym, ap, arith, ltb,
  leb, ◌==◌, ◌⊎◌, Bool-cases, Option-cases, inl, inr,
}
use mathlib.Core.Path.{subst}
use uvudt.UnitQueue.{
  UnitQueue, increase, scan, next_queue, search, give, get_next_avail_unit, real_count,
}

scan_lem :
    (flag : ℕ → ℕ) (i n j : ℕ) → scan flag i n ≡ some j → (flag j ≡ 0) × (i ≤ j) × (j < i + n)
unfolding scan
scan_lem flag i zero j h = absurd cc
scan_lem flag i (suc n) j h = elim (Bool-cases (flag i == 0)) [
  | inl free ↦
      let here = rw free at h in
      let same : i ≡ j = ground (arith, here) in
      let zero_there : flag i ≡ 0 = ground arith in
      (ap flag (sym same) ∙ zero_there, omega (arith, same), omega (arith, same))
  | inr used ↦
      let later = rw used at h in
      let (zero_there, above, below) = scan_lem flag (i + 1) n j later in
      (zero_there, omega arith, omega arith)
]

-- The entry and the unit that the search goes on with are there.
pub record IsValid (q : UnitQueue) : Type 0 where
  pub queue_in : q.curr_queue < q.entries
  pub unit_in : q.avail_unit < q.entry_size

increase_lem :
    (q : UnitQueue) → IsValid q → IsValid (increase q) × ((increase q).entry_size ≡ q.entry_size)
unfolding increase
increase_lem q v = elim (Bool-cases (ltb (real_count q q.entries * 10) (q.size * 9))) [
  | inl enough ↦ rw (enough, increase) (record { queue_in = v.queue_in; unit_in = v.unit_in }, refl)
  | inr full ↦
      rw (full, increase)
        (record { queue_in = (let e = v.queue_in in omega arith); unit_in = v.unit_in }, refl)
]

-- The unit is free, where the queue's marks say, and not the last one of several.
abbrev pub Given : ℕ → Option (ℕ × ℕ) → UnitQueue → Type 0
Given size none q' = IsValid q' × (q'.entry_size ≡ size)
Given size (some (k, i)) q' =
    (q'.flag k i ≡ 0)
    × (k ≡ q'.curr_queue)
    × (i ≡ q'.avail_unit)
    × ((i ≡ 0) ⊎ (suc i < size))
    × IsValid q'
    × (q'.entry_size ≡ size)

moved-IsValid :
    (q : UnitQueue) → IsValid q → IsValid (record q { curr_queue = next_queue q; avail_unit = 0 })
unfolding next_queue
moved-IsValid q v = record {
  queue_in = (let e = v.queue_in in ground arith);
  unit_in = (let e = v.unit_in in omega arith);
}

search_lem :
    (fuel : ℕ) (q : UnitQueue) (entrance : ℕ)
    → IsValid q
    → Given q.entry_size (search fuel q entrance).0 (search fuel q entrance).1
unfolding search
search_lem zero q entrance v = increase_lem q v
search_lem (suc fuel) q entrance v =
    let k = q.curr_queue in
    let moved = record q { curr_queue = next_queue q; avail_unit = 0 } in
    let v' : IsValid moved = moved-IsValid q v in
    let later = search_lem fuel moved entrance v' in
    elim (Option-cases (scan (q.flag k) q.avail_unit (q.entry_size - 1 - q.avail_unit))) [
      | inr (i, found) ↦
          let (free, above, below) =
            scan_lem (q.flag k) q.avail_unit (q.entry_size - 1 - q.avail_unit) i found in
          rw (found, search)
            (
              free,
              refl,
              refl,
              inr (let e = v.unit_in in omega arith),
              record { queue_in = v.queue_in; unit_in = (let e = v.unit_in in omega arith) },
              refl,
            )
      | inl none_here ↦ elim (Bool-cases (q.flag k 0 == 0)) [
        | inl first ↦
            rw (none_here, first, search)
              (
                (ground arith),
                refl,
                refl,
                inl refl,
                record { queue_in = v.queue_in; unit_in = (let e = v.unit_in in omega arith) },
                refl,
              )
        | inr taken ↦ elim (Bool-cases (next_queue q == entrance)) [
          | inl back ↦ rw (none_here, taken, back, search) (increase_lem moved v')
          | inr on ↦ rw (none_here, taken, on, search) later
        ]
      ]
    ]

give_lem : (q : UnitQueue) → IsValid q → Given q.entry_size (give q).0 (give q).1
unfolding give
give_lem q v = elim (Bool-cases (leb q.size q.count)) [
  | inl full ↦ rw (full, give) (v, refl)
  | inr room ↦ rw (room, give) (search_lem q.entries q q.curr_queue v)
]

-- `getNextAvailUnit` on a queue whose positions are within it: a unit that it gives is free, the
-- queue's positions point at it, and it is never the last unit of an entry with several. Whether it
-- gives a unit or NULL, the positions stay within the queue.
pub get_next_avail_unit-Given :
    (q : UnitQueue)
    → IsValid q
    → Given q.entry_size (get_next_avail_unit q).0 (get_next_avail_unit q).1
unfolding get_next_avail_unit
get_next_avail_unit-Given q v = elim (Bool-cases (ltb (q.size * 9) (q.count * 10))) [
  | inl crowded ↦
      let (v', same) = increase_lem q v in
      rw (crowded, get_next_avail_unit)
        (subst (λ (n : ℕ). Given n (give (increase q)).0 (give (increase q)).1) same
          (give_lem (increase q) v'))
  | inr easy ↦ rw (easy, get_next_avail_unit) (give_lem q v)
]
