-- ===== src/PktTimeWindow/Median.antt =====
-- The median filter of CPktTimeWindow.
use uvudt.Common.{
  ℕ, ◌+◌, ◌-◌, ◌*◌, ◌/◌, ◌≤◌, ◌<◌, true, false, List, [], ◌∷◌, ◌≡◌, ◌∙◌, refl, ap, arith, ltb, ◌⊎◌,
  Bool-cases, inl, inr,
}
use native.Mathlib.Nat.{mul-add, mul-one, mul_comm, le-div_iff_mul-le, div-le_of_le-mul}
use uvudt.Common.Int.{ℤ, pos, negsuc, pos_part, ◌+ℤ◌, scale, shift_right, div_ℤ}
use uvudt.PktTimeWindow.{PktTimeWindow, entries, filter, passes, ceil_div, get_pkt_rcv_speed}

-- The count and the sum, where every entry lies between an eighth of the median and eight times it.
pub record Between (low high : ℕ) (result : ℕ × ℤ) : Type 0 where
  pub total : ℕ
  pub sum_is : result.1 ≡ pos total
  pub above : low * result.0 ≤ total
  pub below : total ≤ high * result.0

pos_sum : (s x : ℕ) → pos s +ℤ pos x ≡ pos (s + x)
unfolding ◌+ℤ◌
pos_sum s x = ground arith

mul_next : (a n : ℕ) → a * (n + 1) ≡ a * n + a
mul_next a n = mul-add a n 1 ∙ ap (λ (k : ℕ). a * n + k) (mul-one a)

passes_pos : (m x : ℕ) → passes (pos m) (pos x) ≡ true → (m / 8 ≤ x) × (x ≤ 8 * m)
unfolding passes scale shift_right
passes_pos m x h = ground arith

passes_neg : (m x : ℕ) → passes (pos m) (negsuc x) ≡ false
unfolding passes scale shift_right
passes_neg m x = ground arith

filter-Between :
    (m : ℕ) (ps : List ℤ) (n s : ℕ)
    → m / 8 * n ≤ s
    → s ≤ 8 * m * n
    → Between (m / 8) (8 * m) (filter (pos m) ps n (pos s))
unfolding filter
filter-Between m [] n s lo hi = record { total = s; sum_is = refl; above = lo; below = hi }
filter-Between m (pos x ∷ ps) n s lo hi = elim (Bool-cases (passes (pos m) (pos x))) [
  | inl fits ↦
      let (low, high) = passes_pos m x fits in
      let later =
        filter-Between m ps (n + 1) (s + x) (omega (arith, mul_next (m / 8) n))
          (omega (arith, mul_next (8 * m) n)) in
      rw (fits, pos_sum s x, filter) later
  | inr off ↦ rw (off, filter) (filter-Between m ps n s lo hi)
]
filter-Between m (negsuc x ∷ ps) n s lo hi =
    rw (passes_neg m x, filter) (filter-Between m ps n s lo hi)

-- A mean of entries that lie between the bounds.
mean_lem :
    (low high t n : ℕ)
    → 0 < n
    → low * n ≤ t
    → t ≤ high * n
    → (low ≤ pos_part (div_ℤ (pos t) n)) × (pos_part (div_ℤ (pos t) n) ≤ high)
unfolding div_ℤ
mean_lem low high t n some_one above below =
    ((le-div_iff_mul-le some_one).1 above, div-le_of_le-mul n (omega (arith, mul_comm n high)))

-- `getPktRcvSpeed`, where the median interval that it takes is not negative: the speed is 0, or it is
-- a million over an interval, rounded up, and the interval lies between an eighth of the median and
-- eight times the median.
pub get_pkt_rcv_speed_lem :
    (nth : List ℤ → ℕ → ℤ) (w : PktTimeWindow) (m : ℕ)
    → nth (entries w.pkt_window 0 (w.aw_size - 1)) (w.aw_size / 2) ≡ pos m
    → (get_pkt_rcv_speed nth w ≡ 0)
      ⊎ ((q : ℕ) × (get_pkt_rcv_speed nth w ≡ ceil_div 1_000_000 q) × (m / 8 ≤ q) × (q ≤ 8 * m))
unfolding get_pkt_rcv_speed
get_pkt_rcv_speed_lem nth w m median =
    let all = entries w.pkt_window 0 w.aw_size in
    let between = filter-Between m all 0 0 (omega arith) (omega arith) in
    let count = (filter (pos m) all 0 (pos 0)).0 in
    elim (Bool-cases (ltb (w.aw_size / 2) count)) [
      | inl enough ↦
          let some_one : 0 < count = ground arith in
          let (low, high) =
            mean_lem (m / 8) (8 * m) between.total count some_one between.above between.below in
          inr (
            pos_part (div_ℤ (pos between.total) count),
            rw (median, enough, between.sum_is, get_pkt_rcv_speed) refl,
            low,
            high,
          )
      | inr few ↦ inl (rw (median, few, get_pkt_rcv_speed) refl)
    ]
