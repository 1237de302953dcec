-- ===== src/PktTimeWindow.antt =====
-- CPktTimeWindow of UDT4/src/window.h and UDT4/src/window.cpp: the intervals between packets, in two
-- circular arrays, and the estimates that come from them. The time is an argument of the calls.
-- `nth_element` of the C++ library is a parameter: `nth xs k` is the element at the place k of `xs`
-- once `xs` is ordered. The estimates divide exactly, where the code divides doubles.
pub mod Median
mod Tests
use uvudt.Common.{
  ℕ, zero, suc, ◌+◌, ◌-◌, ◌*◌, ◌/◌, ◌%◌, ◌^◌, Bool, ◌&&◌, List, [], ◌∷◌, ltb, ◌==◌, if◌then◌else◌,
  write,
}
use uvudt.Common.Int.{ℤ, pos, pos_part, ◌+ℤ◌, ◌-ℤ◌, ltb_ℤ, scale, shift_right, div_ℤ, to_int}

pub record PktTimeWindow : Type 0 where
  pub aw_size : ℕ
  pub pkt_window : ℕ → ℤ
  pub pkt_window_ptr : ℕ
  pub pw_size : ℕ
  pub probe_window : ℕ → ℤ
  pub probe_window_ptr : ℕ
  pub last_sent_time : ℤ
  pub min_pkt_snd_int : ℤ
  pub last_arr_time : ℕ
  pub curr_arr_time : ℕ
  pub probe_time : ℕ

pub create : ℕ → ℕ → ℕ → PktTimeWindow
create asize psize now = record {
  aw_size = asize;
  pkt_window = λ i. pos 1_000_000;
  pkt_window_ptr = 0;
  pw_size = psize;
  probe_window = λ i. pos 1000;
  probe_window_ptr = 0;
  last_sent_time = pos 0;
  min_pkt_snd_int = pos 1_000_000;
  last_arr_time = now;
  curr_arr_time = 0;
  probe_time = 0;
}

pub get_min_pkt_snd_int : PktTimeWindow → ℤ
get_min_pkt_snd_int w = w.min_pkt_snd_int

-- The first `n` entries of an array.
abbrev pub entries : (ℕ → ℤ) → ℕ → ℕ → List ℤ
entries f i zero = []
entries f i (suc n) = f i ∷ entries f (i + 1) n

-- `(*p < upper) && (*p > lower)`
pub passes : ℤ → ℤ → Bool
passes median p = ltb_ℤ p (scale 8 median) && ltb_ℤ (shift_right median 3) p

-- The loop of the median filter: the count and the sum, from given ones.
pub filter : ℤ → List ℤ → ℕ → ℤ → ℕ × ℤ
unfolding passes
filter median [] count sum = (count, sum)
filter median (p ∷ ps) count sum =
    filter median ps (if passes median p then count + 1 else count)
      (if passes median p then sum +ℤ p else sum)

-- `ceil(a / b)`
pub ceil_div : ℕ → ℕ → ℕ
ceil_div a b = (a + b - 1) / b

module _ (nth : List ℤ → ℕ → ℤ) where
  -- The replica has all entries but the last.
  pub get_pkt_rcv_speed : PktTimeWindow → ℕ
  unfolding filter ceil_div
  get_pkt_rcv_speed w =
      let median = nth (entries w.pkt_window 0 (w.aw_size - 1)) (w.aw_size / 2) in
      let (count, sum) = filter median (entries w.pkt_window 0 w.aw_size) 0 (pos 0) in
      if ltb (w.aw_size / 2) count then ceil_div 1_000_000 (pos_part (div_ℤ sum count)) else 0

  pub get_bandwidth : PktTimeWindow → ℕ
  unfolding filter ceil_div
  get_bandwidth w =
      let median = nth (entries w.probe_window 0 (w.pw_size - 1)) (w.pw_size / 2) in
      let (count, sum) = filter median (entries w.probe_window 0 w.pw_size) 1 median in
      ceil_div (1_000_000 * count) (pos_part sum)

pub on_pkt_sent : PktTimeWindow → ℤ → PktTimeWindow
on_pkt_sent w currtime =
    let interval = currtime -ℤ w.last_sent_time in
    record w {
      min_pkt_snd_int =
          if ltb_ℤ interval w.min_pkt_snd_int && ltb_ℤ (pos 0) interval
          then interval
          else w.min_pkt_snd_int;
      last_sent_time = currtime;
    }

-- `int(t - s)`, over uint64_t.
pub elapsed : ℕ → ℕ → ℤ
elapsed t s = to_int ((t + 2 ^ 64 - s) % 2 ^ 64)

pub on_pkt_arrival : PktTimeWindow → ℕ → PktTimeWindow
unfolding elapsed
on_pkt_arrival w now = record w {
  curr_arr_time = now;
  pkt_window = write w.pkt_window w.pkt_window_ptr (elapsed now w.last_arr_time);
  pkt_window_ptr = if w.pkt_window_ptr + 1 == w.aw_size then 0 else w.pkt_window_ptr + 1;
  last_arr_time = now;
}

pub probe1_arrival : PktTimeWindow → ℕ → PktTimeWindow
probe1_arrival w now = record w { probe_time = now }

pub probe2_arrival : PktTimeWindow → ℕ → PktTimeWindow
unfolding elapsed
probe2_arrival w now = record w {
  curr_arr_time = now;
  probe_window = write w.probe_window w.probe_window_ptr (elapsed now w.probe_time);
  probe_window_ptr = if w.probe_window_ptr + 1 == w.pw_size then 0 else w.probe_window_ptr + 1;
}
