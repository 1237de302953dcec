-- ===== src/PktTimeWindow/Tests.antt =====
-- A window of three intervals, one of them far above the others.
use uvudt.Common.{ℕ, ◌*◌, ◌/◌, ◌≤◌, ◌≡◌, ◌⊎◌, refl, List, if◌then◌else◌, ◌==◌}
use uvudt.Common.Int.{ℤ, pos, ◌+ℤ◌, scale, shift_right, div_ℤ}
use uvudt.PktTimeWindow.{PktTimeWindow, get_pkt_rcv_speed, filter, passes, ceil_div}
use uvudt.PktTimeWindow.Median.{get_pkt_rcv_speed_lem}

-- The list is ordered already.
abbrev second : List ℤ → ℕ → ℤ
second xs n = pos 100

abbrev window : PktTimeWindow
window = record {
  aw_size = 3;
  pkt_window = λ i. if i == 2 then pos 5000 else pos 100;
  pkt_window_ptr = 0;
  pw_size = 2;
  probe_window = λ i. pos 1000;
  probe_window_ptr = 0;
  last_sent_time = pos 0;
  min_pkt_snd_int = pos 1;
  last_arr_time = 0;
  curr_arr_time = 0;
  probe_time = 0;
}

ten_thousand : get_pkt_rcv_speed second window ≡ 10_000
unfolding get_pkt_rcv_speed filter passes ceil_div ◌+ℤ◌ scale shift_right div_ℤ
ten_thousand = refl

get_pkt_rcv_speed_lem_example :
    (get_pkt_rcv_speed second window ≡ 0)
    ⊎ ((q : ℕ) × (get_pkt_rcv_speed second window ≡ ceil_div 1_000_000 q)
        × (100 / 8 ≤ q)
        × (q ≤ 8 * 100))
get_pkt_rcv_speed_lem_example = get_pkt_rcv_speed_lem second window 100 refl
