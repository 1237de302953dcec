-- ===== src/SndBuffer/Tests.antt =====
-- A circle of four blocks of three bytes, and the theorems on it.
use uvudt.Common.{ℕ, ◌+◌, ◌%◌, ◌/◌, ◌^◌, true, Option, some, none, List, [], ◌∷◌, ◌≡◌, refl, arith}
use uvudt.Common.Int.{minus_one}
use uvudt.SndBuffer.Ring.{Holds}
use uvudt.SndBuffer.Grow.{create-Holds, run}
use uvudt.SndBuffer.Add.{Added, add_buffer-Added}
use uvudt.SndBuffer.{
  Block, SndBuffer, create, increase, grow, packets_of, msg_word, fill, add_message, add_buffer,
}

abbrev hello : List ℕ
hello = 1 ∷ 2 ∷ 3 ∷ 4 ∷ 5 ∷ 6 ∷ 7 ∷ []

abbrev summary : Option SndBuffer → Option (ℕ × ℕ × List ℕ × ℕ × ℕ)
summary none = none
summary (some b) =
    some (b.count, b.size, (b.block 2).pc_data, (b.block 2).msg_no / 2 ^ 30, b.last_block)

-- Three packets fit; with three more, the circle grows by four blocks.
adds_three : summary (add_buffer (create 4 3) hello minus_one true 0) ≡ some (3, 4, 7 ∷ [], 1, 3)
unfolding create add_buffer grow packets_of fill msg_word add_message increase
adds_three = refl

add_buffer-Added_example :
    (b' : SndBuffer) × (add_buffer (create 4 3) hello minus_one true 0 ≡ some b')
    × Added (create 4 3) [] [] hello b'
unfolding create
add_buffer-Added_example =
    add_buffer-Added (create 4 3) [] [] (run 1 3) hello minus_one true 0 (create-Holds 3 3)
      (omega arith) (omega arith) (omega arith)

abbrev packet : List ℕ → Block
packet data_bytes = record { pc_data = data_bytes; msg_no = 1; origin_time = 0; ttl = minus_one }

-- One block is sent, one waits, and two are spare.
abbrev busy : SndBuffer
busy = record {
  block = λ i. packet (i ∷ []);
  next = λ i. (i + 1) % 4;
  fresh = 4;
  first_block = 0;
  curr_block = 1;
  last_block = 2;
  next_msg_no = 2;
  unit_size = 4;
  size = 4;
  mss = 3;
  count = 2;
}

busy-Holds : Holds busy (0 ∷ []) (1 ∷ []) (3 ∷ [])
busy-Holds = record {
  to_curr = (refl, refl);
  to_last = (refl, refl);
  around = (refl, (refl, refl));
  distinct = ((refl, (refl, (refl, tt))), ((refl, (refl, tt)), ((refl, tt), (tt, tt))));
  below = omega arith;
  counted = refl;
  sized = refl;
}
