-- ===== src/RcvBuffer.antt =====
-- CRcvBuffer of UDT4/src/buffer.h and UDT4/src/buffer.cpp, as far as it serves streams: the ring of
-- received units between the reader's position and the last acknowledged one. A unit in the ring is
-- owned by its slot, and `freed` lists the units that go back to the shared queue, the last one first.
pub mod Stream
pub mod Ring
pub mod Acked
pub mod Arrive
mod Tests
use uvudt.Common.{
  ℕ, zero, suc, ◌+◌, ◌-◌, ◌%◌, Bool, true, false, not, ◌&&◌, ◌||◌, Option, none, some, List, [],
  ◌∷◌, ◌++◌, ltb, leb, ◌==◌, if◌then◌else◌, length, take, drop, write,
}
use uvudt.Common.Int.{ℤ, pos, ◌+ℤ◌, ◌-ℤ◌}

-- The number of the unit in the shared queue, and the fields of its packet.
pub record RcvUnit : Type 0 where
  pub id : ℕ
  pub flag : ℕ
  pub pc_data : List ℕ
  pub msg_no : ℕ

pub record RcvBuffer : Type 0 where
  pub units : ℕ → Option RcvUnit
  pub size : ℕ
  pub queue_count : ℤ
  pub freed : List ℕ
  pub start_pos : ℕ
  pub last_ack_pos : ℕ
  pub max_pos : ℕ
  pub notch : ℕ

pub create : ℕ → ℤ → RcvBuffer
create size queue_count = record {
  units = λ i. none;
  size = size;
  queue_count = queue_count;
  freed = [];
  start_pos = 0;
  last_ack_pos = 0;
  max_pos = 0;
  notch = 0;
}

-- `addData`, which returns false where the code returns -1.
pub add_data : RcvBuffer → RcvUnit → ℕ → Bool × RcvBuffer
add_data b u offset =
    let place = (b.last_ack_pos + offset) % b.size in
    let max_pos = if ltb b.max_pos offset then offset else b.max_pos in
    elim (b.units place) [
      | some old ↦ (false, record b { max_pos = max_pos })
      | none ↦ (
        true,
        record b {
          units = write b.units place (some (record u { flag = 1 }));
          queue_count = b.queue_count +ℤ pos 1;
          max_pos = max_pos;
        },
      )
    ]

-- `if (++ p == m_iSize) p = 0;`
pub step_pos : ℕ → ℕ → ℕ
step_pos size p = if p + 1 == size then 0 else p + 1

-- The unit at the reader's position is read to its end.
pub release_unit : RcvBuffer → RcvUnit → RcvBuffer
unfolding step_pos
release_unit b u = record b {
  units = write b.units b.start_pos none;
  queue_count = b.queue_count -ℤ pos 1;
  freed = u.id ∷ b.freed;
  start_pos = step_pos b.size b.start_pos;
  notch = 0;
}

-- `unitsize`
pub unit_size : RcvBuffer → RcvUnit → ℕ → ℕ
unit_size b u rs = let left = length u.pc_data - b.notch in if ltb rs left then rs else left

pub after_unit : RcvBuffer → RcvUnit → ℕ → RcvBuffer
unfolding release_unit
after_unit b u rs =
    if ltb (unit_size b u rs) rs || rs == length u.pc_data - b.notch
    then release_unit b u
    else record b { notch = b.notch + rs }

joined : List ℕ → Option (List ℕ × RcvBuffer) → Option (List ℕ × RcvBuffer)
joined bytes none = none
joined bytes (some (rest, b)) = some (bytes ++ rest, b)

-- The loop of `readBuffer` and `readBufferToFile`: what is read, and the buffer. `none` is a loop
-- that is not through within the fuel, a NULL unit, or a notch beyond the unit.
pub read_units : ℕ → RcvBuffer → ℕ → Option (List ℕ × RcvBuffer)
unfolding after_unit unit_size joined
read_units zero b rs = none
read_units (suc fuel) b rs = elim (b.units b.start_pos) [
  | none ↦ if b.start_pos == b.last_ack_pos || rs == 0 then some ([], b) else none
  | some u ↦
      let rest = read_units fuel (after_unit b u rs) (rs - unit_size b u rs) in
      if b.start_pos == b.last_ack_pos || rs == 0
      then some ([], b)
      else if ltb (length u.pc_data) b.notch
      then none
      else joined (take (unit_size b u rs) (drop b.notch u.pc_data)) rest
]

-- The number of bytes that `readBuffer` returns is the length of the list.
pub read_buffer : RcvBuffer → ℕ → Option (List ℕ × RcvBuffer)
unfolding read_units
read_buffer b len = read_units (b.size + 2) b len

pub ack_data : RcvBuffer → ℕ → RcvBuffer
ack_data b len = record b {
  last_ack_pos = (b.last_ack_pos + len) % b.size;
  max_pos = b.max_pos - len;
}

pub get_rcv_data_size : RcvBuffer → ℕ
get_rcv_data_size b =
    if leb b.start_pos b.last_ack_pos
    then b.last_ack_pos - b.start_pos
    else b.size + b.last_ack_pos - b.start_pos

pub get_avail_buf_size : RcvBuffer → ℕ
unfolding get_rcv_data_size
get_avail_buf_size b = b.size - get_rcv_data_size b - 1

marked : ℕ → Option RcvUnit → Option RcvUnit
marked msg_no none = none
marked msg_no (some u) = some (if msg_no == u.msg_no then record u { flag = 3 } else u)

-- The loop of `dropMsg` from `i` to `n`; `none` is a loop that does not end within the fuel.
drop_from : ℕ → RcvBuffer → ℕ → ℕ → ℕ → Option RcvBuffer
unfolding marked
drop_from zero b msg_no i n = none
drop_from (suc fuel) b msg_no i n =
    let rest =
      drop_from fuel (record b { units = write b.units i (marked msg_no (b.units i)) }) msg_no
        ((i + 1) % b.size) n in
    if i == n then some b else rest

pub drop_msg : RcvBuffer → ℕ → Option RcvBuffer
unfolding drop_from
drop_msg b msg_no =
    drop_from (suc b.size) b msg_no b.start_pos ((b.last_ack_pos + b.max_pos) % b.size)
