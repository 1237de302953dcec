-- ===== src/SndBuffer.antt =====
-- CSndBuffer of UDT4/src/buffer.h and UDT4/src/buffer.cpp: the blocks to send, a circular linked list.
-- A pointer to a block is a number, `next` the links, and `fresh` the next number that `new` gives.
-- A block owns its slice of the physical buffers. The locks are left out, and memory does not run out.
pub mod Ring
pub mod Grow
pub mod Add
pub mod Read
mod Tests
use uvudt.Common.{
  ℕ, zero, suc, ◌+◌, ◌-◌, ◌*◌, ◌/◌, ◌%◌, ◌^◌, Bool, true, false, not, ◌&&◌, ◌||◌, Option, none,
  some, List, [], ◌∷◌, ltb, leb, ◌==◌, if◌then◌else◌, length, take, drop, write,
}
use uvudt.Common.Int.{ℤ, pos, minus_one, ltb_ℤ, leb_ℤ, pos_part}
use uvudt.Seqno.{max_msgno}

-- `pc_data` has `m_iLength` bytes; the word of the message number is below 2^32.
pub record Block : Type 0 where
  pub pc_data : List ℕ
  pub msg_no : ℕ
  pub origin_time : ℕ
  pub ttl : ℤ

-- `unit_size` is the size of the first physical buffer, by which the list grows.
pub record SndBuffer : Type 0 where
  pub block : ℕ → Block
  pub next : ℕ → ℕ
  pub fresh : ℕ
  pub first_block : ℕ
  pub curr_block : ℕ
  pub last_block : ℕ
  pub next_msg_no : ℕ
  pub unit_size : ℕ
  pub size : ℕ
  pub mss : ℕ
  pub count : ℕ

abbrev empty_block : Block
empty_block = record { pc_data = []; msg_no = 0; origin_time = 0; ttl = pos 0 }

pub create : ℕ → ℕ → SndBuffer
create size mss = record {
  block = λ i. empty_block;
  next = λ i. if i + 1 == size then 0 else i + 1;
  fresh = size;
  first_block = 0;
  curr_block = 0;
  last_block = 0;
  next_msg_no = 1;
  unit_size = size;
  size = size;
  mss = mss;
  count = 0;
}

-- `increase`: the new blocks follow the last one in the circle.
abbrev pub grown_next : SndBuffer → ℕ → ℕ
grown_next b i =
    if i == b.last_block
    then b.fresh
    else if i + 1 == b.fresh + b.unit_size
    then b.next b.last_block
    else if leb b.fresh i && ltb i (b.fresh + b.unit_size)
    then i + 1
    else b.next i

pub increase : SndBuffer → SndBuffer
increase b = record b {
  next = grown_next b;
  fresh = b.fresh + b.unit_size;
  size = b.size + b.unit_size;
}

-- `while (size + m_iCount >= m_iSize) increase();`; `none` is a loop that does not end in the fuel.
pub grow : ℕ → SndBuffer → ℕ → Option SndBuffer
unfolding increase
grow zero b n = none
grow (suc fuel) b n =
    let rest = grow fuel (increase b) n in if leb b.size (n + b.count) then rest else some b

-- `size`, the number of packets of `len` bytes.
pub packets_of : ℕ → ℕ → ℕ
packets_of len mss = if len % mss == 0 then len / mss else len / mss + 1

-- The word of a message number, its order bit and its boundary bits. A number is below 2^29, so that
-- adding the bits is setting them.
pub msg_word : ℕ → Bool → Bool → Bool → ℕ
msg_word number order first last =
    number
    + (if order then 2 ^ 29 else 0)
    + (if last then 2 ^ 30 else 0)
    + (if first then 2 ^ 31 else 0)

-- The loop of `addBuffer` over `i`, for `n` blocks more of `size`; it ends at the block `s`.
pub fill : ℕ → ℕ → ℕ → List ℕ → ℤ → Bool → ℕ → SndBuffer → ℕ → SndBuffer × ℕ
unfolding msg_word
fill zero i size bytes ttl order time b s = (b, s)
fill (suc n) i size bytes ttl order time b s =
    let left = length bytes - i * b.mss in
    let pktlen = if ltb b.mss left then b.mss else left in
    fill n (i + 1) size bytes ttl order time
      (record b {
        block = write b.block s (record {
          pc_data = take pktlen (drop (i * b.mss) bytes);
          msg_no = msg_word b.next_msg_no order (i == 0) (i + 1 == size);
          origin_time = time;
          ttl = ttl;
        });
      })
      (b.next s)

-- The end of `addBuffer`.
pub add_message : SndBuffer → ℕ → ℕ → SndBuffer
add_message b last size = record b {
  last_block = last;
  count = b.count + size;
  next_msg_no = if b.next_msg_no + 1 == max_msgno then 1 else b.next_msg_no + 1;
}

pub add_buffer : SndBuffer → List ℕ → ℤ → Bool → ℕ → Option SndBuffer
unfolding grow packets_of fill add_message
add_buffer b bytes ttl order time =
    let size = packets_of (length bytes) b.mss in
    elim (grow (suc (size + b.count)) b size) [
      | none ↦ none
      | some b' ↦
          let (filled, last) = fill size 0 size bytes ttl order time b' b'.last_block in
          some (add_message filled last size)
    ]

-- `readData(data, msgno)`: the block, or `none` where the code returns 0.
pub read_data : SndBuffer → Option Block × SndBuffer
read_data b =
    if b.curr_block == b.last_block
    then (none, b)
    else (some (b.block b.curr_block), record b { curr_block = b.next b.curr_block })

-- `n` blocks on from `p`.
pub advance : (ℕ → ℕ) → ℕ → ℕ → ℕ
advance next zero p = p
advance next (suc n) p = advance next n (next p)

-- The blocks of an expired message from `p` on. The result is the number of blocks and the block that
-- the reader goes on with; `none` is a loop that does not end within the fuel.
skip_message : ℕ → SndBuffer → ℕ → ℕ → Bool → ℕ → ℕ → Option (ℕ × ℕ)
skip_message zero b msgno p move curr msglen = none
skip_message (suc fuel) b msgno p move curr msglen =
    let move' = move || p == b.curr_block in
    let rest =
      skip_message fuel b msgno (b.next p) move' (if move' then b.next p else curr) (msglen + 1) in
    if msgno == (b.block p).msg_no % 2 ^ 29 then rest else some (msglen, curr)

-- What `readData` with an offset gives: a block, or the number and the length of a message that has
-- expired.
pub data Reread : Type 0 where
  resend : Block → Reread
  expired : ℕ → ℕ → Reread

pub read_data_at : SndBuffer → ℕ → ℕ → Option (Reread × SndBuffer)
unfolding advance skip_message
read_data_at b offset now =
    let p = advance b.next offset b.first_block in
    let old = b.block p in
    let msgno = old.msg_no % 2 ^ 29 in
    if leb_ℤ (pos 0) old.ttl
      && ltb (pos_part old.ttl) ((now + 2 ^ 64 - old.origin_time) % 2 ^ 64 / 1000)
    then elim (skip_message b.size b msgno (b.next p) false b.curr_block 1) [
      | none ↦ none
      | some (msglen, curr) ↦ some (expired msgno msglen, record b { curr_block = curr })
    ]
    else some (resend old, b)

pub ack_data : SndBuffer → ℕ → SndBuffer
unfolding advance
ack_data b offset = record b {
  first_block = advance b.next offset b.first_block;
  count = b.count - offset;
}

pub get_curr_buf_size : SndBuffer → ℕ
get_curr_buf_size b = b.count
