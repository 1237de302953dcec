-- ===== src/AckWindow.antt =====
-- CACKWindow of UDT4/src/window.h and UDT4/src/window.cpp: the ACKs that were sent and not yet
-- acknowledged, in a circular array. The time is an argument of the calls.
pub mod Contents
pub mod Store
pub mod Acknowledge
mod Tests
use uvudt.Common.{
  ℕ, zero, suc, ◌+◌, ◌-◌, ◌%◌, ◌^◌, Option, none, some, leb, ◌==◌, if◌then◌else◌, write,
}
use uvudt.Common.Int.{ℤ, ◌==ℤ◌, minus_one, to_int}
use mathlib.Core.Bool.{Bool}

pub record AckWindow : Type 0 where
  pub ack_seq_no : ℕ → ℤ
  pub ack : ℕ → ℤ
  pub time_stamp : ℕ → ℕ
  pub size : ℕ
  pub head : ℕ
  pub tail : ℕ

-- The arrays hold whatever `new` found in the memory.
pub create : (ℕ → ℤ) → (ℕ → ℤ) → (ℕ → ℕ) → ℕ → AckWindow
create seqs acks stamps size = record {
  ack_seq_no = write seqs 0 minus_one;
  ack = acks;
  time_stamp = stamps;
  size = size;
  head = 0;
  tail = 0;
}

pub store : AckWindow → ℤ → ℤ → ℕ → AckWindow
store w seq ack now =
    let head = (w.head + 1) % w.size in
    record {
      ack_seq_no = write w.ack_seq_no w.head seq;
      ack = write w.ack w.head ack;
      time_stamp = write w.time_stamp w.head now;
      size = w.size;
      head = head;
      tail = if head == w.tail then (w.tail + 1) % w.size else w.tail;
    }

-- `for (j = i; j < i + k; ++ j) if (seq == seqs(j)) ...`: the first such `j`.
pub first_match : (ℕ → ℤ) → ℤ → ℕ → ℕ → Option ℕ
first_match seqs seq i zero = none
first_match seqs seq i (suc k) =
    let rest = first_match seqs seq (i + 1) k in if seq ==ℤ seqs i then some i else rest

-- `int(CTimer::getTime() - m_pTimeStamp[i])`, over uint64_t.
pub round_trip : ℕ → ℕ → ℤ
unfolding to_int
round_trip now stamp = to_int ((now + 2 ^ 64 - stamp) % 2 ^ 64)

pub reset : AckWindow → AckWindow
reset w = record w { ack_seq_no = write w.ack_seq_no 0 minus_one; head = 0; tail = 0 }

-- The return value, `ack` as the call leaves it, and the window.
pub record Acked : Type 0 where
  pub rtt : ℤ
  pub data_ack : ℤ
  pub window : AckWindow

-- The ACK node has been overwritten.
abbrev pub missing : AckWindow → ℤ → Acked
missing w ack = record { rtt = minus_one; data_ack = ack; window = w }

-- The ACK is at `i`; `last` is the code's test for the newest one.
pub found : AckWindow → ℕ → Bool → ℕ → Acked
unfolding round_trip reset
found w now last i = record {
  rtt = round_trip now (w.time_stamp i);
  data_ack = w.ack i;
  window = if last then reset w else record w { tail = (i + 1) % w.size };
}

pub acknowledge : AckWindow → ℤ → ℤ → ℕ → Acked
unfolding first_match found
acknowledge w seq ack now =
    if leb w.tail w.head
    then elim (first_match w.ack_seq_no seq w.tail (w.head - w.tail)) [
      | none ↦ missing w ack
      | some i ↦ found w now (i + 1 == w.head) i
    ]
    else elim (first_match (λ j. w.ack_seq_no (j % w.size)) seq w.tail (w.head + w.size - w.tail)) [
      | none ↦ missing w ack
      | some j ↦ found w now (j % w.size == w.head) (j % w.size)
    ]
