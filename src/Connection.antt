-- ===== src/Connection.antt =====
-- The state of a connected CUDT (UDT4/src/core.h and UDT4/src/udt_core.cpp), and what it does to its
-- surroundings. A call takes the connection and returns the new one; the calls that leave the
-- connection (packets that go out, the schedule of the senders, polls, signals, counters) are
-- written to `log`, the last one first. `none` is a read outside the memory that is there, or a loop
-- that does not end within its fuel. The congestion control is an object of the application (class
-- CCC, virtual methods): its state has any type, `react` is what a call does to it, and `limits` are
-- the sending period in CPU cycles and the congestion window that CCUpdate derives from it. The
-- clock stands still during a call: `now` is `CTimer::rdtsc` and `wall` is `CTimer::getTime`.
pub mod Wire
pub mod Control
pub mod Receive
pub mod Acks
pub mod Reports
pub mod Pace
pub mod Dispatch
pub mod Timers
pub mod Sends
pub mod Sending
pub mod Resending
pub mod Feedback
pub mod Progress
pub mod InOrder
pub mod Deliver
pub mod Transfer
pub mod Security
pub mod Refuse
mod Tests
use uvudt.Common.{
  ℕ, ◌+◌, ◌-◌, ◌*◌, ◌%◌, ◌^◌, Bool, true, Option, none, some, List, [], ◌∷◌, if◌then◌else◌,
}
use uvudt.Common.Int.{ℤ, pos, negsuc}
use uvudt.AckWindow.{AckWindow}
use uvudt.PktTimeWindow.{PktTimeWindow}
use uvudt.RcvBuffer.{RcvBuffer}
use uvudt.RcvLossList.{RcvLossList}
use uvudt.SndBuffer.{SndBuffer}
use uvudt.SndLossList.{SndLossList}
use uvudt.Packet.{Packet, Digest}

-- The calls of the congestion control.
pub data CcEvent : Type 0 where
  on_ack : ℤ → CcEvent
  on_loss : List ℤ → CcEvent
  on_timeout : CcEvent
  on_pkt_sent : Packet → CcEvent
  on_pkt_received : Packet → CcEvent
  set_rtt : ℤ → CcEvent
  set_rcv_rate : ℤ → CcEvent
  set_bandwidth : ℤ → CcEvent
  set_snd_curr_seq_no : ℤ → CcEvent
  custom_msg : Packet → CcEvent

-- The statistics; a counter that the code keeps twice, as a trace and as a total, is one.
pub data Counter : Type 0 where
  sent_ack : Counter
  sent_nak : Counter
  recv_ack : Counter
  recv_nak : Counter
  snd_loss : Counter
  rcv_loss : Counter
  retrans : Counter
  sent_pkt : Counter
  recv_pkt : Counter

pub data Effect : Type 0 where
  send_to : Packet → Effect
  -- `m_pSndUList->update(this, reschedule)`
  schedule : Bool → Effect
  -- `update_events` with these events
  poll_events : ℕ → Bool → Effect
  feed_osfd : Effect
  trigger_event : Effect
  signal_recv : Effect
  signal_send : Effect
  release_synch : Effect
  counts : Counter → ℤ → Effect

-- A difference of times, over uint64_t.
abbrev pub since : ℕ → ℕ → ℕ
since t s = (t + 2 ^ 64 - s) % 2 ^ 64

-- `uint64_t(a) * frequency`
abbrev pub cycles : ℤ → ℕ → ℕ
cycles (pos n) frequency = n * frequency % 2 ^ 64
cycles (negsuc n) frequency = (2 ^ 64 - 1 - n) * frequency % 2 ^ 64

-- m_iSYNInterval, in microseconds.
abbrev pub syn_interval : ℕ
syn_interval = 10_000

-- What does not change, and the code that is not part of the connection.
pub record Env (Key C : Type 0) : Type 0 where
  pub md5 : Key → List ℕ → Digest
  pub react : C → CcEvent → C
  pub limits : C → ℕ × ℤ
  pub nth : List ℤ → ℕ → ℤ
  pub cpu_frequency : ℕ
  pub payload_size : ℕ
  pub peer_id : ℕ
  pub sec_mod : ℕ
  pub sec_key : Key
  pub qos : Bool
  -- `m_pCookie ^ m_iISN`
  pub cookie : ℕ
  pub start_time : ℕ
  -- What a handshake that is sent again says.
  pub isn : ℤ
  pub mss : ℤ
  pub flight_flag_size : ℤ
  pub rendezvous : Bool
  pub socket_id : ℤ
  -- `m_iACKInterval` and `m_iACKPeriod`; `m_iRTO` where the application sets it.
  pub ack_interval : C → ℕ
  pub ack_period : C → ℕ
  pub user_rto : C → Option ℕ
  pub syn_sending : Bool
  pub syn_recving : Bool

pub record Cudt (C : Type 0) : Type 0 where
  -- sending
  pub snd_buffer : SndBuffer
  pub snd_loss_list : SndLossList
  pub snd_last_ack : ℤ
  pub snd_last_data_ack : ℤ
  pub snd_curr_seq_no : ℤ
  pub snd_last_ack2 : ℤ
  pub snd_last_ack2_time : ℕ
  pub last_dec_seq : ℤ
  pub last_warning_time : ℕ
  pub flow_window_size : ℤ
  pub interval : ℕ
  pub congestion_window : ℤ
  pub time_diff : ℕ
  pub target_time : ℕ
  pub delivery_rate : ℤ
  pub bandwidth : ℤ
  pub cc : C
  -- receiving
  pub rcv_buffer : RcvBuffer
  pub rcv_loss_list : RcvLossList
  pub ack_window : AckWindow
  pub rcv_time_window : PktTimeWindow
  pub rcv_last_ack : ℤ
  pub rcv_last_ack_ack : ℤ
  pub rcv_curr_seq_no : ℤ
  pub ack_seq_no : ℤ
  pub last_ack_time : ℕ
  pub next_ack_time : ℕ
  pub nak_int : ℕ
  pub pkt_count : ℕ
  pub light_ack_count : ℕ
  -- both
  pub rtt : ℤ
  pub rtt_var : ℤ
  pub exp_count : ℕ
  pub last_rsp_time : ℕ
  pub broken : Bool
  pub closing : Bool
  pub shutdown : Bool
  pub peer_health : Bool
  pub broken_counter : ℕ
  pub log : List Effect

module _ {C : Type 0} where
  pub emit : Effect → Cudt C → Cudt C
  emit e c = record c { log = e ∷ c.log }

  pub emit_if : Bool → Effect → Cudt C → Cudt C
  emit_if on e c = record c { log = if on then e ∷ c.log else c.log }

  pub mark_broken : ℕ → Cudt C → Cudt C
  mark_broken counter c = record c { broken = true; broken_counter = counter }

module _ {Key C : Type 0} (env : Env Key C) where
  -- A call of a method of `m_pCC`.
  pub tell_cc : CcEvent → Cudt C → Cudt C
  tell_cc e c = record c { cc = env.react c.cc e }

  -- `CCUpdate`
  pub cc_update : Cudt C → Cudt C
  cc_update c = record c { interval = (env.limits c.cc).0; congestion_window = (env.limits c.cc).1 }
