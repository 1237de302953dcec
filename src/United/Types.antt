-- ===== src/United/Types.antt =====
-- The data of UDT4/src/api.h: the socket, the multiplexer, and the table of both; and the members of
-- CUDT of UDT4/src/core.h that the table reads and writes.
use uvudt.Common.{ℕ, Bool, Option, List, []}
use uvudt.Common.Int.{ℤ, pos}
use uvudt.Epoll.{Epoll}
use uvudt.Epoll.Sets.{IntSet}

pub data Status : Type 0 where
  init : Status
  opened : Status
  listening : Status
  connecting : Status
  connected : Status
  broken : Status
  closing : Status
  closed : Status
  nonexist : Status

-- `sockaddr_in` and `sockaddr_in6`; `bytes` is read for the second only.
pub record SockAddr : Type 0 where
  pub port : ℕ
  pub addr : ℕ
  pub bytes : List ℕ

-- CUDT. A size is `none` while the buffer is not there; `is_on_rcv_list` is `m_pRNode->m_bOnList`.
pub record Udt : Type 0 where
  pub is_open : Bool
  pub is_listening : Bool
  pub is_connecting : Bool
  pub is_connected : Bool
  pub is_closing : Bool
  pub is_broken : Bool
  pub rendezvous : Bool
  pub syn_sending : Bool
  pub syn_recving : Bool
  pub reuse_addr : Bool
  pub reuse_able : Bool
  pub stream : Bool
  pub linger_on : Bool
  pub linger_seconds : ℕ
  pub linger_expiration : ℕ
  pub ip_version : ℕ
  pub mss : ℤ
  pub flight_flag_size : ℤ
  pub rcv_buf_size : ℤ
  pub snd_buf_size : ℕ
  pub isn : ℤ
  pub broken_counter : ℤ
  pub rcv_data : Option ℕ
  pub rcv_msgs : ℕ
  pub snd_data : Option ℕ
  pub is_on_rcv_list : Bool
  pub poll_ids : IntSet

-- CUDTSocket. `accept_locked` is set once a call of `accept` has left `m_AcceptLock` locked for ever.
pub record CudtSocket : Type 0 where
  pub status : Status
  pub time_stamp : ℕ
  pub ip_version : ℕ
  pub peer_addr : Option SockAddr
  pub self_port : ℕ
  pub socket_id : ℤ
  pub listen_socket : ℤ
  pub peer_id : ℤ
  pub isn : ℤ
  pub udt : Udt
  pub queued : Option IntSet
  pub accepted : Option IntSet
  pub backlog : ℕ
  pub mux_id : ℤ
  pub accept_locked : Bool

-- CMultiplexer; `listener` is `m_pRcvQueue->m_pListener`.
pub record Mux : Type 0 where
  pub port : ℕ
  pub ip_version : ℕ
  pub mss : ℤ
  pub ref_count : ℕ
  pub reuse_able : Bool
  pub id : ℤ
  pub listener : Option ℤ

-- CUDTUnited.
pub record United : Type 0 where
  pub sockets : IntSet
  pub closed_sockets : IntSet
  pub heap : List (ℤ × CudtSocket)
  pub socket_seed : ℤ
  pub peer_rec : List (ℤ × IntSet)
  pub muxes : List (ℤ × Mux)
  pub epoll : Epoll

-- How a call ends: with a value, with a CUDTException, or not yet (it still waits after the moments
-- that are given).
pub data Reply {ℓ} (A : Type ℓ) : Type ℓ where
  returns : A → Reply A
  throws : ℕ → ℕ → Reply A
  waits : Reply A

-- The state of an application's table before any call; `seed` is the random number.
pub start : ℤ → United
start seed = record {
  sockets = [];
  closed_sockets = [];
  heap = [];
  socket_seed = seed;
  peer_rec = [];
  muxes = [];
  epoll = record { id_seed = pos 0; polls = [] };
}
