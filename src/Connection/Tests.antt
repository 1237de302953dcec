-- ===== src/Connection/Tests.antt =====
-- A connection with one packet in flight and one that waits, and the theorems on it.
use uvudt.Common.{
  ℕ, suc, ◌+◌, ◌*◌, ◌%◌, ◌^◌, true, false, some, none, List, [], ◌∷◌, ◌++◌, ◌≡◌, refl, arith,
  length, inl, inr, ◌⊎◌,
}
use uvudt.Common.Int.{ℤ, pos, minus_one, leb_ℤ, to_int, put}
use uvudt.Seqno.{seqcmp, seqoff, decseq}
use uvudt.Packet.{Packet, get_length, get_type}
use uvudt.SndBuffer.{Block, SndBuffer}
use uvudt.SndBuffer.Ring.{Holds}
use uvudt.SndLossList.{SndLossList, get_lost_seq, remove, remove_head}
use uvudt.RcvBuffer.{RcvBuffer}
use uvudt.RcvBuffer.Stream.{bytes, waiting}
use uvudt.RcvLossList.{RcvLossList, get_loss_length}
use uvudt.Connection.{Env, Cudt, send_to}
use uvudt.Connection.Wire.{load, read_int}
use uvudt.Connection.Control.{send_ack}
use uvudt.Connection.Acks.{process_ack}
use uvudt.Connection.Receive.{process_data}
use uvudt.Connection.Pace.{Packed, pack_data}
use uvudt.Connection.Dispatch.{process_ctrl}
use uvudt.Connection.Sending.{Sending, Went, may_send, pack_data-Went}
use uvudt.Connection.Resending.{Resent, pack_data-resends}
use uvudt.Connection.Progress.{FullAck, Progress, woken, process_ack-Progress}
use uvudt.Connection.InOrder.{Receiving, good_unit}
use uvudt.Connection.Transfer.{units_of, receive_all, receive_all-delivers}
use uvudt.Connection.Refuse.{SameReceiver, process_data-refuses}
use uvudt.Connection.Security.{process_ctrl-Forged, process_data-mac}

abbrev sum : List ℕ → ℕ
sum [] = 0
sum (x ∷ xs) = x + sum xs

-- A digest that adds bytes up, and a congestion control that does nothing.
abbrev env : ℕ → Env ℕ ℕ
env mode = record {
  md5 = λ key data_bytes. record {
    digest0 = sum data_bytes;
    digest1 = key;
    digest2 = 0;
    digest3 = 0;
  };
  react = λ c e. c;
  limits = λ c. (10, pos 16);
  nth = λ xs n. pos 0;
  cpu_frequency = 1;
  payload_size = 1456;
  peer_id = 9;
  sec_mod = mode;
  sec_key = 5;
  qos = true;
  cookie = 3;
  start_time = 0;
  isn = pos 0;
  mss = pos 1500;
  flight_flag_size = pos 25600;
  rendezvous = false;
  socket_id = pos 1;
  ack_interval = λ c. 0;
  ack_period = λ c. 0;
  user_rto = λ c. none;
  syn_sending = true;
  syn_recving = true;
}

abbrev block_of : List ℕ → Block
block_of data_bytes = record { pc_data = data_bytes; msg_no = 1; origin_time = 0; ttl = minus_one }

abbrev snd_ring : SndBuffer
snd_ring = record {
  block = λ i. block_of (i ∷ i ∷ []);
  next = λ i. (i + 1) % 4;
  fresh = 4;
  first_block = 0;
  curr_block = 1;
  last_block = 2;
  next_msg_no = 2;
  unit_size = 4;
  size = 4;
  mss = 3;
  count = 2;
}

abbrev snd_losses : ℤ → SndLossList
snd_losses n = record {
  data1 = λ i. pos 7;
  data2 = λ i. minus_one;
  next = λ i. minus_one;
  head = pos 0;
  length = n;
  size = 8;
  last_insert_pos = minus_one;
}

abbrev rcv_ring : RcvBuffer
rcv_ring = record {
  units = λ i. none;
  size = 8;
  queue_count = pos 0;
  freed = [];
  start_pos = 0;
  last_ack_pos = 0;
  max_pos = 0;
  notch = 0;
}

abbrev rcv_losses : RcvLossList
rcv_losses = record {
  data1 = λ i. minus_one;
  data2 = λ i. minus_one;
  next = λ i. minus_one;
  prior = λ i. minus_one;
  head = minus_one;
  tail = minus_one;
  length = pos 0;
  size = 8;
}

-- The numbers of the sender begin at 7, and those of the receiver at 5. `n` numbers are lost.
abbrev conn : ℤ → Cudt ℕ
conn n = record {
  snd_buffer = snd_ring;
  snd_loss_list = snd_losses n;
  snd_last_ack = pos 7;
  snd_last_data_ack = pos 7;
  snd_curr_seq_no = pos 7;
  snd_last_ack2 = pos 0;
  snd_last_ack2_time = 0;
  last_dec_seq = pos 0;
  last_warning_time = 0;
  flow_window_size = pos 8;
  interval = 10;
  congestion_window = pos 16;
  time_diff = 0;
  target_time = 0;
  delivery_rate = pos 16;
  bandwidth = pos 1;
  cc = 0;
  rcv_buffer = rcv_ring;
  rcv_loss_list = rcv_losses;
  ack_window = record {
    ack_seq_no = λ i. minus_one;
    ack = λ i. minus_one;
    time_stamp = λ i. 0;
    size = 16;
    head = 0;
    tail = 0;
  };
  rcv_time_window = record {
    aw_size = 2;
    pkt_window = λ i. pos 1;
    pkt_window_ptr = 0;
    pw_size = 2;
    probe_window = λ i. pos 1;
    probe_window_ptr = 0;
    last_sent_time = pos 0;
    min_pkt_snd_int = pos 1;
    last_arr_time = 0;
    curr_arr_time = 0;
    probe_time = 0;
  };
  rcv_last_ack = pos 5;
  rcv_last_ack_ack = pos 5;
  rcv_curr_seq_no = pos 4;
  ack_seq_no = pos 0;
  last_ack_time = 0;
  next_ack_time = 0;
  nak_int = 0;
  pkt_count = 0;
  light_ack_count = 1;
  rtt = pos 100;
  rtt_var = pos 10;
  exp_count = 1;
  last_rsp_time = 0;
  broken = false;
  closing = false;
  shutdown = false;
  peer_health = true;
  broken_counter = 0;
  log = [];
}

snd_ring-Holds : Holds snd_ring (0 ∷ []) (1 ∷ []) (3 ∷ [])
snd_ring-Holds = record {
  to_curr = (refl, refl);
  to_last = (refl, refl);
  around = (refl, (refl, refl));
  distinct = ((refl, (refl, (refl, tt))), ((refl, (refl, tt)), ((refl, tt), (tt, tt))));
  below = omega arith;
  counted = refl;
  sized = refl;
}

conn-Sending : (n : ℤ) → Sending (conn n) 7 (0 ∷ []) (1 ∷ []) (3 ∷ [])
conn-Sending n = record {
  base_is = refl;
  base_in = omega arith;
  curr_is = refl;
  blocks = snd_ring-Holds;
}

abbrev packet : ℕ → ℕ → List ℕ → ℕ → Packet
packet word0 word1 data_bytes len = record {
  header = record { word0 = word0; word1 = word1; word2 = 0; word3 = 1; word4 = 0 };
  base = some data_bytes;
  len = len;
}

pack_data-Went_example :
    (r : Packed ℕ) × (pack_data (env 0) 100 100 (packet 0 0 [] 0) 0 (conn (pos 0)) ≡ some r)
    × Went (may_send (conn (pos 0))) (1 ∷ []) snd_ring.block r 7 (0 ∷ []) (3 ∷ [])
pack_data-Went_example =
    pack_data-Went (env 0) 100 100 (packet 0 0 [] 0) 0 (conn (pos 0)) 7 (0 ∷ []) (1 ∷ []) (3 ∷ [])
      (conn-Sending (pos 0)) refl (refl, tt)

pack_data-resends_example :
    (r : Packed ℕ) × (pack_data (env 0) 100 100 (packet 0 0 [] 0) 0 (conn (pos 1)) ≡ some r)
    × Resent r (0 ∷ 0 ∷ []) 7 0
    × Sending r.conn 7 (0 ∷ []) (1 ∷ []) (3 ∷ [])
unfolding get_lost_seq remove_head
pack_data-resends_example =
    pack_data-resends (env 0) 100 100 (packet 0 0 [] 0) 0 (conn (pos 1)) 7 [] 0 [] (1 ∷ []) (3 ∷ [])
      (get_lost_seq (snd_losses (pos 1))).1 (conn-Sending (pos 1)) refl (omega arith) refl refl

abbrev ack_packet : ℕ → Packet
ack_packet ack =
    packet (2 ^ 31 + 2 * 2 ^ 16) 3
      (ack ∷ 0 ∷ 0 ∷ 0 ∷ 100 ∷ 0 ∷ 0 ∷ 0 ∷ 10 ∷ 0 ∷ 0 ∷ 0 ∷ 20 ∷ 0 ∷ 0 ∷ 0 ∷ 5 ∷ 0 ∷ 0 ∷ 0 ∷ 6 ∷ 0
        ∷ 0 ∷ 0 ∷ [])
      24

abbrev acked : List ℕ
acked = 0 ∷ []

ack_8-FullAck : FullAck (ack_packet 8) (pos ((7 + length acked) % 2 ^ 30)) (pos 20)
unfolding get_length load read_int to_int
ack_8-FullAck = record {
  rtt = pos 100;
  rate = pos 5;
  bandwidth = pos 6;
  whole = refl;
  ack_is = refl;
  rtt_is = refl;
  window_is = refl;
  rate_is = refl;
  bandwidth_is = refl;
}

-- The number 7 is on the loss list, and the ACK takes it off.
abbrev none_left : SndLossList
none_left = record (snd_losses (pos 0)) {
  data1 = put (λ i. pos 7) (pos 0) minus_one;
  head = minus_one;
}

takes_off :
    remove (snd_losses (pos 1)) (decseq (pos ((7 + length acked) % 2 ^ 30))) ≡ some none_left
unfolding remove remove_head decseq seqoff
takes_off = refl

process_ack-Progress_example :
    (c' : Cudt ℕ) × (process_ack (env 0) 100 100 (ack_packet 8) (conn (pos 1)) ≡ some c')
    × Progress (env 0) (conn (pos 1)) c' 7 (0 ∷ []) [] (1 ∷ []) (3 ∷ []) none_left
    × ((c'.log ≡ woken (env 0) []) ⊎ ((q : Packet) × (c'.log ≡ woken (env 0) (send_to q ∷ []))))
    × (leb_ℤ (pos 0) (seqcmp (pos ((7 + length acked) % 2 ^ 30)) (pos 7)) ≡ true
        → (c'.snd_last_ack ≡ pos ((7 + length acked) % 2 ^ 30)) × (c'.flow_window_size ≡ pos 20))
process_ack-Progress_example =
    process_ack-Progress (env 0) 100 100 (ack_packet 8) (pos 20) (conn (pos 1)) 7 0 [] [] (1 ∷ [])
      (3 ∷ []) none_left (conn-Sending (pos 1)) (omega arith) ack_8-FullAck takes_off

conn-Receiving : Receiving (conn (pos 0)) 5 [] []
unfolding get_loss_length
conn-Receiving = record {
  last_is = refl;
  base_in = omega arith;
  curr_is = refl;
  none_lost = refl;
  buffer = record {
    held = record { stored = refl; notched = refl };
    arrived = refl;
    free = λ k from below. refl;
    start_in = omega arith;
    last_in = omega arith;
    fits = omega arith;
  };
}

abbrev two_packets : List (ℕ × Packet)
two_packets = (1, packet 6 1 (3 ∷ []) 1) ∷ []

receive_all-delivers_example :
    (d : Cudt ℕ) × (e : Cudt ℕ) × (receive_all
        (env 0)
        100
        100
        ((0, packet 5 1 (1 ∷ 2 ∷ []) 2) ∷ two_packets)
        (conn (pos 0))
      ≡ some d)
    × (send_ack (env 0) 100 100 d ≡ some e)
    × Receiving e
        ((5 + suc (length two_packets)) % 2 ^ 30)
        (units_of ((0, packet 5 1 (1 ∷ 2 ∷ []) 2) ∷ two_packets))
        []
    × (waiting e.rcv_buffer (units_of ((0, packet 5 1 (1 ∷ 2 ∷ []) 2) ∷ two_packets))
        ≡ waiting rcv_ring [] ++ bytes (units_of ((0, packet 5 1 (1 ∷ 2 ∷ []) 2) ∷ two_packets)))
receive_all-delivers_example =
    receive_all-delivers (env 0) 100 100 0 (packet 5 1 (1 ∷ 2 ∷ []) 2) two_packets (conn (pos 0)) 5
      [] conn-Receiving refl (refl, (refl, tt)) (omega arith) (omega arith) refl

process_data-refuses_example :
    (c' : Cudt ℕ) × (process_data (env 0) 100 100 0 (packet 3 1 (1 ∷ []) 1) (conn (pos 0))
      ≡ some (false, c'))
    × SameReceiver (conn (pos 0)) c'
unfolding seqoff
process_data-refuses_example =
    process_data-refuses (env 0) 100 100 0 (packet 3 1 (1 ∷ []) 1) (conn (pos 0)) refl
      (inl (omega arith))

process_ctrl-Forged_example :
    process_ctrl (env 1) 100 100 (pos 0) (ack_packet 8) (conn (pos 0)) ≡ some (conn (pos 0))
unfolding get_type
process_ctrl-Forged_example =
    process_ctrl-Forged (env 1) 100 100 (pos 0) (ack_packet 8) (conn (pos 0)) refl
      (inr (refl, refl, λ h. absurd (omega (arith, h))))

-- A control packet without the flag.
abbrev forged_packet : Packet
forged_packet = ack_packet 8

process_data-mac_example :
    (process_data (env 2) 100 100 0 forged_packet (conn (pos 0)) ≡ some (false, conn (pos 0)))
    × ((d : Cudt ℕ) × (process_data (env 2) 100 100 0 (packet 5 1 (1 ∷ []) 1) (conn (pos 0))
          ≡ some (true, d))
        × Receiving d 5 [] (good_unit 0 (packet 5 1 (1 ∷ []) 1) ∷ []))
unfolding get_type
process_data-mac_example =
    process_data-mac (env 2) 100 100 0 forged_packet (packet 5 1 (1 ∷ []) 1) (conn (pos 0)) 5 [] []
      refl (inr (refl, refl, λ h. absurd (omega (arith, h)))) refl refl conn-Receiving (omega arith)
      (omega arith)
