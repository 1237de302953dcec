-- ===== src/Connection/Refuse.antt =====
-- Data packets that the receiver of a connection does not take.
use uvudt.Common.{
  ℕ, ◌+◌, ◌%◌, ◌∷◌, true, false, ◌||◌, some, ◌≡◌, ◌⊎◌, refl, arith, ltb, inl, inr, Bool-cases,
}
use uvudt.Common.Int.{ℤ, pos, leb_ℤ, ltb_ℤ, ◌≤ℤ◌, ◌<ℤ◌, pos_part}
use uvudt.Seqno.{seqoff}
use uvudt.Packet.{Packet}
use uvudt.RcvBuffer.{RcvUnit, get_avail_buf_size, add_data}
use uvudt.RcvBuffer.Arrive.{add_data-taken}
use uvudt.Connection.Receive.{seq_no, unit_of, note_arrival, take_packet, process_data}
use uvudt.Connection.{Env, Cudt, tell_cc, emit, counts, recv_pkt}

-- What a packet that is not taken leaves alone.
abbrev pub SameReceiver : {C : Type 0} → Cudt C → Cudt C → Type 0
SameReceiver c c' =
    (c'.rcv_loss_list ≡ c.rcv_loss_list)
    × (c'.rcv_last_ack ≡ c.rcv_last_ack)
    × (c'.rcv_curr_seq_no ≡ c.rcv_curr_seq_no)
    × (c'.rcv_buffer.units ≡ c.rcv_buffer.units)
    × (c'.log ≡ counts recv_pkt (pos 1) ∷ c.log)

-- The number is outside the free slots, or its slot is taken.
abbrev pub Unwanted : {C : Type 0} → Cudt C → Packet → Type 0
Unwanted c p =
    (seqoff c.rcv_last_ack (seq_no p) <ℤ pos 0)
    ⊎ (pos (get_avail_buf_size c.rcv_buffer) ≤ℤ seqoff c.rcv_last_ack (seq_no p))
    ⊎ ((old : RcvUnit) × (c.rcv_buffer.units (
            (c.rcv_buffer.last_ack_pos + pos_part (seqoff c.rcv_last_ack (seq_no p)))
            % c.rcv_buffer.size)
          ≡ some old))

outside :
    {C : Type 0} (c : Cudt C) (x : ℤ)
    → (x <ℤ pos 0) ⊎ (pos (get_avail_buf_size c.rcv_buffer) ≤ℤ x)
    → (ltb_ℤ x (pos 0) || leb_ℤ (pos (get_avail_buf_size c.rcv_buffer)) x) ≡ true
outside c x (inl low) = ground arith
outside c x (inr high) = ground arith

take_packet_refuses :
    {Key C : Type 0} (env : Env Key C) (now wall id : ℕ) (p : Packet) (c : Cudt C)
    → Unwanted c p
    → (c' : Cudt C) × (take_packet env now wall id p c ≡ some (false, c'))
      × (c'.rcv_loss_list ≡ c.rcv_loss_list)
      × (c'.rcv_last_ack ≡ c.rcv_last_ack)
      × (c'.rcv_curr_seq_no ≡ c.rcv_curr_seq_no)
      × (c'.rcv_buffer.units ≡ c.rcv_buffer.units)
      × (c'.log ≡ c.log)
unfolding take_packet
take_packet_refuses env now wall id p c (inl low) =
    let away = outside c (seqoff c.rcv_last_ack (seq_no p)) (inl low) in
    rw (away, take_packet) (c, refl, refl, refl, refl, refl, refl)
take_packet_refuses env now wall id p c (inr (inl high)) =
    let away = outside c (seqoff c.rcv_last_ack (seq_no p)) (inr high) in
    rw (away, take_packet) (c, refl, refl, refl, refl, refl, refl)
take_packet_refuses env now wall id p c (inr (inr (old, there))) =
    let x = seqoff c.rcv_last_ack (seq_no p) in
    let (kept, units) = add_data-taken c.rcv_buffer (unit_of id p) old (pos_part x) there in
    elim (Bool-cases (ltb_ℤ x (pos 0) || leb_ℤ (pos (get_avail_buf_size c.rcv_buffer)) x)) [
      | inl away ↦ rw (away, take_packet) (c, refl, refl, refl, refl, refl, refl)
      | inr inside ↦
          rw (inside, kept, take_packet)
            (
              record c { rcv_buffer = (add_data c.rcv_buffer (unit_of id p) (pos_part x)).1 },
              refl,
              refl,
              refl,
              refl,
              units,
              refl,
            )
    ]

-- `processData` without a MAC on data, for a packet that comes before the last ACK, or does not fit
-- into the ring, or whose slot is taken by a packet that came before: it is not taken. The units of the
-- ring, the numbers and the loss list stay, and nothing is sent; the packet is counted.
pub process_data-refuses :
    {Key C : Type 0} (env : Env Key C) (now wall id : ℕ) (p : Packet) (c : Cudt C)
    → ltb 1 env.sec_mod ≡ false
    → Unwanted c p
    → (c' : Cudt C) × (process_data env now wall id p c ≡ some (false, c')) × SameReceiver c c'
unfolding process_data note_arrival tell_cc emit
process_data-refuses env now wall id p c plain unwanted =
    let (c', refuses, losses, last, curr, units, log) =
      take_packet_refuses env now wall id p (note_arrival env now wall p c) unwanted in
    rw (plain, process_data) (c', refuses, (losses, last, curr, units, log))
