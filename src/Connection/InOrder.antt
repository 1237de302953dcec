-- ===== src/Connection/InOrder.antt =====
-- Packets that arrive in order at the receiver of a connection, and the ACK that hands them on.
use uvudt.Common.{
  ℕ, suc, ◌+◌, ◌%◌, ◌^◌, ◌≤◌, ◌<◌, true, false, not, ◌||◌, some, List, [], ◌∷◌, ◌++◌, ◌≡◌, ◌∙◌,
  refl, sym, ap, arith, ltb, ◌==◌, if◌then◌else◌, ◌⊎◌, length, length-append, inl, inr,
}
use mathlib.Core.Path.{subst}
use uvudt.Common.Int.{ℤ, pos, pos_part, leb_ℤ, ltb_ℤ, ◌==ℤ◌}
use uvudt.Seqno.{max_seqno, seqoff, seqcmp, incseq}
use uvudt.Packet.{Packet, get_length}
use uvudt.RcvBuffer.{RcvUnit, add_data, get_avail_buf_size}
use uvudt.RcvBuffer.Arrive.{Ready, Ready-avail, add_data-Ready, add_data-ring}
use uvudt.RcvLossList.{get_loss_length}
use uvudt.Connection.Sending.{next_number}
use uvudt.Connection.Resending.{gap_off}
use uvudt.Connection.Receive.{
  seq_no, unit_of, note_arrival, detect_loss, note_seqno, note_data, take_packet, process_data,
}
use uvudt.Connection.{Env, Cudt, emit, tell_cc, counts, recv_pkt}

-- The receiver has the packets up to the current number, of which the ones from `base` on, `vs`, are
-- not acknowledged. The reader's units are `us`.
pub record Receiving {C : Type 0} (c : Cudt C) (base : ℕ) (us vs : List RcvUnit) : Type 0 where
  pub last_is : c.rcv_last_ack ≡ pos base
  pub base_in : base ≤ max_seqno
  pub curr_is : c.rcv_curr_seq_no ≡ pos ((base + length vs + max_seqno) % 2 ^ 30)
  pub none_lost : (get_loss_length c.rcv_loss_list ==ℤ pos 0) ≡ true
  pub buffer : Ready c.rcv_buffer us vs

-- A number and the one before it.
cmp_after :
    (a b : ℕ)
    → a ≤ max_seqno
    → b ≤ max_seqno
    → (a ≡ b + 1) ⊎ (a + 0x4000_0000 ≡ b + 1)
    → ltb_ℤ (pos 0) (seqcmp (pos a) (pos b)) ≡ true
unfolding seqcmp
cmp_after a b ha hb (inl e) = ground arith
cmp_after a b ha hb (inr e) = ground arith

cmp_same : (n : ℕ) → ltb_ℤ (pos 0) (seqcmp (pos n) (pos n)) ≡ false
unfolding seqcmp
cmp_same n = ground arith

-- The unit as the buffer keeps it.
abbrev pub good_unit : ℕ → Packet → RcvUnit
good_unit id p = record (unit_of id p) { flag = 1 }

note_data_lem :
    {Key C : Type 0} (env : Env Key C) (now wall : ℕ) (p : Packet) (c : Cudt C) (base n : ℕ)
    → c.rcv_curr_seq_no ≡ pos ((base + n + max_seqno) % 2 ^ 30)
    → seq_no p ≡ pos ((base + n) % 2 ^ 30)
    → note_data env now wall p c
      ≡ some (record c {
        next_ack_time = if not (get_length p == env.payload_size) then now else c.next_ack_time;
        rcv_curr_seq_no = seq_no p;
      })
unfolding note_data detect_loss note_seqno
note_data_lem env now wall p c base n curr here =
    let next : incseq c.rcv_curr_seq_no ≡ seq_no p =
      ap incseq curr ∙ next_number base n ∙ sym here in
    let no_gap : ltb_ℤ (pos 0) (seqcmp (seq_no p) (incseq c.rcv_curr_seq_no)) ≡ false =
      ap (λ (z : ℤ). ltb_ℤ (pos 0) (seqcmp (seq_no p) z)) next ∙ cmp_same p.header.word0 in
    let newer : ltb_ℤ (pos 0) (seqcmp (seq_no p) c.rcv_curr_seq_no) ≡ true =
      ap (λ (z : ℤ). ltb_ℤ (pos 0) (seqcmp z c.rcv_curr_seq_no)) here
      ∙ ap (λ (z : ℤ). ltb_ℤ (pos 0) (seqcmp (pos ((base + n) % 2 ^ 30)) z)) curr
      ∙ cmp_after ((base + n) % 2 ^ 30) ((base + n + max_seqno) % 2 ^ 30) (omega arith)
          (omega arith) (omega arith) in
    rw (no_gap, newer, note_data) refl

within : (n m : ℕ) → n < m → (ltb_ℤ (pos n) (pos 0) || leb_ℤ (pos m) (pos n)) ≡ false
within n m h = ground arith

-- The size of the ring, and what the reader has read of the first unit.
abbrev pub SameRing : {C : Type 0} → Cudt C → Cudt C → Type 0
SameRing c c' =
    (c'.rcv_buffer.size ≡ c.rcv_buffer.size) × (c'.rcv_buffer.notch ≡ c.rcv_buffer.notch)

pub take_packet_lem :
    {Key C : Type 0} (env : Env Key C) (now wall id : ℕ) (p : Packet) (c : Cudt C) (base : ℕ)
    (us vs : List RcvUnit)
    → Receiving c base us vs
    → seq_no p ≡ pos ((base + length vs) % 2 ^ 30)
    → length vs < 0x1fff_ffff
    → length us + suc (length vs) < c.rcv_buffer.size
    → (c' : Cudt C) × (take_packet env now wall id p c ≡ some (true, c'))
      × Receiving c' base us (vs ++ good_unit id p ∷ [])
      × (c'.log ≡ c.log)
      × (c'.rcv_last_ack_ack ≡ c.rcv_last_ack_ack)
      × SameRing c c'
unfolding take_packet
take_packet_lem env now wall id p c base us vs r here few room =
    let u = unit_of id p in
    let offset : seqoff c.rcv_last_ack (seq_no p) ≡ pos (length vs) =
      ap (λ (z : ℤ). seqoff z (seq_no p)) r.last_is
      ∙ ap (seqoff (pos base)) here
      ∙ gap_off base (length vs) r.base_in few in
    let b = (add_data c.rcv_buffer u (pos_part (seqoff c.rcv_last_ack (seq_no p)))).1 in
    let (added, ready) = add_data-Ready c.rcv_buffer us vs u r.buffer room in
    let inside : (ltb_ℤ (seqoff c.rcv_last_ack (seq_no p)) (pos 0)
          || leb_ℤ (pos (get_avail_buf_size c.rcv_buffer)) (seqoff c.rcv_last_ack (seq_no p)))
        ≡ false =
      ap (λ (z : ℤ). ltb_ℤ z (pos 0) || leb_ℤ (pos (get_avail_buf_size c.rcv_buffer)) z) offset
      ∙ within (length vs) (get_avail_buf_size c.rcv_buffer)
          (Ready-avail c.rcv_buffer us vs r.buffer room) in
    let added' : (add_data c.rcv_buffer u (pos_part (seqoff c.rcv_last_ack (seq_no p)))).0 ≡ true =
      ap (λ (z : ℤ). (add_data c.rcv_buffer u (pos_part z)).0) offset ∙ added in
    let ready' : Ready b us (vs ++ good_unit id p ∷ []) =
      subst
        (λ (z : ℤ). Ready (add_data c.rcv_buffer u (pos_part z)).1 us (vs ++ good_unit id p ∷ []))
        (sym offset) ready in
    let noted =
      note_data_lem env now wall p (record c { rcv_buffer = b }) base (length vs) r.curr_is here in
    rw (inside, added', noted, take_packet)
      (
        record c {
          rcv_buffer = b;
          next_ack_time = if not (get_length p == env.payload_size) then now else c.next_ack_time;
          rcv_curr_seq_no = seq_no p;
        },
        refl,
        record {
          last_is = r.last_is;
          base_in = r.base_in;
          curr_is = here ∙ ap pos (omega (arith, length-append vs (good_unit id p ∷ [])));
          none_lost = r.none_lost;
          buffer = ready';
        },
        refl,
        refl,
        add_data-ring c.rcv_buffer u (pos_part (seqoff c.rcv_last_ack (seq_no p))),
      )

pub Receiving-note_arrival :
    {Key C : Type 0} (env : Env Key C) (now wall : ℕ) (p : Packet) (c : Cudt C) (base : ℕ)
    (us vs : List RcvUnit)
    → Receiving c base us vs
    → Receiving (note_arrival env now wall p c) base us vs
      × ((note_arrival env now wall p c).rcv_buffer ≡ c.rcv_buffer)
unfolding note_arrival tell_cc emit
Receiving-note_arrival env now wall p c base us vs r = (
  record {
    last_is = r.last_is;
    base_in = r.base_in;
    curr_is = r.curr_is;
    none_lost = r.none_lost;
    buffer = r.buffer;
  },
  refl,
)

-- `processData` without a MAC on data, for the packet with the number after the current one, where no
-- number is lost and the ring has a slot for it: the packet is taken, nothing is sent, and the unit
-- stands behind the ones that have arrived.
pub process_data-Receiving :
    {Key C : Type 0} (env : Env Key C) (now wall id : ℕ) (p : Packet) (c : Cudt C) (base : ℕ)
    (us vs : List RcvUnit)
    → Receiving c base us vs
    → ltb 1 env.sec_mod ≡ false
    → p.header.word0 ≡ (base + length vs) % 2 ^ 30
    → length vs < 0x1fff_ffff
    → length us + suc (length vs) < c.rcv_buffer.size
    → (c' : Cudt C) × (process_data env now wall id p c ≡ some (true, c'))
      × Receiving c' base us (vs ++ good_unit id p ∷ [])
      × (c'.log ≡ counts recv_pkt (pos 1) ∷ c.log)
      × (c'.rcv_last_ack_ack ≡ c.rcv_last_ack_ack)
      × SameRing c c'
unfolding process_data note_arrival tell_cc emit
process_data-Receiving env now wall id p c base us vs r plain here few room =
    let noted = note_arrival env now wall p c in
    let (r', same) = Receiving-note_arrival env now wall p c base us vs r in
    let (c', takes, receiving, log, acked, ring) =
      take_packet_lem env now wall id p noted base us vs r' (ap pos here) few room in
    rw (plain, process_data) (c', takes, receiving, log, acked, ring)
