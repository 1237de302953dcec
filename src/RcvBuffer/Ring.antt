-- ===== src/RcvBuffer/Ring.antt =====
-- The ring of CRcvBuffer: what the sizes count, and what arriving units change.
use uvudt.Common.{
  ℕ, suc, ◌+◌, ◌-◌, ◌%◌, ◌≤◌, ◌<◌, true, false, ◌&&◌, Option, none, some, List, [], ◌∷◌, ◌≡◌, ◌∙◌,
  refl, sym, ap, arith, leb, ◌==◌, if◌then◌else◌, length, ◌↔◌, write, Bool-cases, Option-cases, inl,
  inr,
}
use uvudt.RcvBuffer.Stream.{Stored, Holds}
use uvudt.RcvBuffer.{RcvUnit, RcvBuffer, step_pos, add_data, get_rcv_data_size, get_avail_buf_size}

abbrev pub distance : ℕ → ℕ → ℕ → ℕ
distance size p q = if leb p q then q - p else size + q - p

pub distance_step :
    (size p q : ℕ)
    → p < size
    → q < size
    → (p == q) ≡ false
    → (distance size p q ≡ suc (distance size (step_pos size p) q)) × step_pos size p < size
unfolding step_pos
distance_step size p q p_in q_in other = ground arith

pub Stored-distance :
    (units : ℕ → Option RcvUnit) (size p q : ℕ) (us : List RcvUnit)
    → p < size
    → q < size
    → Stored units size p q us
    → distance size p q ≡ length us
Stored-distance units size p q [] p_in q_in stored = ground arith
Stored-distance units size p q (u ∷ us) p_in q_in stored =
    let (one, step_in) = distance_step size p q p_in q_in stored.1 in
    let rest = Stored-distance units size (step_pos size p) q us step_in q_in stored.3 in
    one ∙ ap suc rest

-- For a buffer that holds units, with both positions within the ring: the size of the data is the
-- number of the units, and with the available size and the slot that stays free they fill the ring.
pub data_size-length :
    (b : RcvBuffer) (us : List RcvUnit)
    → Holds b us
    → b.start_pos < b.size
    → b.last_ack_pos < b.size
    → (get_rcv_data_size b ≡ length us) × (get_avail_buf_size b + length us + 1 ≡ b.size)
unfolding get_rcv_data_size get_avail_buf_size
data_size-length b us held start_in last_in =
    let counted =
      Stored-distance b.units b.size b.start_pos b.last_ack_pos us start_in last_in held.stored in
    (counted, ground (arith, counted))

pub Stored-add :
    (units : ℕ → Option RcvUnit) (size p q r : ℕ) (u : RcvUnit) (us : List RcvUnit)
    → units r ≡ none
    → Stored units size p q us
    → Stored (write units r (some u)) size p q us
Stored-add units size p q r u [] free stored = stored
Stored-add units size p q r u (v ∷ us) free stored =
    let other : (p == r) ≡ false = elim (Bool-cases (p == r)) [
      | inl same ↦
          let p_is : p ≡ r = ground arith in
          let there : units r ≡ some v = ap units (sym p_is) ∙ stored.0 in absurd cc
      | inr apart ↦ apart
    ] in
    (
      rw other (stored.0),
      stored.1,
      stored.2,
      Stored-add units size (step_pos size p) q r u us free stored.3,
    )

-- `addData`: a unit is taken exactly if its slot is free; then the slot holds it, marked as good, and
-- otherwise no slot changes. What the reader sees stays the same, and the furthest position grows to
-- the offset.
pub add_data_lem :
    (b : RcvBuffer) (us : List RcvUnit) (u : RcvUnit) (offset i : ℕ)
    → Holds b us
    → Holds (add_data b u offset).1 us
      × ((add_data b u offset).1.units i ≡ (
          if i == (b.last_ack_pos + offset) % b.size && (add_data b u offset).0
          then some (record u { flag = 1 })
          else b.units i))
      × (offset ≤ (add_data b u offset).1.max_pos)
      × (((add_data b u offset).0 ≡ true) ↔ (b.units ((b.last_ack_pos + offset) % b.size) ≡ none))
unfolding add_data
add_data_lem b us u offset i held =
    elim (Option-cases (b.units ((b.last_ack_pos + offset) % b.size))) [
      | inl free ↦
          rw (free, add_data)
            (
              record {
                stored =
                    Stored-add b.units b.size b.start_pos b.last_ack_pos
                      ((b.last_ack_pos + offset) % b.size) (record u { flag = 1 }) us free
                      held.stored;
                notched = held.notched;
              },
              ground arith,
              ground arith,
              (λ h. refl, λ h. refl),
            )
      | inr (old, there) ↦
          rw (there, add_data)
            (
              record { stored = held.stored; notched = held.notched },
              ground arith,
              ground arith,
              (λ h. absurd cc, λ h. absurd cc),
            )
    ]
