-- ===== src/Connection/Transfer.antt =====
-- A run of packets in order, and the bytes that the reader gets.
use uvudt.Common.{
  ℕ, suc, ◌+◌, ◌%◌, ◌^◌, ◌≤◌, ◌<◌, false, Option, none, some, List, [], ◌∷◌, ◌++◌, ◌≡◌, ◌∙◌, refl,
  sym, ap, arith, ltb, length, length-append, append_assoc, append_nil, drop, drop-append_short,
}
use mathlib.Core.Path.{subst}
use uvudt.Common.Int.{ℤ, pos, ◌==ℤ◌}
use uvudt.Packet.{Packet}
use uvudt.RcvBuffer.{RcvUnit}
use uvudt.RcvBuffer.Stream.{Notched, bytes, waiting}
use uvudt.Connection.InOrder.{Receiving, SameRing, good_unit, process_data-Receiving}
use uvudt.Connection.Deliver.{send_ack-Receiving}
use uvudt.Connection.Receive.{process_data}
use uvudt.Connection.Control.{send_ack}
use uvudt.Connection.{Env, Cudt}

module _ {Key C : Type 0} (env : Env Key C) (now wall : ℕ) where
  -- One `processData` after the other, for units of the shared queue.
  unfoldable pub receive_all : List (ℕ × Packet) → Cudt C → Option (Cudt C)
  receive_all [] c = some c
  receive_all ((id, p) ∷ ps) c = elim (process_data env now wall id p c) [
    | none ↦ none
    | some (taken, c') ↦ receive_all ps c'
  ]

abbrev pub units_of : List (ℕ × Packet) → List RcvUnit
units_of [] = []
units_of ((id, p) ∷ ps) = good_unit id p ∷ units_of ps

-- The packets have the numbers that are `n` and more behind `base`.
abbrev pub Numbered : ℕ → ℕ → List (ℕ × Packet) → Type 0
Numbered base n [] = Unit {0}
Numbered base n ((id, p) ∷ ps) = (p.header.word0 ≡ (base + n) % 2 ^ 30) × Numbered base (suc n) ps

receive_all-Receiving :
    {Key C : Type 0} (env : Env Key C) (now wall : ℕ) (ps : List (ℕ × Packet)) (c : Cudt C)
    (base : ℕ) (us vs : List RcvUnit)
    → Receiving c base us vs
    → ltb 1 env.sec_mod ≡ false
    → Numbered base (length vs) ps
    → length vs + length ps < 0x1fff_ffff
    → length us + (length vs + length ps) < c.rcv_buffer.size
    → (c' : Cudt C) × (receive_all env now wall ps c ≡ some c')
      × Receiving c' base us (vs ++ units_of ps)
      × (c'.rcv_last_ack_ack ≡ c.rcv_last_ack_ack)
      × SameRing c c'
unfolding receive_all
receive_all-Receiving env now wall [] c base us vs r plain numbered few room =
    (c, refl, subst (λ l. Receiving c base us l) (sym (append_nil vs)) r, refl, (refl, refl))
receive_all-Receiving env now wall ((id, p) ∷ ps) c base us vs r plain numbered few room =
    let (c', takes, r', log, acked, ring) =
      process_data-Receiving env now wall id p c base us vs r plain numbered.0 (omega arith)
        (omega arith) in
    let u = good_unit id p in
    let one : length (vs ++ u ∷ []) ≡ suc (length vs) = omega (arith, length-append vs (u ∷ [])) in
    let (d, rest, rd, acked', ring') =
      receive_all-Receiving env now wall ps c' base us (vs ++ u ∷ []) r' plain
        (subst (λ n. Numbered base n ps) (sym one) numbered.1) (omega (arith, one))
        (omega (arith, one, ring.0)) in
    rw (takes, receive_all)
      (
        d,
        rest,
        subst (λ l. Receiving d base us l) (append_assoc vs (u ∷ []) (units_of ps)) rd,
        acked' ∙ acked,
        (ring'.0 ∙ ring.0, ring'.1 ∙ ring.1),
      )

units_count : (ps : List (ℕ × Packet)) → length (units_of ps) ≡ length ps
units_count [] = refl
units_count ((id, p) ∷ ps) = ap suc (units_count ps)

bytes-append : (us vs : List RcvUnit) → bytes (us ++ vs) ≡ bytes us ++ bytes vs
bytes-append [] vs = refl
bytes-append (u ∷ us) vs =
    ap (λ l. u.pc_data ++ l) (bytes-append us vs)
    ∙ sym (append_assoc u.pc_data (bytes us) (bytes vs))

notch_within : (notch : ℕ) (us : List RcvUnit) → Notched notch us → notch ≤ length (bytes us)
notch_within notch [] h = omega (arith, h)
notch_within notch (u ∷ us) h = omega (arith, h, length-append u.pc_data (bytes us))

-- A run of packets in order, each with the number after the one before, and then `sendCtrl(2)`: where
-- data carries no MAC, all packets have a slot in the ring, and the sender is not known to have the
-- ACK, all calls return. The last ACK has moved behind the run, and the reader's bytes are the bytes
-- that waited before and then the payloads of the packets, in order.
pub receive_all-delivers :
    {Key C : Type 0} (env : Env Key C) (now wall id : ℕ) (p : Packet) (ps : List (ℕ × Packet))
    (c : Cudt C) (base : ℕ) (us : List RcvUnit)
    → Receiving c base us []
    → ltb 1 env.sec_mod ≡ false
    → Numbered base 0 ((id, p) ∷ ps)
    → suc (length ps) < 0x1fff_ffff
    → length us + suc (length ps) < c.rcv_buffer.size
    → (pos ((base + suc (length ps)) % 2 ^ 30) ==ℤ c.rcv_last_ack_ack) ≡ false
    → (d : Cudt C) × (e : Cudt C) × (receive_all env now wall ((id, p) ∷ ps) c ≡ some d)
      × (send_ack env now wall d ≡ some e)
      × Receiving e ((base + suc (length ps)) % 2 ^ 30) (us ++ units_of ((id, p) ∷ ps)) []
      × (waiting e.rcv_buffer (us ++ units_of ((id, p) ∷ ps))
          ≡ waiting c.rcv_buffer us ++ bytes (units_of ((id, p) ∷ ps)))
receive_all-delivers env now wall id p ps c base us r plain numbered few room unknown =
    let units = units_of ((id, p) ∷ ps) in
    let (d, receives, rd, acked, ring) =
      receive_all-Receiving env now wall ((id, p) ∷ ps) c base us [] r plain numbered (omega arith)
        (omega arith) in
    let counted : length (units_of ps) ≡ length ps = units_count ps in
    let known =
      ap (λ (z : ℤ). pos ((base + suc (length (units_of ps))) % 2 ^ 30) ==ℤ z) acked
      ∙ ap (λ (k : ℕ). pos ((base + suc k) % 2 ^ 30) ==ℤ c.rcv_last_ack_ack) counted
      ∙ unknown in
    let (e, sends, re, ring') =
      send_ack-Receiving env now wall d base us (good_unit id p) (units_of ps) rd
        (omega (arith, counted)) known in
    (
      d,
      e,
      receives,
      sends,
      subst (λ (k : ℕ). Receiving e ((base + suc k) % 2 ^ 30) (us ++ units) []) counted re,
      ap (λ (n : ℕ). drop n (bytes (us ++ units))) (ring'.1 ∙ ring.1)
          ∙ ap (drop c.rcv_buffer.notch) (bytes-append us units)
          ∙ drop-append_short c.rcv_buffer.notch (bytes us) (bytes units)
              (notch_within c.rcv_buffer.notch us r.buffer.held.notched),
    )
