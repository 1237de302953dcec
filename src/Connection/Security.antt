-- ===== src/Connection/Security.antt =====
-- What the MAC keeps out of a connection, and what it does not.
use uvudt.Common.{
  ℕ, suc, ◌+◌, ◌%◌, ◌^◌, ◌<◌, true, false, some, List, [], ◌∷◌, ◌++◌, length, ltb, ◌==◌, ◌≡◌, ◌∙◌,
  refl, sym, ap, arith,
}
use mathlib.Core.Path.{subst}
use uvudt.Common.Int.{ℤ, pos}
use uvudt.RcvBuffer.{RcvUnit}
use uvudt.Connection.InOrder.{Receiving, good_unit, take_packet_lem, Receiving-note_arrival}
use uvudt.Packet.{Packet, is_secure}
use uvudt.Packet.Mac.{Forged, chk_mac-Forged, chk_mac-bypassed}
use uvudt.Connection.Dispatch.{dispatch_checked, process_ctrl}
use uvudt.Connection.Receive.{note_arrival, take_checked, process_data}
use uvudt.Connection.{Env, Cudt}

-- In secure mode, a forged control packet, of whatever type, leaves the connection as it is: the
-- timers, the buffers, the numbers and the log. A packet is forged if it is secure and its MAC is not
-- that of its header and payload under the key, or if it is not secure and no handshake.
pub process_ctrl-Forged :
    {Key C : Type 0} (env : Env Key C) (now wall : ℕ) (before : ℤ) (p : Packet) (c : Cudt C)
    → (env.sec_mod == 0) ≡ false
    → Forged env.md5 env.sec_key p
    → process_ctrl env now wall before p c ≡ some c
unfolding process_ctrl dispatch_checked
process_ctrl-Forged env now wall before p c secure forged =
    let fails = chk_mac-Forged env.md5 env.sec_key p forged in rw (secure, fails, process_ctrl) refl

-- In the mode that puts a MAC on data, on a receiver that has every packet up to the current number and
-- room in its ring: a forged packet is not taken, and the connection stays as it is; but a data packet
-- without the security flag, with the next number, is taken, and its unit stands behind those that
-- have arrived.
pub process_data-mac :
    {Key C : Type 0} (env : Env Key C) (now wall id : ℕ) (p q : Packet) (c : Cudt C) (base : ℕ)
    (us vs : List RcvUnit)
    → ltb 1 env.sec_mod ≡ true
    → Forged env.md5 env.sec_key p
    → is_secure q ≡ false
    → q.header.word0 ≡ (base + length vs) % 2 ^ 30
    → Receiving c base us vs
    → length vs < 0x1fff_ffff
    → length us + suc (length vs) < c.rcv_buffer.size
    → (process_data env now wall id p c ≡ some (false, c))
      × ((d : Cudt C) × (process_data env now wall id q c ≡ some (true, d))
          × Receiving d base us (vs ++ good_unit id q ∷ []))
unfolding process_data take_checked
process_data-mac env now wall id p q c base us vs strict forged open_one here r few room =
    let fails = chk_mac-Forged env.md5 env.sec_key p forged in
    let passes = chk_mac-bypassed env.md5 env.sec_key q open_one (omega (arith, here)) in
    let noted = note_arrival env now wall q c in
    let (arrived, same) = Receiving-note_arrival env now wall q c base us vs r in
    let (d, takes, receiving, log, acked, ring) =
      take_packet_lem env now wall id q noted base us vs arrived (ap pos here) few
        (subst (λ b. length us + suc (length vs) < b.size) (sym same) room) in
    (
      rw (strict, fails, process_data) refl,
      (
        d,
        rw (strict, process_data)
            (ap (λ (x : ℤ × Packet). take_checked env now wall id c x) passes ∙ takes),
        receiving,
      ),
    )
