-- ===== src/Connection/Sends.antt =====
-- The control packets that go out leave the connection as it is, but for the log.
use uvudt.Common.{ℕ, Option, some, List, ◌∷◌, ◌≡◌, refl, ◌==◌, if◌then◌else◌, arith}
use uvudt.Common.Int.{pos}
use uvudt.Packet.{Packet, set_mac}
use uvudt.Packet.Pack.{pack_given, pack_small}
use uvudt.Connection.Control.{send_packet, blank, send_control, send_losses}
use uvudt.Connection.{Effect, Env, Cudt, emit, send_to, counts, sent_nak}

-- The log has grown.
abbrev pub logged : {C : Type 0} → Effect → Cudt C → Cudt C
logged e c = record c { log = e ∷ c.log }

pub send_control_given :
    {Key C : Type 0} (env : Env Key C) (type w : ℕ) (rparam : Option (List ℕ)) (size : ℕ)
    (c : Cudt C)
    → (p : Packet) × (send_control env type (some w) rparam size c ≡ some (logged (send_to p) c))
unfolding send_control send_packet emit
send_control_given env type w rparam size c =
    let (q, made) = pack_given (blank env 0) type w rparam size in
    ((if env.sec_mod == 0 then q else set_mac env.md5 q env.sec_key), rw (made, send_control) refl)

pub send_losses_lem :
    {Key C : Type 0} (env : Env Key C) (words : List ℕ) (size : ℕ) (c : Cudt C)
    → (p : Packet) × (send_losses env words size c
        ≡ some (logged (counts sent_nak (pos 1)) (logged (send_to p) c)))
unfolding send_losses send_control send_packet emit
send_losses_lem env words size c =
    let (q, made) = pack_small (blank env 0) 3 (some words) size (omega arith) in
    ((if env.sec_mod == 0 then q else set_mac env.md5 q env.sec_key), rw (made, send_losses) refl)
