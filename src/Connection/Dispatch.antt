-- ===== src/Connection/Dispatch.antt =====
-- `processCtrl` of UDT4/src/udt_core.cpp: the MAC, and the switch over the type.
use uvudt.Common.{ℕ, false, not, ◌&&◌, ◌||◌, Option, none, some, [], ◌==◌, if◌then◌else◌}
use uvudt.Common.Int.{ℤ, pos, ◌==ℤ◌, ltb_ℤ, minus_one, negsuc}
use uvudt.Packet.{Packet, get_type, get_length, chk_mac, pack}
use uvudt.Packet.Handshake.{HandShake, create, deserialize, serialize}
use uvudt.Connection.Wire.{payload_ints, int_bytes}
use uvudt.Connection.Control.{blank}
use uvudt.Connection.Acks.{process_ack, process_ack2}
use uvudt.Connection.Reports.{process_nak, process_drop, process_shutdown, process_warning}
use uvudt.Connection.{Env, Cudt, emit, tell_cc, cc_update, send_to, custom_msg}

module _ {Key C : Type 0} (env : Env Key C) where
  -- `initdata`
  unfoldable pub own_handshake : HandShake
  own_handshake = record create {
    isn = env.isn;
    mss = env.mss;
    flight_flag_size = env.flight_flag_size;
    req_type = if env.rendezvous then negsuc 1 else minus_one;
    id = env.socket_id;
  }

  -- `sendCtrl(0, NULL, hs, hs_size)`, which sets no MAC.
  unfoldable pub send_handshake : Cudt C → Option (Cudt C)
  unfolding own_handshake emit
  send_handshake c =
      let written = serialize own_handshake [] env.payload_size in
      elim (pack (blank env 0) 0 none (some (int_bytes written.words)) 48) [
        | none ↦ none
        | some p ↦ some (emit (send_to p) c)
      ]

  -- `case 0`: a request that is repeated is answered again.
  unfoldable pub process_handshake : Packet → Cudt C → Option (Cudt C)
  unfolding send_handshake
  process_handshake p c = elim (deserialize create (payload_ints p) (get_length p)) [
    | none ↦ none
    | some (status, req) ↦
        if ltb_ℤ (pos 0) req.req_type || (env.rendezvous && not (req.req_type ==ℤ negsuc 1))
        then send_handshake c
        else some c
  ]

  -- `before` is what the variable `ack` of `case 6` holds.
  unfoldable pub dispatch : ℕ → ℕ → ℤ → Packet → Cudt C → Option (Cudt C)
  unfolding process_handshake tell_cc cc_update
  dispatch now wall before p c =
      let type = get_type p in
      if type == 2
      then process_ack env now wall p c
      else if type == 6
      then some (process_ack2 env wall p before c)
      else if type == 3
      then process_nak env p c
      else if type == 4
      then some (process_warning c)
      else if type == 0
      then process_handshake p c
      else if type == 5
      then some (process_shutdown c)
      else if type == 7
      then process_drop p c
      else if type == 8
      then some (record c { peer_health = false })
      else if type == 32767
      then some (cc_update env (tell_cc env (custom_msg p) c))
      else some c

  -- Every packet that passes resets the expiration timer.
  unfoldable pub heard : ℕ → Cudt C → Cudt C
  heard now c = record c { exp_count = 1; last_rsp_time = now }

  -- `chkMAC` has given its verdict, and the packet that it leaves.
  unfoldable pub dispatch_checked : ℕ → ℕ → ℤ → Cudt C → ℤ × Packet → Option (Cudt C)
  unfolding dispatch heard
  dispatch_checked now wall before c (verdict, checked) =
      if verdict ==ℤ pos 0 then some c else dispatch now wall before checked (heard now c)

  unfoldable pub process_ctrl : ℕ → ℕ → ℤ → Packet → Cudt C → Option (Cudt C)
  unfolding dispatch dispatch_checked heard
  process_ctrl now wall before p c =
      if env.sec_mod == 0
      then dispatch now wall before p (heard now c)
      else dispatch_checked now wall before c (chk_mac env.md5 p env.sec_key)
