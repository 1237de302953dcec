-- ===== src/United/Entity.antt =====
-- What the table of sockets calls of CUDT, of UDT4/src/udt_core.cpp: how a socket is opened, made a
-- listener and connected, and `setListener` and `removeListener` of
-- UDT4/src/queue.cpp. The members that the table does not read are left out, and so are the event
-- pipe, the cache and the control object.
use uvudt.Common.{
  ℕ, ◌+◌, ◌-◌, ◌%◌, ◌^◌, Bool, true, false, not, ◌||◌, Option, none, some, [], if◌then◌else◌,
}
use uvudt.Common.Int.{ℤ, ◌==ℤ◌, ltb_ℤ, minus_one, pos}
use uvudt.United.Maps.{fetch, assign_key}
use uvudt.Packet.Handshake.{HandShake}
use uvudt.United.Address.{af_inet, ntop, ip_words, with_peer_ip}
use uvudt.United.Types.{CudtSocket, SockAddr, Udt, Mux, United, Reply, returns, throws}

-- `UDT_EPOLL_IN`, `_OUT` and `_ERR`.
abbrev pub epoll_in : ℕ
epoll_in = 1

abbrev pub epoll_out : ℕ
epoll_out = 4

abbrev pub epoll_err : ℕ
epoll_err = 8

-- `a - b` of `uint64_t`.
unfoldable pub minus_64 : ℕ → ℕ → ℕ
minus_64 a b = (a + 2 ^ 64 - b) % 2 ^ 64

-- The object that the pointer of socket `u` points to is changed.
unfoldable pub with_socket : United → ℤ → (CudtSocket → CudtSocket) → United
with_socket g u f = elim (fetch g.heap u) [
  | none ↦ g
  | some s ↦ record g { heap = assign_key g.heap u (f s) }
]

unfoldable pub with_udt : United → ℤ → (Udt → Udt) → United
unfolding with_socket
with_udt g u f = with_socket g u (λ s. record s { udt = f s.udt })

-- CUDT::CUDT(), the members with the values that `new CUDT` gives them.
unfoldable pub new_udt : Udt
new_udt = record {
  is_open = false;
  is_listening = false;
  is_connecting = false;
  is_connected = false;
  is_closing = false;
  is_broken = false;
  rendezvous = false;
  syn_sending = true;
  syn_recving = true;
  reuse_addr = true;
  reuse_able = true;
  stream = true;
  linger_on = true;
  linger_seconds = 180;
  linger_expiration = 0;
  ip_version = af_inet;
  mss = pos 1480;
  flight_flag_size = pos 25600;
  rcv_buf_size = pos 8192;
  snd_buf_size = 8192;
  isn = pos 0;
  broken_counter = pos 0;
  rcv_data = none;
  rcv_msgs = 0;
  snd_data = none;
  is_on_rcv_list = false;
  poll_ids = [];
}

-- CUDT::CUDT(const CUDT& ancestor)
unfoldable pub inherited_udt : Udt → Udt
inherited_udt ancestor = record new_udt {
  mss = ancestor.mss;
  syn_sending = ancestor.syn_sending;
  syn_recving = ancestor.syn_recving;
  flight_flag_size = ancestor.flight_flag_size;
  snd_buf_size = ancestor.snd_buf_size;
  rcv_buf_size = ancestor.rcv_buf_size;
  linger_on = ancestor.linger_on;
  linger_seconds = ancestor.linger_seconds;
  stream = ancestor.stream;
  ip_version = ancestor.ip_version;
  rendezvous = ancestor.rendezvous;
  reuse_addr = true;
  reuse_able = true;
}

-- CUDT::open
unfoldable pub open_udt : Udt → Udt
open_udt d = record d { is_on_rcv_list = false; is_open = true }

-- CRcvQueue::setListener and CUDT::listen
unfoldable pub set_listener : Mux → ℤ → Option Mux
set_listener m u = elim m.listener [ none ↦ some (record m { listener = some u }) | some v ↦ none ]

unfoldable pub remove_listener : Mux → ℤ → Mux
remove_listener m u = elim m.listener [
  | none ↦ m
  | some v ↦ if v ==ℤ u then record m { listener = none } else m
]

unfoldable pub listen_udt : United → CudtSocket → Reply ℤ × United
unfolding set_listener with_udt
listen_udt g s =
    if not s.udt.is_open
    then (throws 5 0, g)
    else if s.udt.is_connecting || s.udt.is_connected
    then (throws 5 2, g)
    else if s.udt.is_listening
    then (returns (pos 0), g)
    else elim (fetch g.muxes s.mux_id) [
      | none ↦ (throws 5 11, g)
      | some m ↦ elim (set_listener m s.socket_id) [
        | none ↦ (throws 5 11, g)
        | some m' ↦ (
          returns (pos 0),
          with_udt (record g { muxes = assign_key g.muxes s.mux_id m' }) s.socket_id
              (λ d. record d { is_listening = true }),
        )
      ]
    ]

-- CUDT::connect(const sockaddr*, CHandShake*), of a socket that a listener makes: the values that the
-- sides agree on, and the answer.
unfoldable pub smaller : ℤ → ℤ → ℤ
smaller a b = if ltb_ℤ a b then a else b

unfoldable pub connect_peer : Udt → ℤ → SockAddr → HandShake → Udt × HandShake
unfolding smaller
connect_peer d u peer hs = (
  record d {
    mss = smaller d.mss hs.mss;
    isn = hs.isn;
    rcv_data = some 0;
    snd_data = some 0;
    is_connected = true;
    is_on_rcv_list = true;
  },
  record (with_peer_ip hs (ntop peer d.ip_version (ip_words hs))) {
    mss = smaller d.mss hs.mss;
    flight_flag_size = smaller d.rcv_buf_size d.flight_flag_size;
    id = u;
    req_type = minus_one;
  },
)

-- How the exchange of handshakes of CUDT::connect(const sockaddr*) goes: the call does not wait for
-- it, it is done, or the call throws, with the response taken by CUDT::connect(const CPacket&) or not.
pub data Attempt : Type 0 where
  pending : Attempt
  done : Attempt
  fails : Bool → ℕ → ℕ → Attempt

-- CUDT::connect(const CPacket&), when it accepts the response.
unfoldable pub connect_response : Udt → Udt
connect_response d = record d {
  is_connecting = false;
  is_connected = true;
  is_on_rcv_list = true;
  rcv_data = some 0;
  snd_data = some 0;
}

-- CUDT::connect(const sockaddr*), up to the exchange and after it.
unfoldable pub connect_udt : Udt → Attempt → Reply ℤ × Udt
unfolding connect_response
connect_udt d attempt =
    if not d.is_open
    then (throws 5 0, d)
    else if d.is_listening
    then (throws 5 2, d)
    else if d.is_connecting || d.is_connected
    then (throws 5 2, d)
    else elim attempt [
      | pending ↦ (returns (pos 0), record d { is_connecting = true })
      | done ↦ (returns (pos 0), connect_response d)
      | fails taken major minor ↦ (
        throws major minor,
        if taken then connect_response d else record d { is_connecting = true },
      )
    ]
