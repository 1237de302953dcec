-- ===== src/United/Tests.antt =====
-- Runs of CUDTUnited of UDT4/src/api.cpp on small tables, and the theorems at concrete tables.
use uvudt.Common.{
  some_injective, List, ◌||◌, ltb, ℕ, zero, suc, ◌<◌, true, false, none, some, [], ◌∷◌, ◌≡◌, refl,
  sym, ◌∙◌, ap, map, arith, Bool-cases, inl, inr, length,
}
use uvudt.Common.Int.{ℤ, pos, ◌-ℤ◌, ◌==ℤ◌, ==ℤ_iff, minus_one}
use uvudt.Packet.Handshake.{HandShake}
use uvudt.Epoll.Sets.{IntSet, contains, erase}
use uvudt.United.Maps.{fetch, assign_key, replace, add_member, discard}
use uvudt.United.Types.{
  Reply, CudtSocket, SockAddr, Udt, Mux, United, returns, throws, waits, init, listening, closed,
}
use uvudt.United.Address.{ipcmp, ntop, pton, ipcmp-pton-ntop}
use uvudt.United.Entity.{with_socket, minus_64}
use uvudt.United.EntityClose.{close_udt}
use uvudt.United.Muxes.{bound_to, update_mux}
use uvudt.United.Lookup.{locate, find_socket, after, on_socket}
use uvudt.United.Closing.{close, retire}
use uvudt.United.Incoming.{new_connection}
use uvudt.United.Accepting.{accept}
use uvudt.United.Collector.{
  check_closed, end_linger, removable, remove_socket, close_queued, delete_from, delete_socket,
}
use uvudt.United.Status.{Named}
use uvudt.United.StatusHeld.{Ends}
use uvudt.United.StatusRuns.{here, call, run, closes_at, Reached-listening}
use uvudt.United.MuxCount.{Counted, update_mux-Counted}
use uvudt.United.MuxUsers.{users}
use uvudt.United.MuxRemove.{AllBuried, remove_socket-Counted}
use uvudt.United.Accept.{Serves, accept_each, add_all, accept_each_in_order, accept-full}
use uvudt.United.Requests.{Fits, seen, new_connection-Fits}
use uvudt.United.View.{view}
use uvudt.United.Closed.{close-accepted}
use uvudt.United.Api.{Api, caught, cudt_close, cudt_send, getsockstate}
use uvudt.United.ApiClosed.{send-after_close}
use uvudt.United.Select.{
  Asked, Look, Found, select_ex, look_at, is_lost, can_read, can_write, has_data, has_space,
  has_waiting,
}
use uvudt.United.Selecting.{Member, Sorted, select_ex-returns}
use uvudt.United.Collect.{Old, check_closed-Old}

abbrev plain_udt : Udt
plain_udt = record {
  is_open = true;
  is_listening = false;
  is_connecting = false;
  is_connected = false;
  is_closing = false;
  is_broken = false;
  rendezvous = false;
  syn_sending = true;
  syn_recving = true;
  reuse_addr = true;
  reuse_able = true;
  stream = true;
  linger_on = false;
  linger_seconds = 180;
  linger_expiration = 0;
  ip_version = 2;
  mss = pos 1480;
  flight_flag_size = pos 25600;
  rcv_buf_size = pos 8192;
  snd_buf_size = 8192;
  isn = pos 0;
  broken_counter = pos 0;
  rcv_data = none;
  rcv_msgs = 0;
  snd_data = none;
  is_on_rcv_list = false;
  poll_ids = [];
}

-- A listener with two connections in its queue, and room for one more.
abbrev listener : CudtSocket
listener = record {
  status = listening;
  time_stamp = 0;
  ip_version = 2;
  peer_addr = none;
  self_port = 9000;
  socket_id = pos 9;
  listen_socket = pos 0;
  peer_id = pos 0;
  isn = pos 0;
  udt = record plain_udt { is_listening = true };
  queued = some (pos 5 ∷ pos 6 ∷ []);
  accepted = some (pos 7 ∷ []);
  backlog = 3;
  mux_id = pos 9;
  accept_locked = false;
}

-- A socket that no call has bound yet.
abbrev unbound : CudtSocket
unbound = record listener {
  status = init;
  socket_id = pos 4;
  udt = record plain_udt { is_open = false };
  queued = none;
  accepted = none;
  mux_id = minus_one;
  accept_locked = false;
}

abbrev shared_mux : Mux
shared_mux = record {
  port = 9000;
  ip_version = 2;
  mss = pos 1480;
  ref_count = 1;
  reuse_able = true;
  id = pos 9;
  listener = none;
}

abbrev table : United
table = record {
  sockets = pos 4 ∷ pos 9 ∷ [];
  closed_sockets = [];
  heap = (pos 4, unbound) ∷ (pos 9, listener) ∷ [];
  socket_seed = pos 4;
  peer_rec = [];
  muxes = (pos 9, shared_mux) ∷ [];
  epoll = record { id_seed = pos 0; polls = [] };
}

table-Named : Named table
unfolding fetch
table-Named v i a now = ground (arith, now)

Reached-listening_example :
    (contains (run table (closes_at (pos 9) 10 [] 20)).1.sockets (pos 9) ≡ true)
    × Ends (run table (closes_at (pos 9) 10 [] 20)).1 (pos 9)
unfolding fetch contains ◌-ℤ◌
Reached-listening_example =
    Reached-listening table (run table (closes_at (pos 9) 10 [] 20)).1 (pos 9) table-Named
      (call table table (here table) (closes_at (pos 9) 10 [] 20) refl) refl refl

table-Counted : Counted table
unfolding fetch users
table-Counted = record {
  counts = λ k named. ground (arith, named);
  ids = λ k m found. elim (Bool-cases (pos 9 ==ℤ k)) [
    | inl same ↦
        let only : fetch table.muxes k ≡ some shared_mux = rw (fetch, same) refl in
        let path : some shared_mux ≡ some m = sym only ∙ found in
        let number : shared_mux.id ≡ m.id = ap (λ l. l.id) (some_injective shared_mux m path) in
        sym number ∙ (==ℤ_iff (pos 9) k).0 same
    | inr other ↦
        let nothing : fetch table.muxes k ≡ none = rw (fetch, other) refl in
        let impossible : ⊥ = cc (nothing, found) in elim impossible [ ]
  ];
  distinct = (refl, tt);
}

update_mux-Counted_example : Counted (update_mux table unbound (some 9000) (bound_to 9001)).1
unfolding fetch
update_mux-Counted_example =
    update_mux-Counted table unbound unbound (some 9000) (bound_to 9001) table-Counted refl refl
      refl

table-Serves : Serves table (pos 9) (pos 5 ∷ pos 6 ∷ []) (pos 7 ∷ [])
unfolding fetch contains
table-Serves = record {
  socket = listener;
  there = refl;
  held = refl;
  number = refl;
  is_listening = refl;
  is_whole = refl;
  is_usual = refl;
  unlocked = refl;
  queue = refl;
  record_of = refl;
}

accept_each_in_order_example :
    ((accept_each table (pos 9) (pos 5 ∷ pos 6 ∷ [])).0
      ≡ map (λ (q : ℤ). returns q) (pos 5 ∷ pos 6 ∷ []))
    × Serves
        (accept_each table (pos 9) (pos 5 ∷ pos 6 ∷ [])).1
        (pos 9)
        []
        (add_all (pos 7 ∷ []) (pos 5 ∷ pos 6 ∷ []))
accept_each_in_order_example =
    accept_each_in_order table (pos 9) (pos 5 ∷ pos 6 ∷ []) (pos 7 ∷ []) table-Serves (omega arith)

abbrev client : SockAddr
client = record { port = 4242; addr = 0x0100_007f; bytes = 1 ∷ 2 ∷ 3 ∷ 4 ∷ [] }

abbrev request : HandShake
request = record {
  version = pos 4;
  type = pos 1;
  isn = pos 77;
  mss = pos 1400;
  flight_flag_size = pos 8192;
  req_type = pos 1;
  id = pos 31;
  cookie = pos 5;
  ip0 = pos 0;
  ip1 = pos 0;
  ip2 = pos 0;
  ip3 = pos 0;
}

new_connection-Fits_example : Fits (seen (new_connection table (pos 9) client request 50).2 (pos 9))
unfolding fetch ◌-ℤ◌
new_connection-Fits_example = new_connection-Fits table (pos 9) client request 50 refl (omega arith)

close-accepted_example :
    view (λ (s : CudtSocket). s.accepted) (fetch (close table (pos 4) 10 [] 20).1.heap (pos 9))
    ≡ view (λ (s : CudtSocket). s.accepted) (fetch table.heap (pos 9))
close-accepted_example = close-accepted table (pos 4) 10 [] 20 (pos 9)

abbrev server : SockAddr
server = record client { addr = 0; bytes = [] }

ipcmp-pton-ntop_example : ipcmp client (pton server (ntop client 10 (0 ∷ [])) 10) 10 ≡ true
ipcmp-pton-ntop_example =
    ipcmp-pton-ntop client server 10 0 [] (omega arith, omega arith, omega arith, omega arith, tt)
      (omega arith) refl

-- The table after the listener has been closed, with one socket in its queue.
abbrev old_listener : CudtSocket
old_listener = record listener {
  status = closed;
  queued = some (pos 4 ∷ []);
  udt = record plain_udt { is_open = false };
}

abbrev closed_table : United
closed_table = record table {
  sockets = pos 4 ∷ [];
  closed_sockets = pos 9 ∷ [];
  heap = (pos 4, unbound) ∷ (pos 9, old_listener) ∷ [];
}

check_closed-Old_example : Old 2_000_000 (fetch closed_table.heap (pos 9))
unfolding check_closed fetch contains end_linger removable minus_64 with_socket assign_key replace
check_closed-Old_example = check_closed-Old closed_table (pos 9 ∷ []) 2_000_000 (pos 9) refl

-- The socket of the queue is closed, and the listener gone.
abbrev emptied : United
emptied = record closed_table {
  sockets = [];
  closed_sockets = pos 4 ∷ [];
  heap =
      (
        pos 4,
        record unbound {
          status = closed;
          time_stamp = 2_000_000;
          udt = record plain_udt { is_open = false; is_broken = true };
        },
      )
      ∷ [];
  muxes = [];
}

closed_table-Counted : Counted closed_table
unfolding fetch users
closed_table-Counted =
    let c = table-Counted in
    record {
      counts = λ k named. c.counts k named;
      ids = λ k m found. c.ids k m found;
      distinct = (refl, tt);
    }

remove_socket-Counted_example : Counted emptied × AllBuried emptied (pos 9) (pos 4 ∷ [])
unfolding remove_socket delete_from close_queued delete_socket contains fetch erase discard
    close_udt assign_key add_member
remove_socket-Counted_example =
    remove_socket-Counted closed_table emptied (pos 9) old_listener 2_000_000 refl refl refl
      closed_table-Counted refl

-- `n` numbers from `k` on.
numbers : ℕ → ℕ → IntSet
numbers zero k = []
numbers (suc n) k = pos k ∷ numbers n (suc k)

length-numbers : (n k : ℕ) → length (numbers n k) ≡ n
unfolding numbers
length-numbers zero k = refl
length-numbers (suc n) k = ap (λ (m : ℕ). suc m) (length-numbers n (suc k))

numbers-above : (n k : ℕ) → 5 < k → contains (numbers n k) (pos 5) ≡ false
unfolding numbers contains
numbers-above zero k above = refl
numbers-above (suc n) k above = ground (arith, numbers-above n (suc k) (omega arith))

-- A listener that has handed out 99,999 sockets.
busy_table : United
busy_table = record table {
  heap = (pos 4, unbound) ∷ (pos 9, record listener { accepted = some (numbers 99999 1000) }) ∷ [];
}

busy_table-Serves : Serves busy_table (pos 9) (pos 5 ∷ pos 6 ∷ []) (numbers 99999 1000)
unfolding fetch contains busy_table
busy_table-Serves = record {
  socket = record listener { accepted = some (numbers 99999 1000) };
  there = refl;
  held = refl;
  number = refl;
  is_listening = refl;
  is_whole = refl;
  is_usual = refl;
  unlocked = refl;
  queue = refl;
  record_of = refl;
}

accept-full_example :
    ((accept busy_table (pos 9) false).0 ≡ throws 3 0)
    × ((s : CudtSocket) × (fetch (accept busy_table (pos 9) false).1.heap (pos 9) ≡ some s)
        × (s.queued ≡ some (pos 6 ∷ []))
        × (s.accepted ≡ some (add_member (numbers 99999 1000) (pos 5))))
    × (accept (accept busy_table (pos 9) false).1 (pos 9) false
        ≡ (waits, (accept busy_table (pos 9) false).1))
accept-full_example =
    accept-full busy_table (pos 9) (pos 5) (pos 6 ∷ []) (numbers 99999 1000) busy_table-Serves
      (numbers-above 99999 1000 (omega arith)) (length-numbers 99999 1000)

abbrev asks_all : Asked
asks_all = record { reads = true; writes = true; excepts = true }

abbrev one_look : List Look
one_look = record { table = table; late = false } ∷ []

abbrev found_two : Found
found_two = record { reads = pos 9 ∷ []; writes = []; excepts = pos 8 ∷ []; count = 2 }

select_ex-returns_example :
    (l : Look) × Member l one_look
    × Sorted l.table asks_all (pos 9 ∷ pos 8 ∷ []) found_two
    × ((ltb 0 found_two.count || l.late) ≡ true)
unfolding select_ex look_at is_lost can_read can_write has_data has_space has_waiting locate
    contains fetch
select_ex-returns_example = select_ex-returns asks_all (pos 9 ∷ pos 8 ∷ []) one_look found_two refl

abbrev program : Api
program = record { table = table; last_error = (0, 0) }

abbrev sends_nothing : Udt → Reply ℤ × Udt
sends_nothing d = (returns (pos 0), d)

send-after_close_example :
    (getsockstate (cudt_close program (pos 4) 10 [] 20).1 (pos 4) ≡ closed)
    × (cudt_send (cudt_close program (pos 4) 10 [] 20).1 (pos 4) sends_nothing
        ≡ (some minus_one, record (cudt_close program (pos 4) 10 [] 20).1 { last_error = (5, 4) }))
unfolding cudt_close caught fetch locate find_socket contains close on_socket after close_udt retire
send-after_close_example =
    send-after_close program (pos 4) unbound 10 [] 20 sends_nothing refl refl refl
