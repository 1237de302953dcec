-- ===== src/United/EntityClose.antt =====
-- CUDT::close of UDT4/src/udt_core.cpp, and the polls that watch a socket. A blocking call is given
-- the moments at which it looks.
use uvudt.Common.{
  ℕ, ◌+◌, ◌*◌, Bool, true, false, not, ◌&&◌, ◌||◌, none, some, List, [], ◌∷◌, ltb, leb, ◌==◌,
  if◌then◌else◌,
}
use uvudt.Common.Int.{ℤ, pos}
use uvudt.Epoll.{Epoll, ok, err, remove_usock, update_events}
use uvudt.Epoll.Sets.{IntSet, erase}
use uvudt.United.Maps.{fetch, assign_key, add_member}
use uvudt.United.Types.{CudtSocket, Udt, Mux, United, Reply, returns, waits}
use uvudt.United.Entity.{epoll_in, epoll_out, epoll_err, minus_64, with_udt, remove_listener}

-- What the loop of CUDT::close finds each time it looks: the clock, and the members that other
-- threads change.
pub record Moment : Type 0 where
  pub now : ℕ
  pub is_broken : Bool
  pub is_connected : Bool
  pub snd_data : ℕ

pub data Linger : Type 0 where
  over : Linger
  later : Linger
  still : Linger

-- The loop of CUDT::close; `later` is its return inside the loop.
unfoldable pub linger : Udt → ℕ → List Moment → Linger
unfolding minus_64
linger d entertime [] = still
linger d entertime (m ∷ ms) =
    let rest = linger d entertime ms in
    if not m.is_broken
      && m.is_connected
      && ltb 0 m.snd_data
      && ltb (minus_64 m.now entertime) (d.linger_seconds * 1_000_000)
    then if leb entertime d.linger_expiration
      then over
      else if not d.syn_sending
      then later
      else rest
    else over

unfoldable pub remove_from_polls : ℤ → IntSet → Epoll → Epoll
remove_from_polls u [] e = e
remove_from_polls u (eid ∷ eids) e = elim (remove_usock e eid u) [
  | ok e' ↦ remove_from_polls u eids e'
  | err c ↦ e
]

unfoldable pub without_listener : United → CudtSocket → List (ℤ × Mux)
unfolding remove_listener
without_listener g s = elim (fetch g.muxes s.mux_id) [
  | none ↦ g.muxes
  | some m ↦
      if s.udt.is_listening
      then assign_key g.muxes s.mux_id (remove_listener m s.socket_id)
      else g.muxes
]

-- CUDT::close after the loop. The polls of the socket are told, and do not watch it any more.
unfoldable pub shut : United → CudtSocket → United
unfolding remove_from_polls without_listener with_udt
shut g s =
    let (polls, e) = update_events g.epoll s.socket_id s.udt.poll_ids epoll_err true in
    with_udt
      (record g { muxes = without_listener g s; epoll = remove_from_polls s.socket_id polls e })
      s.socket_id
      (λ d. record d {
        poll_ids = polls;
        is_closing = true;
        is_listening = false;
        is_connected = false;
        is_open = false;
      })

-- What follows the loop, by how it ends.
unfoldable pub lingered : United → CudtSocket → ℕ → Linger → Reply ℤ × United
unfolding shut with_udt
lingered g s entertime over = (returns (pos 0), shut g s)
lingered g s entertime later = (
  returns (pos 0),
  with_udt g s.socket_id (λ d. record d {
    linger_expiration =
        if d.linger_expiration == 0
        then entertime + d.linger_seconds * 1_000_000
        else d.linger_expiration;
  }),
)
lingered g s entertime still = (waits, g)

-- CUDT::close; it `waits` as long as it lingers.
unfoldable pub close_udt : United → CudtSocket → ℕ → List Moment → Reply ℤ × United
unfolding lingered linger
close_udt g s entertime moments =
    if not s.udt.is_open
    then (returns (pos 0), g)
    else lingered g s entertime (if s.udt.linger_on then linger s.udt entertime moments else over)

-- CUDT::addEPoll and CUDT::removeEPoll
has_input : Udt → Bool
has_input d = elim d.rcv_data [
  | none ↦ false
  | some n ↦ if d.stream then ltb 0 n else ltb 0 d.rcv_msgs
]

has_room : Udt → Bool
has_room d = elim d.snd_data [ none ↦ false | some n ↦ ltb n d.snd_buf_size ]

-- The polls that are told, and the ones that are kept.
tell : ℤ → ℕ → Bool → IntSet × Epoll → IntSet × Epoll
tell u events enable (polls, e) = update_events e u polls events enable

pub add_epoll : United → CudtSocket → ℤ → United
unfolding has_input has_room tell
add_epoll g s eid =
    let polls = add_member s.udt.poll_ids eid in
    let quiet = not s.udt.is_connected || s.udt.is_broken || s.udt.is_closing in
    let (polls1, e1) =
      if not quiet && has_input s.udt
      then tell s.socket_id epoll_in true (polls, g.epoll)
      else (polls, g.epoll) in
    let (polls2, e2) =
      if not quiet && has_room s.udt
      then tell s.socket_id epoll_out true (polls1, e1)
      else (polls1, e1) in
    with_udt (record g { epoll = e2 }) s.socket_id (λ d. record d { poll_ids = polls2 })

pub remove_epoll : United → CudtSocket → ℤ → United
unfolding tell
remove_epoll g s eid =
    let (polls, e) = tell s.socket_id (epoll_in + epoll_out) false (eid ∷ [], g.epoll) in
    with_udt (record g { epoll = e }) s.socket_id
      (λ d. record d { poll_ids = erase d.poll_ids eid })
