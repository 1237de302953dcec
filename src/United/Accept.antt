-- ===== src/United/Accept.antt =====
-- `accept` of UDT4/src/api.cpp: the queue of a listener is handed out in order.
use uvudt.Common.{
  suc, ◌+◌, ◌≤◌, some, List, [], ◌∷◌, ◌≡◌, refl, sym, ◌∙◌, arith, true, false, ltb, length, map,
  Bool-cases, inl, inr, ap, ap₂,
}
use uvudt.Common.Int.{ℤ}
use mathlib.Core.Path.{subst}
use uvudt.Epoll.{update_events}
use uvudt.Epoll.Sets.{IntSet, contains, is_empty}
use uvudt.United.Maps.{fetch, add_member, insert_member}
use uvudt.United.Types.{CudtSocket, United, Reply, returns, throws, waits, listening}
use uvudt.United.Entity.{with_socket, with_udt, epoll_in}
use uvudt.United.Lookup.{locate, find_socket}
use uvudt.United.Incoming.{members}
use uvudt.United.Accepting.{accept, accept_round, hand_out, quiet_listener}
use uvudt.United.Heap.{with_socket_self, sockets-with_socket}

-- A listener that works, with the sockets that wait in its queue and the ones that it has handed out.
pub record Serves (g : United) (u : ℤ) (waiting given : IntSet) : Type 0 where
  pub socket : CudtSocket
  pub there : fetch g.heap u ≡ some socket
  pub held : contains g.sockets u ≡ true
  pub number : socket.socket_id ≡ u
  pub is_listening : socket.status ≡ listening
  pub is_whole : socket.udt.is_broken ≡ false
  pub is_usual : socket.udt.rendezvous ≡ false
  pub unlocked : socket.accept_locked ≡ false
  pub queue : socket.queued ≡ some waiting
  pub record_of : socket.accepted ≡ some given

length-insert_member : (xs : IntSet) (a : ℤ) → length (insert_member xs a) ≡ suc (length xs)
unfolding insert_member
length-insert_member [] a = refl
length-insert_member (x ∷ xs) a = ground (arith, length-insert_member xs a)

pub length-add_member : (xs : IntSet) (a : ℤ) → length (add_member xs a) ≤ suc (length xs)
unfolding add_member
length-add_member xs a = ground (arith, length-insert_member xs a)

Serves-locate :
    (g : United) (u : ℤ) (waiting given : IntSet) (l : Serves g u waiting given)
    → locate g u ≡ some l.socket
unfolding locate find_socket
Serves-locate g u waiting given l =
    let found : find_socket g u ≡ some l.socket = rw (l.held, find_socket) l.there in
    rw (found, locate, l.is_listening) refl

-- A socket that changes in these members only.
Serves-with_socket :
    (g : United) (u : ℤ) (w v a b : IntSet) (f : CudtSocket → CudtSocket)
    → Serves g u w a
    → ((s : CudtSocket)
        → s.queued ≡ some w
        → s.accepted ≡ some a
        → ((f s).socket_id ≡ s.socket_id)
          × ((f s).status ≡ s.status)
          × ((f s).udt.is_broken ≡ s.udt.is_broken)
          × ((f s).udt.rendezvous ≡ s.udt.rendezvous)
          × ((f s).accept_locked ≡ s.accept_locked)
          × ((f s).queued ≡ some v)
          × ((f s).accepted ≡ some b))
    → Serves (with_socket g u f) u v b
Serves-with_socket g u w v a b f l same =
    let eqs = same l.socket l.queue l.record_of in
    record {
      socket = f l.socket;
      there = with_socket_self g u f l.socket l.there;
      held = ap (λ xs. contains xs u) ((sockets-with_socket g u f).0) ∙ l.held;
      number = eqs.0 ∙ l.number;
      is_listening = eqs.1 ∙ l.is_listening;
      is_whole = eqs.2 ∙ l.is_whole;
      is_usual = eqs.3 ∙ l.is_usual;
      unlocked = eqs.4 ∙ l.unlocked;
      queue = eqs.5;
      record_of = eqs.6;
    }

Serves-quiet_listener :
    (g : United) (u : ℤ) (w a : IntSet) → Serves g u w a → Serves (quiet_listener g u) u w a
unfolding quiet_listener with_udt
Serves-quiet_listener g u w a l = elim (Bool-cases (is_empty (members l.socket.queued))) [
  | inr some_left ↦ rw (l.there, quiet_listener, some_left) l
  | inl all_gone ↦
      rw (l.there, quiet_listener, all_gone)
        (Serves-with_socket g1 u w w a a (λ s. record s { udt = record s.udt { poll_ids = polls } })
          l1 (λ s waits gives. (refl, refl, refl, refl, refl, waits, gives)))
]
  where
    polls : IntSet
    polls = (update_events g.epoll u l.socket.udt.poll_ids epoll_in false).0

    g1 : United
    g1 = record g { epoll = (update_events g.epoll u l.socket.udt.poll_ids epoll_in false).1 }

    l1 : Serves g1 u w a
    l1 = record {
      socket = l.socket;
      there = l.there;
      held = l.held;
      number = l.number;
      is_listening = l.is_listening;
      is_whole = l.is_whole;
      is_usual = l.is_usual;
      unlocked = l.unlocked;
      queue = l.queue;
      record_of = l.record_of;
    }

accept-hand_out :
    (g : United) (u q : ℤ) (w a : IntSet) (l : Serves g u (q ∷ w) a)
    → accept g u false ≡ hand_out g l.socket q w
unfolding accept accept_round
accept-hand_out g u q w a l =
    let located = Serves-locate g u (q ∷ w) a l in
    let loops : accept g u false ≡ accept_round g l.socket =
      rw (located, accept, l.is_listening, l.is_usual) refl in
    let takes : accept_round g l.socket ≡ hand_out g l.socket q w =
      rw (accept_round, l.unlocked, l.is_listening, l.is_whole, l.queue) refl in
    loops ∙ takes

-- The listener after the first socket of its queue has been taken.
take_first : United → ℤ → ℤ → IntSet → IntSet → United
take_first g u q w a =
    with_socket g u (λ s. record s { queued = some w; accepted = some (add_member a q) })

Serves-take_first :
    (g : United) (u q : ℤ) (w a : IntSet)
    → Serves g u (q ∷ w) a
    → Serves (take_first g u q w a) u w (add_member a q)
unfolding take_first
Serves-take_first g u q w a l =
    Serves-with_socket g u (q ∷ w) w a (add_member a q)
      (λ s. record s { queued = some w; accepted = some (add_member a q) }) l
      (λ s waits given. (refl, refl, refl, refl, refl, refl, refl))

-- One call hands out the first socket of the queue.
accept_first :
    (g : United) (u q : ℤ) (w a : IntSet)
    → Serves g u (q ∷ w) a
    → length a ≤ 99998
    → ((accept g u false).0 ≡ returns q) × Serves (accept g u false).1 u w (add_member a q)
unfolding hand_out take_first
accept_first g u q w a l few =
    let fits : ltb 99999 (length (add_member a q)) ≡ false =
      ground (arith, length-add_member a q) in
    let gives : hand_out g l.socket q w ≡ (returns q, quiet_listener (take_first g u q w a) u) =
      rw (hand_out, l.record_of, fits, l.number) refl in
    subst (λ (p : Reply ℤ × United). (p.0 ≡ returns q) × Serves p.1 u w (add_member a q))
      (sym (accept-hand_out g u q w a l ∙ gives))
      (
        refl,
        Serves-quiet_listener (take_first g u q w a) u w (add_member a q)
            (Serves-take_first g u q w a l),
      )

-- As many calls of `accept` as there are in the list, and what they return.
unfoldable pub accept_each : United → ℤ → List ℤ → List (Reply ℤ) × United
accept_each g u [] = ([], g)
accept_each g u (q ∷ qs) =
    let (reply, h) = accept g u false in
    let (replies, k) = accept_each h u qs in (reply ∷ replies, k)

unfoldable pub add_all : IntSet → List ℤ → IntSet
add_all a [] = a
add_all a (q ∷ qs) = add_all (add_member a q) qs

-- On a listener that works, where the sockets handed out before and those that wait are at most 99,999:
-- as many calls of `accept` as sockets wait return the waiting ones, each once and in their order,
-- and leave the listener working, its queue empty and the sockets added to those handed out.
pub accept_each_in_order :
    (g : United) (u : ℤ) (w a : IntSet)
    → Serves g u w a
    → length a + length w ≤ 99999
    → ((accept_each g u w).0 ≡ map (λ q. returns q) w)
      × Serves (accept_each g u w).1 u [] (add_all a w)
unfolding accept_each add_all
accept_each_in_order g u [] a l few = (refl, l)
accept_each_in_order g u (q ∷ w) a l few =
    let (first, l1) = accept_first g u q w a l (omega (arith, few)) in
    let (more, l2) =
      accept_each_in_order (accept g u false).1 u w (add_member a q) l1
        (omega (arith, few, length-add_member a q)) in
    (ap₂ (λ r rs. r ∷ rs) first more, l2)

-- The listener that the exception leaves.
stuck_at : United → ℤ → ℤ → IntSet → IntSet → United
unfolding take_first
stuck_at g u q w a = with_socket (take_first g u q w a) u (λ s. record s { accept_locked = true })

accept-locked :
    (g : United) (u q : ℤ) (w a : IntSet)
    → Serves g u (q ∷ w) a
    → let h = stuck_at g u q w a in
      ((s : CudtSocket) × (fetch h.heap u ≡ some s)
        × (s.queued ≡ some w)
        × (s.accepted ≡ some (add_member a q)))
      × (accept h u false ≡ (waits, h))
unfolding stuck_at accept accept_round locate find_socket
accept-locked g u q w a l =
    let taken = Serves-take_first g u q w a l in
    let first = take_first g u q w a in
    let h = stuck_at g u q w a in
    let s = record taken.socket { accept_locked = true } in
    let there : fetch h.heap u ≡ some s =
      with_socket_self first u (λ t. record t { accept_locked = true }) taken.socket taken.there in
    let held : contains h.sockets u ≡ true =
      ap (λ xs. contains xs u) ((sockets-with_socket first u _).0) ∙ taken.held in
    let found : find_socket h u ≡ some s = rw (held, find_socket) there in
    let located : locate h u ≡ some s = rw (found, locate, taken.is_listening) refl in
    (
      (s, there, taken.queue, taken.record_of),
      rw (located, accept, taken.is_listening, taken.is_usual) refl,
    )

-- On a listener that works and has handed out 99,999 sockets, the first of its queue not among them,
-- `accept` throws 3, 0; the socket has left the queue, and the listener's set of accepted sockets has
-- it; and the next call of `accept` on the listener waits for the lock and changes nothing.
pub accept-full :
    (g : United) (u q : ℤ) (w a : IntSet)
    → Serves g u (q ∷ w) a
    → contains a q ≡ false
    → length a ≡ 99999
    → let h = (accept g u false).1 in
      ((accept g u false).0 ≡ throws 3 0)
      × ((s : CudtSocket) × (fetch h.heap u ≡ some s)
          × (s.queued ≡ some w)
          × (s.accepted ≡ some (add_member a q)))
      × (accept h u false ≡ (waits, h))
unfolding hand_out take_first stuck_at add_member
accept-full g u q w a l new full =
    let grows : length (add_member a q) ≡ 100000 =
      rw new (length-insert_member a q ∙ omega (arith, full)) in
    let over : ltb 99999 (length (add_member a q)) ≡ true = rw grows refl in
    let fails : hand_out g l.socket q w ≡ (throws 3 0, stuck_at g u q w a) =
      rw (hand_out, l.record_of, over, l.number) refl in
    let locked = accept-locked g u q w a l in
    subst
      (λ (p : Reply ℤ × United).
        (p.0 ≡ throws 3 0)
        × ((s : CudtSocket) × (fetch p.1.heap u ≡ some s)
            × (s.queued ≡ some w)
            × (s.accepted ≡ some (add_member a q)))
        × (accept p.1 u false ≡ (waits, p.1)))
      (sym (accept-hand_out g u q w a l ∙ fails)) (refl, locked.0, locked.1)
