-- ===== src/Epoll/Wait.antt =====
-- `wait` of CEPoll: what it returns, and when it does not wait.
use uvudt.Common.{
  ◌+◌, Bool, true, false, not, ◌&&◌, ◌||◌, some, List, [], ◌∷◌, ◌≡◌, ◌∙◌, sym, ◌≤◌, ◌≢◌, ◌⊎◌, refl,
  arith, if◌then◌else◌, Bool-cases, Option-cases, inl, inr, ◌==◌,
}
use uvudt.Common.Int.{ℤ, ◌==ℤ◌}
use uvudt.Epoll.Sets.{IntSet, contains, is_empty, contains-union, contains-insert, insert}
use uvudt.Epoll.Update.{find-assign}
use uvudt.Epoll.{
  Epoll, Desc, find, ok, Round, Ready, Call, Events, returns, throws, blocked, invalid_param,
  collect, collect_local, gather, wait_rounds, wait, deadlock, remove_usock, with_poll, unwatch,
  assign,
}

-- Whether the system reports `k` with the event.
abbrev pub reported : (Ready → Bool) → ℤ → List Ready → Bool
reported event k [] = false
reported event k (r ∷ rs) = (event r && (k ==ℤ r.fd)) || reported event k rs

-- Events of the poll `d` and of the system sockets, in the sets that the caller asked for.
pub record Reports (c : Call) (d : Desc) (ready : List Ready) (ev : Events) : Type 0 where
  pub some_event : ev.total ≢ 0
  pub of_reads :
      (k : ℤ) → contains ev.reads k ≡ c.readfds && (contains d.reads k || contains d.excepts k)
  pub of_writes :
      (k : ℤ) → contains ev.writes k ≡ c.writefds && (contains d.writes k || contains d.excepts k)
  pub of_local_reads :
      (k : ℤ) → contains ev.local_reads k ≡ c.lrfds && reported (λ r. r.readable) k ready
  pub of_local_writes :
      (k : ℤ) → contains ev.local_writes k ≡ c.lwfds && reported (λ r. r.writable) k ready

collect_lem :
    (asked : Bool) (events excepts : IntSet) (k : ℤ)
    → contains (collect asked events excepts).1 k
      ≡ asked && (contains events k || contains excepts k)
unfolding collect contains
collect_lem true [] [] k = refl
collect_lem true [] (y ∷ ys) k = contains-union [] (y ∷ ys) k
collect_lem true (x ∷ xs) ys k = contains-union (x ∷ xs) ys k
collect_lem false xs ys k = refl

collect_local_sets :
    (c : Call) (ready : List Ready) (ev : Events)
    → ((collect_local c ready ev).reads ≡ ev.reads)
      × ((collect_local c ready ev).writes ≡ ev.writes)
unfolding collect_local
collect_local_sets c [] ev = (refl, refl)
collect_local_sets c (r ∷ rs) ev = collect_local_sets c rs _

insert_reported :
    (asked event : Bool) (fd k : ℤ) (xs : IntSet) (rest : Bool)
    → (contains (if asked && event then insert xs fd else xs) k || (asked && rest))
      ≡ (contains xs k || (asked && ((event && (k ==ℤ fd)) || rest)))
insert_reported asked event fd k xs rest = ground (arith, contains-insert xs fd k)

collect_local_reports :
    (c : Call) (ready : List Ready) (ev : Events) (k : ℤ)
    → (contains (collect_local c ready ev).local_reads k
        ≡ (contains ev.local_reads k || (c.lrfds && reported (λ r. r.readable) k ready)))
      × (contains (collect_local c ready ev).local_writes k
          ≡ (contains ev.local_writes k || (c.lwfds && reported (λ r. r.writable) k ready)))
unfolding collect_local
collect_local_reports c [] ev k = (ground arith, ground arith)
collect_local_reports c (r ∷ rs) ev k =
    let rest = collect_local_reports c rs _ k in
    (
      rest.0
          ∙ insert_reported c.lrfds r.readable r.fd k ev.local_reads
              (reported (λ s. s.readable) k rs),
      rest.1
          ∙ insert_reported c.lwfds r.writable r.fd k ev.local_writes
              (reported (λ s. s.writable) k rs),
    )

-- The system is asked only where one of its sets is there.
asked_of_system :
    (asked a b : Bool) (event : Ready → Bool) (k : ℤ) (ready : List Ready)
    → (asked ≡ true → (a || b) ≡ true)
    → (asked && reported event k (if a || b then ready else [])) ≡ (asked && reported event k ready)
asked_of_system asked a b event k ready one = elim (Bool-cases asked) [
  | inr unwanted ↦ rw unwanted refl
  | inl wanted ↦ rw (one wanted) refl
]

-- The events of the UDT sockets alone.
abbrev udt_events : Call → Desc → Events
udt_events c d = record {
  total = (collect c.readfds d.reads d.excepts).0 + (collect c.writefds d.writes d.excepts).0;
  reads = (collect c.readfds d.reads d.excepts).1;
  writes = (collect c.writefds d.writes d.excepts).1;
  local_reads = [];
  local_writes = [];
}

gather-Reports :
    (c : Call) (d : Desc) (ready : List Ready) (ev : Events)
    → gather c d ready ≡ ev
    → ev.total ≢ 0
    → Reports c d ready ev
unfolding gather contains
gather-Reports c d ready ev same more =
    let sets = collect_local_sets c (if c.lrfds || c.lwfds then ready else []) (udt_events c d) in
    let local =
      collect_local_reports c (if c.lrfds || c.lwfds then ready else []) (udt_events c d) in
    let reads : ev.reads ≡ (udt_events c d).reads = rw (sym same) (sets.0) in
    let writes : ev.writes ≡ (udt_events c d).writes = rw (sym same) (sets.1) in
    record {
      some_event = more;
      of_reads = λ k. rw reads (collect_lem c.readfds d.reads d.excepts k);
      of_writes = λ k. rw writes (collect_lem c.writefds d.writes d.excepts k);
      of_local_reads = λ k. rw (sym same) (
          (local k).0
          ∙ asked_of_system c.lrfds c.lrfds c.lwfds (λ r. r.readable) k ready
              (λ asked. ground (arith, asked)));
      of_local_writes = λ k. rw (sym same) (
          (local k).1
          ∙ asked_of_system c.lwfds c.lrfds c.lwfds (λ r. r.writable) k ready
              (λ asked. ground (arith, asked)));
    }

-- One of the rounds has the poll, and its events are `ev`.
abbrev pub SomeRound : Call → ℤ → List Round → Events → Type 0
SomeRound c eid [] ev = ⊥
SomeRound c eid (r ∷ rs) ev =
    ((d : Desc) × (find r.polls eid ≡ some d) × Reports c d r.ready ev) ⊎ SomeRound c eid rs ev

wait_rounds-returns :
    (c : Call) (eid : ℤ) (rounds : List Round) (ev : Events)
    → wait_rounds c eid rounds ≡ returns ev
    → SomeRound c eid rounds ev
unfolding wait_rounds
wait_rounds-returns c eid [] ev h = absurd (ground arith)
wait_rounds-returns c eid (r ∷ rs) ev h = elim (Option-cases (find r.polls eid)) [
  | inl gone ↦ absurd (let stop = rw (gone, wait_rounds) at h in ground arith)
  | inr (d, there) ↦
      let go = rw (there, wait_rounds) at h in
      elim (Bool-cases (deadlock c d)) [
        | inl stuck ↦ absurd (let stop = rw stuck at go in ground arith)
        | inr free ↦
            (let go1 = rw free at go in
              elim (Bool-cases ((gather c d r.ready).total == 0)) [
                | inr some_ev ↦
                    inl (d, there, gather-Reports c d r.ready ev (ground arith) (ground arith))
                | inl no_ev ↦
                    (let go2 = rw no_ev at go1 in
                      elim (Bool-cases (not c.infinite && r.late)) [
                        | inl late ↦ absurd (let stop = rw late at go2 in ground arith)
                        | inr early ↦ inr (wait_rounds-returns c eid rs ev (rw early at go2))
                      ])
              ])
      ]
]

-- What `wait` returns are the events of the poll as one of its rounds finds it: at least one event; in
-- `readfds` and `writefds`, each where it is not NULL, the UDT sockets with an event of the kind or
-- with an exception; in `lrfds` and `lwfds`, each where it is not NULL, the system sockets that the
-- system reports readable or writable in that round; and nothing in a set that is NULL.
pub wait-returns :
    (c : Call) (eid : ℤ) (rounds : List Round) (ev : Events)
    → wait c eid rounds ≡ returns ev
    → SomeRound c eid rounds ev
unfolding wait
wait-returns c eid rounds ev h = wait_rounds-returns c eid rounds ev (ground arith)

-- In each round the poll exists, and it watches something.
abbrev pub Watching : ℤ → List Round → Type 0
Watching eid [] = Unit {0}
Watching eid (r ∷ rs) =
    ((d : Desc) × (find r.polls eid ≡ some d)
      × ((is_empty d.socks_in && is_empty d.socks_out && is_empty d.locals) ≡ false))
    × Watching eid rs

nothing_asked :
    (d : Desc) (ready : List Ready)
    → (gather
        (record {
          readfds = false;
          writefds = false;
          lrfds = false;
          lwfds = false;
          infinite = true;
        })
        d
        ready).total
      ≡ 0
unfolding gather collect collect_local
nothing_asked d ready = refl

-- A call with four NULL sets and no timeout on a poll that watches something waits for ever, whatever
-- the rounds bring; a call that asks for the writable system sockets alone is refused at once.
pub wait_of_null :
    (eid : ℤ) (rounds : List Round)
    → Watching eid rounds
    → (wait
          (record {
            readfds = false;
            writefds = false;
            lrfds = false;
            lwfds = false;
            infinite = true;
          })
          eid
          rounds
        ≡ blocked)
      × (wait
            (record {
              readfds = false;
              writefds = false;
              lrfds = false;
              lwfds = true;
              infinite = true;
            })
            eid
            rounds
          ≡ throws invalid_param)
unfolding wait
wait_of_null eid rounds w = (waits rounds w, refl)
  where
    waits :
        (rs : List Round)
        → Watching eid rs
        → wait_rounds
            (record {
              readfds = false;
              writefds = false;
              lrfds = false;
              lwfds = false;
              infinite = true;
            })
            eid
            rs
          ≡ blocked
    waits [] w = unfold wait_rounds in refl
    waits (r ∷ rs) w =
        let (d, there, busy) = w.0 in
        unfold wait_rounds in
        rw (there, wait_rounds) (ground (arith, busy, nothing_asked d r.ready, waits rs w.1))

collect_local_total :
    (c : Call) (ready : List Ready) (ev : Events) → ev.total ≤ (collect_local c ready ev).total
unfolding collect_local
collect_local_total c [] ev = omega arith
collect_local_total c (r ∷ rs) ev =
    let now = collect_local_total c rs (record ev {
      total =
          ev.total
          + (if c.lrfds && r.readable then 1 else 0)
          + (if c.lwfds && r.writable then 1 else 0);
      local_reads = if c.lrfds && r.readable then insert ev.local_reads r.fd else ev.local_reads;
      local_writes = if c.lwfds && r.writable then insert ev.local_writes r.fd else ev.local_writes;
    }) in
    ground arith

seen_is_counted : (xs ys : IntSet) (u : ℤ) → contains xs u ≡ true → 1 ≤ (collect true xs ys).0
unfolding collect contains
seen_is_counted [] ys u h = cc
seen_is_counted (x ∷ xs) ys u h = ground arith

gather_of_readable :
    (c : Call) (d : Desc) (ready : List Ready) (u : ℤ)
    → contains d.reads u ≡ true
    → c.readfds ≡ true
    → 1 ≤ (gather c d ready).total
unfolding gather
gather_of_readable c d ready u seen asked =
    let counted : 1 ≤ (collect c.readfds d.reads d.excepts).0 =
      rw asked (seen_is_counted d.reads d.excepts u seen) in
    let kept = collect_local_total c (if c.lrfds || c.lwfds then ready else []) (udt_events c d) in
    omega arith

remove_usock_found :
    (e : Epoll) (eid u : ℤ) (d : Desc)
    → find e.polls eid ≡ some d
    → remove_usock e eid u ≡ ok (record e { polls = assign e.polls eid (unwatch u d) })
unfolding remove_usock with_poll
remove_usock_found e eid u d there = rw (there, with_poll) refl

wait_at_once :
    (c : Call) (eid : ℤ) (r : Round) (d : Desc)
    → find r.polls eid ≡ some d
    → c.infinite ≡ false
    → 1 ≤ (gather c d r.ready).total
    → wait c eid (r ∷ []) ≡ returns (gather c d r.ready)
unfolding wait wait_rounds
wait_at_once c eid r d there finite more =
    let counted : ((gather c d r.ready).total == 0) ≡ false = ground arith in
    let goes : wait_rounds c eid (r ∷ []) ≡ returns (gather c d r.ready) =
      rw (there, wait_rounds) (ground (arith, finite, counted)) in
    ground (arith, finite, goes)

-- Taking a socket out of a poll does not take its events out: a socket that was readable is still
-- among those that the next call returns, although the poll does not watch it any more.
pub wait_after_remove :
    (e : Epoll) (eid u : ℤ) (d : Desc) (c : Call) (ready : List Ready) (late : Bool)
    → find e.polls eid ≡ some d
    → contains d.reads u ≡ true
    → c.readfds ≡ true
    → c.infinite ≡ false
    → (e' : Epoll) × (ev : Events) × (remove_usock e eid u ≡ ok e')
      × (wait c eid (record { polls = e'.polls; ready = ready; late = late } ∷ []) ≡ returns ev)
      × (contains ev.reads u ≡ true)
wait_after_remove e eid u d c ready late there seen asked finite =
    let left = unwatch u d in
    let e' = record e { polls = assign e.polls eid left } in
    let kept : contains left.reads u ≡ true = unfold unwatch in seen in
    let found : find e'.polls eid ≡ some left =
      rw (find-assign e.polls eid eid left) (ground arith) in
    let more = gather_of_readable c left ready u kept asked in
    let ends : wait c eid (record { polls = e'.polls; ready = ready; late = late } ∷ [])
        ≡ returns (gather c left ready) =
      wait_at_once c eid (record { polls = e'.polls; ready = ready; late = late }) left found finite
        more in
    (
      e',
      gather c left ready,
      remove_usock_found e eid u d there,
      ends,
      rw ((gather-Reports c left ready (gather c left ready) refl (ground arith)).of_reads u)
          (ground arith),
    )
