-- ===== src/Epoll/Tests.antt =====
-- Runs of CEPoll on small polls, and the theorems at concrete states.
use uvudt.Common.{List, true, false, none, [], ◌∷◌, ◌≡◌, refl, ◌&&◌}
use uvudt.Common.Int.{pos, ◌+ℤ◌}
use uvudt.Epoll.Sets.{contains, insert, union}
use uvudt.Epoll.Quiet.{IsQuiet, Reach, here, after, creates, adds_usock, updates, Reach-IsQuiet}
use uvudt.Epoll.Update.{update_events_lem, told, known}
use uvudt.Epoll.Wait.{wait-returns, SomeRound}
use uvudt.Epoll.{
  Epoll, Desc, fresh_desc, find, assign, create, add_usock, with_poll, watch, next_seed,
  update_events, update_each, erase_all, update_desc, update_epoll_sets, Round, Ready, Call, wait,
  wait_rounds, gather, collect, collect_local,
}

abbrev no_polls : Epoll
no_polls = record { id_seed = pos 0; polls = [] }

-- Poll 1 watches the socket 7, which has data.
abbrev watched : Desc
watched = record (fresh_desc (pos 1) (pos 3)) { socks_in = pos 7 ∷ []; socks_out = pos 7 ∷ [] }

abbrev readable : Desc
readable = record watched { reads = pos 7 ∷ [] }

abbrev one_poll : Desc → Epoll
one_poll d = record { id_seed = pos 1; polls = (pos 1, d) ∷ [] }

abbrev asks_reads : Call
asks_reads = record {
  readfds = true;
  writefds = false;
  lrfds = true;
  lwfds = false;
  infinite = false;
}

-- The system reports the socket 11 readable and 12 writable.
abbrev system_sockets : List Ready
system_sockets =
    record { fd = pos 11; readable = true; writable = false }
    ∷ record { fd = pos 12; readable = false; writable = true }
    ∷ []

abbrev round : Round
round = record { polls = (pos 1, readable) ∷ []; ready = system_sockets; late = false }

two_calls : Reach no_polls (one_poll watched)
unfolding create add_usock with_poll watch find assign insert next_seed ◌+ℤ◌
two_calls = after (after here (creates (pos 3) (pos 1) refl)) (adds_usock (pos 1) (pos 7) none refl)

three_calls : Reach no_polls (one_poll readable)
unfolding update_events update_each erase_all update_desc update_epoll_sets find assign insert
three_calls = after two_calls (updates (pos 7) (pos 1 ∷ []) 9 true refl)

Reach-IsQuiet_example : IsQuiet readable
unfolding find
Reach-IsQuiet_example = Reach-IsQuiet (pos 1) readable refl three_calls refl

update_events_lem_example :
    (find (update_events (one_poll watched) (pos 7) (pos 1 ∷ pos 2 ∷ []) 1 true).1.polls (pos 1)
      ≡ told
          (pos 7)
          1
          true
          (contains (pos 1 ∷ pos 2 ∷ []) (pos 1))
          (find (one_poll watched).polls (pos 1)))
    × (contains (update_events (one_poll watched) (pos 7) (pos 1 ∷ pos 2 ∷ []) 1 true).0 (pos 1)
        ≡ contains (pos 1 ∷ pos 2 ∷ []) (pos 1) && known (find (one_poll watched).polls (pos 1)))
unfolding contains
update_events_lem_example =
    update_events_lem (one_poll watched) (pos 7) (pos 1 ∷ pos 2 ∷ []) 1 true (pos 1)
      (refl, (refl, tt))

wait-returns_example :
    SomeRound asks_reads (pos 1) (round ∷ []) (gather asks_reads readable system_sockets)
unfolding wait wait_rounds find gather collect collect_local union
wait-returns_example =
    wait-returns asks_reads (pos 1) (round ∷ []) (gather asks_reads readable system_sockets) refl
