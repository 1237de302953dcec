-- ===== src/Epoll/Quiet.antt =====
-- What the operations of CEPoll do to the polls, and the exceptions that never come.
use uvudt.Common.{
  ℕ, Bool, Option, some, List, [], ◌∷◌, ◌≡◌, refl, arith, Bool-cases, Option-cases, inl, inr,
}
use uvudt.Common.Int.{ℤ, ◌==ℤ◌}
use mathlib.Core.Path.{subst}
use uvudt.Epoll.Sets.{IntSet, contains, insert, erase}
use uvudt.Epoll.{
  Epoll, Desc, ok, find, assign, remove_key, with_poll, watch, unwatch, create, fresh_desc,
  next_seed, add_usock, remove_usock, add_ssock, remove_ssock, after_ctl, release,
  update_epoll_sets, update_desc, update_each, update_events,
}

-- No poll waits for exceptions or has one.
pub record IsQuiet (d : Desc) : Type 0 where
  pub no_watch : d.socks_ex ≡ []
  pub no_except : d.excepts ≡ []

abbrev pub AllQuiet : List (ℤ × Desc) → Type 0
AllQuiet [] = Unit {0}
AllQuiet ((k, d) ∷ m) = IsQuiet d × AllQuiet m

assign-AllQuiet :
    (m : List (ℤ × Desc)) (k : ℤ) (d : Desc) → IsQuiet d → AllQuiet m → AllQuiet (assign m k d)
unfolding assign
assign-AllQuiet [] k d q all = (q, tt)
assign-AllQuiet ((i, c) ∷ m) k d q all = elim (Bool-cases (i ==ℤ k)) [
  | inl same ↦ rw same (q, all.1)
  | inr other ↦ rw other (all.0, assign-AllQuiet m k d q all.1)
]

remove_key-AllQuiet : (m : List (ℤ × Desc)) (k : ℤ) → AllQuiet m → AllQuiet (remove_key m k)
unfolding remove_key
remove_key-AllQuiet [] k all = tt
remove_key-AllQuiet ((i, c) ∷ m) k all = elim (Bool-cases (i ==ℤ k)) [
  | inl same ↦ rw same all.1
  | inr other ↦ rw other (all.0, remove_key-AllQuiet m k all.1)
]

find-IsQuiet : (m : List (ℤ × Desc)) (k : ℤ) (d : Desc) → AllQuiet m → find m k ≡ some d → IsQuiet d
unfolding find
find-IsQuiet [] k d all h = cc
find-IsQuiet ((i, c) ∷ m) k d all h = elim (Bool-cases (i ==ℤ k)) [
  | inl same ↦ (let e : c ≡ d = ground arith in subst IsQuiet e all.0)
  | inr other ↦ find-IsQuiet m k d all.1 (ground arith)
]

with_poll-AllQuiet :
    (e e' : Epoll) (k : ℤ) (f : Desc → Desc)
    → ((d : Desc) → IsQuiet d → IsQuiet (f d))
    → AllQuiet e.polls
    → with_poll e k f ≡ ok e'
    → AllQuiet e'.polls
unfolding with_poll
with_poll-AllQuiet e e' k f keep all h = elim (Option-cases (find e.polls k)) [
  | inl gone ↦ absurd (ground arith)
  | inr (d, here) ↦
      let made : assign e.polls k (f d) ≡ e'.polls = ground arith in
      subst AllQuiet made
        (assign-AllQuiet e.polls k (f d) (keep d (find-IsQuiet e.polls k d all here)) all)
]

after_ctl-AllQuiet :
    (e e' : Epoll) (k ctl : ℤ) (f : Desc → Desc)
    → ((d : Desc) → IsQuiet d → IsQuiet (f d))
    → AllQuiet e.polls
    → after_ctl e k ctl f ≡ ok e'
    → AllQuiet e'.polls
unfolding after_ctl
after_ctl-AllQuiet e e' k ctl f keep all h =
    with_poll-AllQuiet e e' k f keep all (unfold with_poll in ground arith)

update_desc-IsQuiet :
    (uid : ℤ) (events : ℕ) (enable : Bool) (d : Desc)
    → IsQuiet d
    → IsQuiet (update_desc uid events enable d)
unfolding update_desc update_epoll_sets contains erase
update_desc-IsQuiet uid events enable d q = record {
  no_watch = q.no_watch;
  no_except = rw (q.no_watch, q.no_except) (ground arith);
}

update_each-AllQuiet :
    (uid : ℤ) (events : ℕ) (enable : Bool) (eids : List ℤ) (e : Epoll)
    → AllQuiet e.polls
    → AllQuiet (update_each uid events enable eids e).1.polls
unfolding update_each
update_each-AllQuiet uid events enable [] e all = all
update_each-AllQuiet uid events enable (eid ∷ eids) e all = elim (Option-cases (find e.polls eid)) [
  | inl gone ↦ rw (gone, update_each) (update_each-AllQuiet uid events enable eids e all)
  | inr (d, here) ↦
      let quiet = update_desc-IsQuiet uid events enable d (find-IsQuiet e.polls eid d all here) in
      rw (here, update_each)
        (update_each-AllQuiet uid events enable eids
          (record e { polls = assign e.polls eid (update_desc uid events enable d) })
          (assign-AllQuiet e.polls eid (update_desc uid events enable d) quiet all))
]

-- What a program can do to the polls, a call at a time.
pub data Step (e : Epoll) : Epoll → Type 0 where
  creates : (local_id id : ℤ) {e' : Epoll} → create e local_id ≡ ok (id, e') → Step e e'
  adds_usock :
      (eid u : ℤ) (events : Option ℕ) {e' : Epoll} → add_usock e eid u events ≡ ok e' → Step e e'
  removes_usock : (eid u : ℤ) {e' : Epoll} → remove_usock e eid u ≡ ok e' → Step e e'
  adds_ssock : (eid s ctl : ℤ) {e' : Epoll} → add_ssock e eid s ctl ≡ ok e' → Step e e'
  removes_ssock : (eid s ctl : ℤ) {e' : Epoll} → remove_ssock e eid s ctl ≡ ok e' → Step e e'
  releases : (eid : ℤ) {e' : Epoll} → release e eid ≡ ok e' → Step e e'
  updates :
      (uid : ℤ) (eids : IntSet) (events : ℕ) (enable : Bool) {e' : Epoll}
      → (update_events e uid eids events enable).1 ≡ e'
      → Step e e'

pub data Reach (e : Epoll) : Epoll → Type 0 where
  here : Reach e e
  after : {e' e'' : Epoll} → Reach e e' → Step e' e'' → Reach e e''

create-AllQuiet :
    (e e' : Epoll) (local_id id : ℤ)
    → AllQuiet e.polls
    → create e local_id ≡ ok (id, e')
    → AllQuiet e'.polls
unfolding create
create-AllQuiet e e' local_id id all h =
    let d = fresh_desc (next_seed e.id_seed) local_id in
    let made : assign e.polls (next_seed e.id_seed) d ≡ e'.polls = ground arith in
    subst AllQuiet made (
      assign-AllQuiet e.polls (next_seed e.id_seed) d (record { no_watch = refl; no_except = refl })
        all)

release-AllQuiet :
    (e e' : Epoll) (eid : ℤ) → AllQuiet e.polls → release e eid ≡ ok e' → AllQuiet e'.polls
unfolding release
release-AllQuiet e e' eid all h =
    let made : remove_key e.polls eid ≡ e'.polls = ground arith in
    subst AllQuiet made (remove_key-AllQuiet e.polls eid all)

Step-AllQuiet : {e e' : Epoll} → Step e e' → AllQuiet e.polls → AllQuiet e'.polls
unfolding add_usock remove_usock add_ssock remove_ssock update_events watch unwatch erase
Step-AllQuiet {e} {e'} (creates local_id id h) all = create-AllQuiet e e' local_id id all h
Step-AllQuiet {e} {e'} (adds_usock eid u events h) all =
    with_poll-AllQuiet e e' eid (watch u events)
      (λ d q. record { no_watch = q.no_watch; no_except = q.no_except }) all h
Step-AllQuiet {e} {e'} (removes_usock eid u h) all =
    with_poll-AllQuiet e e' eid (unwatch u)
      (λ d q. record { no_watch = rw (q.no_watch); no_except = q.no_except }) all h
Step-AllQuiet {e} {e'} (adds_ssock eid s ctl h) all =
    after_ctl-AllQuiet e e' eid ctl (λ d. record d { locals = insert d.locals s })
      (λ d q. record { no_watch = q.no_watch; no_except = q.no_except }) all h
Step-AllQuiet {e} {e'} (removes_ssock eid s ctl h) all =
    after_ctl-AllQuiet e e' eid ctl (λ d. record d { locals = erase d.locals s })
      (λ d q. record { no_watch = q.no_watch; no_except = q.no_except }) all h
Step-AllQuiet {e} {e'} (releases eid h) all = release-AllQuiet e e' eid all h
Step-AllQuiet {e} (updates uid eids events enable h) all =
    subst (λ x. AllQuiet x.polls) h (update_each-AllQuiet uid events enable eids e all)

-- Exceptions are never reported: from a state without polls, no sequence of calls, also of
-- `update_events` with UDT_EPOLL_ERR, leads to a poll that has a socket among its exceptions.
pub Reach-IsQuiet :
    {e e' : Epoll} (k : ℤ) (d : Desc)
    → e.polls ≡ []
    → Reach e e'
    → find e'.polls k ≡ some d
    → IsQuiet d
Reach-IsQuiet {e} {e'} k d empty r h = find-IsQuiet e'.polls k d (all_quiet r) h
  where
    all_quiet : {e'' : Epoll} → Reach e e'' → AllQuiet e''.polls
    all_quiet here = rw empty tt
    all_quiet (after r s) = Step-AllQuiet s (all_quiet r)
