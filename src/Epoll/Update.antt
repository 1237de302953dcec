-- ===== src/Epoll/Update.antt =====
-- `update_events` of CEPoll, poll by poll.
use uvudt.Common.{
  ℕ, Bool, true, false, not, ◌&&◌, ◌||◌, Option, none, some, List, [], ◌∷◌, ◌≡◌, refl, arith,
  if◌then◌else◌, Bool-cases, Option-cases, inl, inr,
}
use uvudt.Common.Int.{ℤ, ◌==ℤ◌, ==ℤ_iff}
use uvudt.Epoll.Sets.{IntSet, contains, erase, contains-insert, contains-erase}
use uvudt.Epoll.{
  Epoll, Desc, find, assign, update_epoll_sets, update_desc, update_each, update_events, erase_all,
  has_in, has_out,
}

pub find-assign :
    (m : List (ℤ × Desc)) (k j : ℤ) (d : Desc)
    → find (assign m k d) j ≡ (if k ==ℤ j then some d else find m j)
unfolding find assign
find-assign [] k j d = ground arith
find-assign ((i, e) ∷ m) k j d = ground (arith, find-assign m k j d)

-- No number twice.
abbrev pub NoRepeat : IntSet → Type 0
NoRepeat [] = Unit {0}
NoRepeat (x ∷ xs) = (contains xs x ≡ false) × NoRepeat xs

abbrev pub told : ℤ → ℕ → Bool → Bool → Option Desc → Option Desc
told uid events enable asked none = none
told uid events enable asked (some d) = some (if asked then update_desc uid events enable d else d)

find-update_each :
    (uid : ℤ) (events : ℕ) (enable : Bool) (eids : List ℤ) (e : Epoll) (k : ℤ)
    → NoRepeat eids
    → find (update_each uid events enable eids e).1.polls k
      ≡ told uid events enable (contains eids k) (find e.polls k)
unfolding update_each contains
find-update_each uid events enable [] e k n = elim (Option-cases (find e.polls k)) [
  | inl gone ↦ rw gone refl
  | inr (d, there) ↦ rw there refl
]
find-update_each uid events enable (eid ∷ eids) e k n = elim (Option-cases (find e.polls eid)) [
  | inl gone ↦
      rw (gone, update_each)
        (elim (Bool-cases (k ==ℤ eid)) [
          | inl same ↦
              let at_k : find e.polls k ≡ none = rw ((==ℤ_iff k eid).0 same) gone in
              rw (find-update_each uid events enable eids e k n.1, at_k) refl
          | inr other ↦ rw (find-update_each uid events enable eids e k n.1, other) refl
        ])
  | inr (d, there) ↦
      let new = assign e.polls eid (update_desc uid events enable d) in
      let step = find-update_each uid events enable eids (record e { polls = new }) k n.1 in
      let found = find-assign e.polls eid k (update_desc uid events enable d) in
      rw (there, update_each)
        (elim (Bool-cases (k ==ℤ eid)) [
          | inl same ↦
              let k_is = (==ℤ_iff k eid).0 same in
              let at_k : find e.polls k ≡ some d = rw k_is there in
              let absent : contains eids k ≡ false = rw k_is (n.0) in
              let back : (eid ==ℤ k) ≡ true = ground arith in
              rw (step, found, absent, at_k, same, back) refl
          | inr other ↦
              let back : (eid ==ℤ k) ≡ false = ground arith in rw (step, found, other, back) refl
        ])
]

abbrev pub known : Option Desc → Bool
known none = false
known (some d) = true

lost_of_update_each :
    (uid : ℤ) (events : ℕ) (enable : Bool) (eids : List ℤ) (e : Epoll) (k : ℤ)
    → contains (update_each uid events enable eids e).0 k
      ≡ contains eids k && not (known (find e.polls k))
unfolding update_each contains
lost_of_update_each uid events enable [] e k = refl
lost_of_update_each uid events enable (eid ∷ eids) e k = elim (Option-cases (find e.polls eid)) [
  | inl gone ↦
      rw (gone, update_each)
        (elim (Bool-cases (k ==ℤ eid)) [
          | inl same ↦
              let at_k : find e.polls k ≡ none = rw ((==ℤ_iff k eid).0 same) gone in
              rw (same, at_k) refl
          | inr other ↦ rw (other, lost_of_update_each uid events enable eids e k) refl
        ])
  | inr (d, there) ↦
      let new = assign e.polls eid (update_desc uid events enable d) in
      let step = lost_of_update_each uid events enable eids (record e { polls = new }) k in
      let found = find-assign e.polls eid k (update_desc uid events enable d) in
      rw (there, update_each)
        (elim (Bool-cases (k ==ℤ eid)) [
          | inl same ↦
              let at_k : find e.polls k ≡ some d = rw ((==ℤ_iff k eid).0 same) there in
              let back : (eid ==ℤ k) ≡ true = ground arith in
              rw (step, found, at_k, same, back) (ground arith)
          | inr other ↦
              let back : (eid ==ℤ k) ≡ false = ground arith in rw (step, found, other, back) refl
        ])
]

contains-erase_all :
    (xs : IntSet) (lost : List ℤ) (k : ℤ)
    → contains (erase_all xs lost) k ≡ contains xs k && not (contains lost k)
unfolding erase_all contains
contains-erase_all xs [] k = ground arith
contains-erase_all xs (l ∷ lost) k =
    ground (arith, contains-erase_all (erase xs l) lost k, contains-erase xs l k)

-- `update_events` for a list of polls without repetitions: each poll of the list that exists is told
-- the events, all others stay as they are, and the list keeps exactly the polls that exist.
pub update_events_lem :
    (e : Epoll) (uid : ℤ) (eids : IntSet) (events : ℕ) (enable : Bool) (k : ℤ)
    → NoRepeat eids
    → (find (update_events e uid eids events enable).1.polls k
        ≡ told uid events enable (contains eids k) (find e.polls k))
      × (contains (update_events e uid eids events enable).0 k
          ≡ contains eids k && known (find e.polls k))
unfolding update_events
update_events_lem e uid eids events enable k n =
    let lost = (update_each uid events enable eids e).0 in
    (
      find-update_each uid events enable eids e k n,
      rw (contains-erase_all eids lost k, lost_of_update_each uid events enable eids e k)
          (elim (Bool-cases (contains eids k)) [
            | inl old ↦ rw old (elim (Bool-cases (known (find e.polls k))) [
              | inl is_known ↦ rw is_known refl
              | inr is_lost ↦ rw is_lost refl
            ])
            | inr new ↦ rw new refl
          ]),
    )

if_told :
    (uid : ℤ) (on enable : Bool) (watched result : IntSet) (k : ℤ)
    → contains (if on then update_epoll_sets uid watched result enable else result) k ≡ (
        if on && k ==ℤ uid
        then enable && (contains watched uid || contains result uid)
        else contains result k)
unfolding update_epoll_sets
if_told uid on enable watched result k = elim (Bool-cases (k ==ℤ uid)) [
  | inl same ↦
      let k_is = (==ℤ_iff k uid).0 same in
      rw k_is (ground (arith, contains-insert result uid uid, contains-erase result uid uid))
  | inr other ↦ ground (arith, other, contains-insert result uid k, contains-erase result uid k)
]

-- What the socket `k` gets to see when `uid` has events: for `uid` itself and the kind of events that
-- the bit stands for, it joins the result if it is watched, and leaves it when events end; no other
-- socket, and no other kind of events, changes.
pub update_desc_lem :
    (uid : ℤ) (events : ℕ) (enable : Bool) (d : Desc) (k : ℤ)
    → (contains (update_desc uid events enable d).reads k ≡ (
        if has_in events && k ==ℤ uid
        then enable && (contains d.socks_in uid || contains d.reads uid)
        else contains d.reads k))
      × (contains (update_desc uid events enable d).writes k ≡ (
          if has_out events && k ==ℤ uid
          then enable && (contains d.socks_out uid || contains d.writes uid)
          else contains d.writes k))
unfolding update_desc
update_desc_lem uid events enable d k = (
  if_told uid (has_in events) enable d.socks_in d.reads k,
  if_told uid (has_out events) enable d.socks_out d.writes k,
)
