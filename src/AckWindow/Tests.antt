-- ===== src/AckWindow/Tests.antt =====
-- Runs of the ACK window, and its theorems at concrete windows.
use uvudt.Common.{◌≡◌, ◌==◌, if◌then◌else◌, refl, [], ◌∷◌, arith}
use uvudt.Common.Int.{pos}
use uvudt.AckWindow.{AckWindow, create, store, acknowledge, missing}
use uvudt.AckWindow.Contents.{IsValid, contents, remember, drop_through}
use uvudt.AckWindow.Store.{contents-store, create-IsValid}
use uvudt.AckWindow.Acknowledge.{Answers, acknowledge-Answers}

abbrev empty : AckWindow
unfolding create
empty = create (λ i. pos 0) (λ i. pos 0) (λ i. 0) 3

-- ACK 2 at index 2 and ACK 3 at index 0, with ACK 1 overwritten by what came later.
abbrev wrapped : AckWindow
wrapped = record {
  ack_seq_no = λ i. if i == 0 then pos 3 else if i == 2 then pos 2 else pos 1;
  ack = λ i. if i == 0 then pos 30 else if i == 2 then pos 20 else pos 10;
  time_stamp = λ i. if i == 0 then 300 else if i == 2 then 200 else 100;
  size = 3;
  head = 1;
  tail = 2;
}

wrapped-IsValid : IsValid wrapped
wrapped-IsValid = omega arith

create-IsValid_example : IsValid empty
unfolding create
create-IsValid_example = (create-IsValid (λ i. pos 0) (λ i. pos 0) (λ i. 0) 3 (omega arith)).0

contents-store_example :
    contents (store wrapped (pos 4) (pos 40) 400)
    ≡ remember 3 (contents wrapped) (record { seq = pos 4; ack = pos 40; stamp = 400 })
contents-store_example = contents-store wrapped (pos 4) (pos 40) 400 wrapped-IsValid

-- The entry of ACK 2 made room.
contents-store_run :
    contents (store wrapped (pos 4) (pos 40) 400)
    ≡ record { seq = pos 3; ack = pos 30; stamp = 300 }
      ∷ record { seq = pos 4; ack = pos 40; stamp = 400 }
      ∷ []
unfolding store
contents-store_run = refl

acknowledge-Answers_example :
    Answers wrapped
      (pos 0)
      350
      (drop_through (pos 3) (contents wrapped))
      (acknowledge wrapped (pos 3) (pos 0) 350)
acknowledge-Answers_example = acknowledge-Answers wrapped (pos 3) (pos 0) 350 wrapped-IsValid

acknowledge_run : (acknowledge wrapped (pos 3) (pos 0) 350).rtt ≡ pos 50
unfolding acknowledge
acknowledge_run = refl

acknowledge_misses : acknowledge wrapped (pos 9) (pos 7) 350 ≡ missing wrapped (pos 7)
unfolding acknowledge
acknowledge_misses = refl
