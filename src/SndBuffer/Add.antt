-- ===== src/SndBuffer/Add.antt =====
-- `addBuffer` of CSndBuffer: the bytes of a message join those that wait to be sent.
use uvudt.Common.{
  ℕ, zero, suc, ◌+◌, ◌-◌, ◌*◌, ◌%◌, ◌^◌, ◌≤◌, ◌<◌, Bool, true, false, some, List, [], ◌∷◌, ◌++◌,
  ◌≡◌, ◌∙◌, refl, sym, ap, arith, ltb, ◌==◌, if◌then◌else◌, length, length-append, take, drop,
  drop_all, drop-0, take-drop, take_all, append_nil, append_assoc, drop-drop, length-drop, write,
  All, All-split, All-imp, Bool-cases, inl, inr,
}
use mathlib.Core.Path.{subst}
use native.Mathlib.Nat.{div-add-mod}
use uvudt.Common.Int.{ℤ}
use uvudt.SndBuffer.Ring.{
  Segment, Free, Distinct, Below, Holds, bytes, Segment-append, Distinct-split,
}
use uvudt.SndBuffer.Grow.{grow-Holds}
use uvudt.SndBuffer.{Block, SndBuffer, packets_of, msg_word, fill, add_message, add_buffer}

-- A packet and the bytes behind it are the bytes before it.
chunk :
    (xs : List ℕ) (i mss : ℕ)
    → take (if ltb mss (length xs - i * mss) then mss else length xs - i * mss) (drop (i * mss) xs)
        ++ drop ((i + 1) * mss) xs
      ≡ drop (i * mss) xs
chunk xs i mss =
    let rest = drop (i * mss) xs in
    let long : length rest ≡ length xs - i * mss = length-drop (i * mss) xs in
    let step : (i + 1) * mss ≡ i * mss + mss = grind arith in
    let behind : drop ((i + 1) * mss) xs ≡ drop mss rest =
      ap (λ k. drop k xs) step ∙ sym (drop-drop mss (i * mss) xs) in
    elim (Bool-cases (ltb mss (length xs - i * mss))) [
      | inl whole ↦ rw (whole, behind) (take-drop mss rest)
      | inr part ↦
          let none_left : drop mss rest ≡ [] = drop_all mss rest (ground (arith, long)) in
          rw (part, behind, none_left)
            (append_nil (take (length xs - i * mss) rest)
              ∙ take_all (length xs - i * mss) rest (omega (arith, long)))
    ]

msg_word-number :
    (number : ℕ) (order first last : Bool)
    → number < 2 ^ 29
    → msg_word number order first last % 2 ^ 29 ≡ number
unfolding msg_word
msg_word-number number true true true h = omega arith
msg_word-number number true true false h = omega arith
msg_word-number number true false true h = omega arith
msg_word-number number true false false h = omega arith
msg_word-number number false true true h = omega arith
msg_word-number number false true false h = omega arith
msg_word-number number false false true h = omega arith
msg_word-number number false false false h = omega arith

-- What `fill` does from the block `s` on, where the free blocks lead to `q`.
record Filled (b : SndBuffer) (s q i n : ℕ) (free : List ℕ) (message : List ℕ) (b' : SndBuffer)
    (s' : ℕ) : Type 0 where
  taken : List ℕ
  rest : List ℕ
  split : free ≡ taken ++ rest
  many : length taken ≡ n
  to : Segment b.next s s' taken
  from : Segment b.next s' q rest
  written : bytes b'.block taken ≡ drop (i * b.mss) message
  numbered : All (λ x. (b'.block x).msg_no % 2 ^ 29 ≡ b.next_msg_no) taken
  kept : (x : ℕ) → Free x taken → b'.block x ≡ b.block x
  same : b' ≡ record b { block = b'.block }

fill-Filled :
    (n i size : ℕ) (message : List ℕ) (ttl : ℤ) (order : Bool) (time : ℕ) (b : SndBuffer) (s q : ℕ)
    (free : List ℕ)
    → Segment b.next s q free
    → Distinct free
    → n ≤ length free
    → length message ≤ (i + n) * b.mss
    → b.next_msg_no < 2 ^ 29
    → Filled b s q i n free message
        (fill n i size message ttl order time b s).0
        (fill n i size message ttl order time b s).1
unfolding fill
fill-Filled zero i size message ttl order time b s q free link distinct fits covers small = record {
  taken = [];
  rest = free;
  split = refl;
  many = refl;
  to = refl;
  from = link;
  written = sym (
      drop_all (i * b.mss) message
        (let e : i + 0 ≡ i = omega arith in omega (arith, ap (λ k. k * b.mss) e)));
  numbered = tt;
  kept = λ x f. refl;
  same = refl;
}
fill-Filled (suc n) i size message ttl order time b s q [] link distinct fits covers small =
    absurd (omega arith)
fill-Filled (suc n) i size message ttl order time b s q (x ∷ xs) link distinct fits covers small =
    let left = length message - i * b.mss in
    let pktlen = if ltb b.mss left then b.mss else left in
    let now : Block = record {
      pc_data = take pktlen (drop (i * b.mss) message);
      msg_no = msg_word b.next_msg_no order (i == 0) (i + 1 == size);
      origin_time = time;
      ttl = ttl;
    } in
    let b1 = record b { block = write b.block s now } in
    let shift : i + 1 + n ≡ i + suc n = omega arith in
    let rest =
      fill-Filled n (i + 1) size message ttl order time b1 (b.next s) q xs link.1 distinct.1
        (omega arith) (omega (arith, ap (λ k. k * b.mss) shift)) small in
    let not_again : Free x rest.taken =
      (All-split (λ k. (k == x) ≡ false) rest.taken rest.rest
        (subst (Free x) rest.split distinct.0)).0 in
    let at_x : b1.block x ≡ now = ground (arith, link.0) in
    let holds_now = rest.kept x not_again ∙ at_x in
    record {
      taken = x ∷ rest.taken;
      rest = rest.rest;
      split = ap (λ l. x ∷ l) rest.split;
      many = ap suc rest.many;
      to = (link.0, rest.to);
      from = rest.from;
      written = rw (holds_now, rest.written) (chunk message i b.mss);
      numbered = (
        ap (λ (k : Block). k.msg_no % 2 ^ 29) holds_now
            ∙ msg_word-number b.next_msg_no order (i == 0) (i + 1 == size) small,
        rest.numbered,
      );
      kept = λ y f. rest.kept y f.1 ∙ (let x_y = f.0 in let e = link.0 in ground arith);
      same = rest.same;
    }

packets_cover : (len mss : ℕ) → 1 ≤ mss → len ≤ packets_of len mss * mss
unfolding packets_of
packets_cover len mss h =
    let whole = div-add-mod len mss in
    elim (Bool-cases (len % mss == 0)) [
      | inl even ↦ rw even (let z : len % mss ≡ 0 = ground arith in grind arith)
      | inr odd ↦ let small : len % mss < mss = grind arith in rw odd (grind arith)
    ]

bytes-kept :
    (block block' : ℕ → Block) (xs : List ℕ)
    → All (λ x. block' x ≡ block x) xs
    → bytes block' xs ≡ bytes block xs
bytes-kept block block' [] same = refl
bytes-kept block block' (x ∷ xs) same = rw (same.0, bytes-kept block block' xs same.1) refl

bytes-append :
    (block : ℕ → Block) (xs ys : List ℕ) → bytes block (xs ++ ys) ≡ bytes block xs ++ bytes block ys
bytes-append block [] ys = refl
bytes-append block (x ∷ xs) ys =
    ap (λ l. (block x).pc_data ++ l) (bytes-append block xs ys)
    ∙ sym (append_assoc (block x).pc_data (bytes block xs) (bytes block ys))

-- The buffer after a message has joined it: its blocks wait behind the others, and hold its bytes and
-- its number.
pub record Added (b : SndBuffer) (sent queued : List ℕ) (message : List ℕ) (b' : SndBuffer)
    : Type 0 where
  pub new : List ℕ
  pub spare : List ℕ
  pub holds : Holds b' sent (queued ++ new) spare
  pub stream : bytes b'.block (queued ++ new) ≡ bytes b.block queued ++ message
  pub resendable : bytes b'.block sent ≡ bytes b.block sent
  pub numbered : All (λ x. (b'.block x).msg_no % 2 ^ 29 ≡ b.next_msg_no) new
  pub many : length new ≡ packets_of (length message) b.mss

Free-taken :
    (xs taken rest : List ℕ) → All (λ x. Free x (taken ++ rest)) xs → All (λ x. Free x taken) xs
Free-taken [] taken rest h = tt
Free-taken (x ∷ xs) taken rest h =
    ((All-split (λ k. (k == x) ≡ false) taken rest h.0).0, Free-taken xs taken rest h.1)

regroup :
    (sent queued taken rest : List ℕ)
    → sent ++ queued ++ (taken ++ rest) ≡ sent ++ (queued ++ taken) ++ rest
regroup sent queued taken rest =
    sym (append_assoc (sent ++ queued) taken rest)
    ∙ ap (λ l. l ++ rest) (append_assoc sent queued taken)

-- The new state of the blocks, where `r` is the block behind the message.
added :
    (b : SndBuffer) (sent queued spare taken rs : List ℕ) (n r : ℕ) (block : ℕ → Block)
    → Holds b sent queued spare
    → b.last_block ∷ spare ≡ taken ++ r ∷ rs
    → length taken ≡ n
    → Segment b.next b.last_block r taken
    → Segment b.next (b.next r) b.first_block rs
    → Holds (add_message (record b { block = block }) r n) sent (queued ++ taken) rs
unfolding add_message
added b sent queued spare taken rs n r block h split many to from =
    let whole = ap (λ l. sent ++ queued ++ l) split ∙ regroup sent queued taken (r ∷ rs) in
    let counts = ap length split in
    record {
      to_curr = h.to_curr;
      to_last = Segment-append b.next b.curr_block b.last_block r queued taken h.to_last to;
      around = (refl, from);
      distinct = subst Distinct whole h.distinct;
      below = subst (Below b.fresh) whole h.below;
      counted = omega (arith, h.counted, length-append queued taken, many);
      sized =
          omega (arith, h.sized, length-append queued taken, length-append taken (r ∷ rs), counts);
    }

-- The blocks that are not taken keep their bytes.
kept_bytes :
    (block block' : ℕ → Block) (taken rest xs : List ℕ)
    → ((x : ℕ) → Free x taken → block' x ≡ block x)
    → All (λ x. Free x (taken ++ rest)) xs
    → bytes block' xs ≡ bytes block xs
kept_bytes block block' taken rest xs kept apart =
    bytes-kept block block' xs (
      All-imp (λ x. Free x taken) (λ x. block' x ≡ block x) kept xs
        (Free-taken xs taken rest apart))

blocks-Added :
    (b : SndBuffer) (sent queued spare message taken rs : List ℕ) (n r : ℕ) (block : ℕ → Block)
    → Holds b sent queued spare
    → b.last_block ∷ spare ≡ taken ++ r ∷ rs
    → length taken ≡ n
    → n ≡ packets_of (length message) b.mss
    → Segment b.next b.last_block r taken
    → Segment b.next (b.next r) b.first_block rs
    → bytes block taken ≡ drop (0 * b.mss) message
    → All (λ x. (block x).msg_no % 2 ^ 29 ≡ b.next_msg_no) taken
    → ((x : ℕ) → Free x taken → block x ≡ b.block x)
    → All (λ x. Free x (b.last_block ∷ spare)) (sent ++ queued)
    → Added b sent queued message (add_message (record b { block = block }) r n)
blocks-Added b sent queued spare message taken rs n r block h split many number_of to from written
      numbered kept apart =
    let apart' = subst (λ l. All (λ x. Free x l) (sent ++ queued)) split apart in
    let (a_sent, a_queued) = All-split (λ x. Free x (taken ++ r ∷ rs)) sent queued apart' in
    let whole : 0 * b.mss ≡ 0 = omega arith in
    let all_written : bytes block taken ≡ message =
      written ∙ ap (λ k. drop k message) whole ∙ drop-0 message in
    record {
      new = taken;
      spare = rs;
      holds = added b sent queued spare taken rs n r block h split many to from;
      stream =
          unfold add_message in
          (bytes-append block queued taken
            ∙ ap (λ l. l ++ bytes block taken)
                (kept_bytes b.block block taken (r ∷ rs) queued kept a_queued)
            ∙ ap (λ l. bytes b.block queued ++ l) all_written);
      resendable = unfold add_message in kept_bytes b.block block taken (r ∷ rs) sent kept a_sent;
      numbered = unfold add_message in numbered;
      many = many ∙ number_of;
    }

message-Added :
    (b : SndBuffer) (sent queued spare message : List ℕ) (ttl : ℤ) (order : Bool) (time n : ℕ)
    → Holds b sent queued spare
    → n ≤ length spare
    → length message ≤ n * b.mss
    → n ≡ packets_of (length message) b.mss
    → b.next_msg_no < 2 ^ 29
    → Added b sent queued message (
        add_message
          (fill n 0 n message ttl order time b b.last_block).0
          (fill n 0 n message ttl order time b b.last_block).1
          n)
message-Added b sent queued spare message ttl order time n h room covers number_of small =
    let l = b.last_block in
    let (d_used, d_spare, apart) = Distinct-split (sent ++ queued) (l ∷ spare) h.distinct in
    let from_0 : 0 + n ≡ n = omega arith in
    let f =
      fill-Filled n 0 n message ttl order time b l b.first_block (l ∷ spare) h.around d_spare
        (omega arith) (omega (arith, ap (λ k. k * b.mss) from_0)) small in
    finish f.taken f.rest f.split f.many f.to f.from f.written f.numbered f.kept f.same apart
  where
    filled : SndBuffer × ℕ
    filled = fill n 0 n message ttl order time b b.last_block

    finish :
        (taken rest : List ℕ)
        → b.last_block ∷ spare ≡ taken ++ rest
        → length taken ≡ n
        → Segment b.next b.last_block filled.1 taken
        → Segment b.next filled.1 b.first_block rest
        → bytes filled.0.block taken ≡ drop (0 * b.mss) message
        → All (λ x. (filled.0.block x).msg_no % 2 ^ 29 ≡ b.next_msg_no) taken
        → ((x : ℕ) → Free x taken → filled.0.block x ≡ b.block x)
        → filled.0 ≡ record b { block = filled.0.block }
        → All (λ x. Free x (b.last_block ∷ spare)) (sent ++ queued)
        → Added b sent queued message (add_message filled.0 filled.1 n)
    finish taken [] split many to from written numbered kept same apart =
        absurd (omega (arith, ap length split, length-append taken []))
    finish taken (r ∷ rs) split many to from written numbered kept same apart =
        subst (λ k. Added b sent queued message (add_message k filled.1 n)) (sym same)
          (subst
            (λ k.
              Added b sent queued message (add_message (record b { block = filled.0.block }) k n))
            (sym from.0)
            (blocks-Added b sent queued spare message taken rs n r filled.0.block h split many
              number_of (subst (λ k. Segment b.next b.last_block k taken) from.0 to)
              (subst (λ k. Segment b.next (b.next k) b.first_block rs) from.0 from.1) written
              numbered kept apart))

-- `addBuffer` on a buffer that holds blocks, with a positive size of packets: it ends, the blocks of
-- the message wait behind the others and carry its number, what waits to be sent is what waited and
-- then the message, and the blocks that are sent keep their bytes.
pub add_buffer-Added :
    (b : SndBuffer) (sent queued spare message : List ℕ) (ttl : ℤ) (order : Bool) (time : ℕ)
    → Holds b sent queued spare
    → 1 ≤ b.unit_size
    → 1 ≤ b.mss
    → b.next_msg_no < 2 ^ 29
    → (b' : SndBuffer) × (add_buffer b message ttl order time ≡ some b')
      × Added b sent queued message b'
unfolding add_buffer
add_buffer-Added b sent queued spare message ttl order time h some_units some_bytes small =
    let n = packets_of (length message) b.mss in
    let (b1, spare1, ends, held, blocks, mss, number, room) =
      grow-Holds (suc (n + b.count)) b n sent queued spare some_units (omega arith)
        (omega (arith, h.sized)) h in
    let made =
      message-Added b1 sent queued spare1 message ttl order time n held room
        (rw mss (packets_cover (length message) b.mss some_bytes)) (rw mss refl)
        (rw number small) in
    let made_buffer =
      add_message (fill n 0 n message ttl order time b1 b1.last_block).0
        (fill n 0 n message ttl order time b1 b1.last_block).1 n in
    (
      made_buffer,
      rw (ends, add_buffer) refl,
      record {
        new = made.new;
        spare = made.spare;
        holds = made.holds;
        stream = made.stream ∙ ap (λ k. bytes k queued ++ message) blocks;
        resendable = made.resendable ∙ ap (λ k. bytes k sent) blocks;
        numbered =
            subst (λ k. All (λ x. (made_buffer.block x).msg_no % 2 ^ 29 ≡ k) made.new) number
              made.numbered;
        many = made.many ∙ ap (λ k. packets_of (length message) k) mss;
      },
    )
