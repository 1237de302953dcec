-- ===== src/Connection/Resending.antt =====
-- What `packData` sends for a number of the loss list.
use uvudt.Common.{
  ℕ, ◌+◌, ◌%◌, ◌^◌, ◌≤◌, ◌<◌, true, false, some, List, ◌∷◌, ◌++◌, ◌≡◌, ◌∙◌, refl, ap, arith, ◌==◌,
  length, append_assoc,
}
use uvudt.Common.Int.{ℤ, pos, leb_ℤ, ltb_ℤ, to_word}
use uvudt.Seqno.{max_seqno, seqoff}
use uvudt.Seqno.Order.{seqoff_of_gap}
use uvudt.Packet.{Packet}
use uvudt.SndBuffer.Read.{read_data_at-resend}
use uvudt.SndLossList.{SndLossList, get_lost_seq}
use uvudt.Connection.Pace.{
  Packed, with_numbers, with_block, enter, finish, retransmit, pack_lost, pack_data,
}
use uvudt.Connection.Sending.{Sending, seal_lem, word_of}
use uvudt.Connection.{Env, Cudt, emit, counts, retrans}

-- The number that lies `k` behind another one.
pub gap_off :
    (base k : ℕ)
    → base ≤ max_seqno
    → k < 0x1fff_ffff
    → seqoff (pos base) (pos ((base + k) % 2 ^ 30)) ≡ pos k
gap_off base k h small =
    seqoff_of_gap base ((base + k) % 2 ^ 30) k h (omega arith) small (omega arith)

pack_lost_found :
    {Key C : Type 0} (env : Env Key C) (now wall : ℕ) (p : Packet) (ts : ℕ) (c : Cudt C) (n : ℕ)
    (losses : SndLossList)
    → pack_lost env now wall p ts c (pos n, losses)
      ≡ retransmit env now wall
          (with_numbers p (to_word (pos n)) p.header.word1)
          ts
          (pos n)
          (record c { snd_loss_list = losses })
unfolding pack_lost
pack_lost_found env now wall p ts c n losses =
    let real : leb_ℤ (pos 0) (pos n) ≡ true = ground arith in rw (real, pack_lost) refl

-- A block that goes out again.
abbrev pub Resent : {C : Type 0} → Packed C → List ℕ → ℕ → ℕ → Type 0
Resent r pc_data base k =
    (r.payload ≡ length pc_data)
    × (r.packet.base ≡ some pc_data)
    × (r.packet.header.word0 % 2 ^ 30 ≡ (base + k) % 2 ^ 30)

retransmit-resends :
    {Key C : Type 0} (env : Env Key C) (now wall : ℕ) (p : Packet) (ts : ℕ) (c : Cudt C) (base : ℕ)
    (xs : List ℕ) (q : ℕ) (ys queued spare : List ℕ)
    → Sending c base (xs ++ q ∷ ys) queued spare
    → length xs < 0x1fff_ffff
    → leb_ℤ (pos 0) (c.snd_buffer.block q).ttl ≡ false
    → (length (c.snd_buffer.block q).pc_data == 0) ≡ false
    → (r : Packed C) × (retransmit env now wall p ts (pos ((base + length xs) % 2 ^ 30)) c ≡ some r)
      × Resent r (c.snd_buffer.block q).pc_data base (length xs)
      × Sending r.conn base (xs ++ q ∷ ys) queued spare
unfolding retransmit finish emit
retransmit-resends env now wall p ts c base xs q ys queued spare s few endless full =
    let n = (base + length xs) % 2 ^ 30 in
    let block = c.snd_buffer.block q in
    let offset : seqoff c.snd_last_data_ack (pos n) ≡ pos (length xs) =
      ap (λ (z : ℤ). seqoff z (pos n)) s.base_is ∙ gap_off base (length xs) s.base_in few in
    let ahead : ltb_ℤ (pos (length xs)) (pos 0) ≡ false = ground arith in
    let reads =
      read_data_at-resend c.snd_buffer xs (ys ++ queued) q wall (xs ++ q ∷ ys) queued spare s.blocks
        (append_assoc xs (q ∷ ys) queued) endless in
    let (word, payload) =
      seal_lem env now wall (with_block p (pos n) block) (length block.pc_data) in
    rw (offset, ahead, reads, full, retransmit)
      (
        finish env now wall (with_block p (pos n) block) (length block.pc_data) false
            (emit (counts retrans (pos 1)) c),
        refl,
        (refl, payload, word ∙ word_of n ∙ omega arith),
        record { base_is = s.base_is; base_in = s.base_in; curr_is = s.curr_is; blocks = s.blocks },
      )

-- `packData` where the loss list gives the number of a block that is sent and waits for its ACK, and
-- whose message never expires: it returns, and sends that block again, under the number under which
-- it went out the first time. The blocks keep their numbers.
pub pack_data-resends :
    {Key C : Type 0} (env : Env Key C) (now wall : ℕ) (p : Packet) (ts : ℕ) (c : Cudt C) (base : ℕ)
    (xs : List ℕ) (q : ℕ) (ys queued spare : List ℕ) (losses : SndLossList)
    → Sending c base (xs ++ q ∷ ys) queued spare
    → get_lost_seq c.snd_loss_list ≡ (pos ((base + length xs) % 2 ^ 30), losses)
    → length xs < 0x1fff_ffff
    → leb_ℤ (pos 0) (c.snd_buffer.block q).ttl ≡ false
    → (length (c.snd_buffer.block q).pc_data == 0) ≡ false
    → (r : Packed C) × (pack_data env now wall p ts c ≡ some r)
      × Resent r (c.snd_buffer.block q).pc_data base (length xs)
      × Sending r.conn base (xs ++ q ∷ ys) queued spare
unfolding pack_data enter
pack_data-resends env now wall p ts c base xs q ys queued spare losses s lost few endless full =
    let asked = with_numbers p (to_word (pos ((base + length xs) % 2 ^ 30))) p.header.word1 in
    let taken = record (enter env now wall c) { snd_loss_list = losses } in
    let s' : Sending taken base (xs ++ q ∷ ys) queued spare = record {
      base_is = s.base_is;
      base_in = s.base_in;
      curr_is = s.curr_is;
      blocks = s.blocks;
    } in
    let (r, returns, resent, held) =
      retransmit-resends env now wall asked ts taken base xs q ys queued spare s' few endless
        full in
    (
      r,
      ap (λ (x : ℤ × SndLossList). pack_lost env now wall p ts (enter env now wall c) x) lost
          ∙ pack_lost_found env now wall p ts (enter env now wall c) ((base + length xs) % 2 ^ 30)
              losses
          ∙ returns,
      resent,
      held,
    )
