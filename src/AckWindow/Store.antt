-- ===== src/AckWindow/Store.antt =====
-- `store` of UDT4/src/window.cpp against the history of ACKs.
use uvudt.Common.{
  ℕ, zero, suc, ◌+◌, ◌%◌, ◌<◌, ◌≡◌, ◌≢◌, ◌⊎◌, inl, inr, refl, ap, ap₂, ◌∙◌, List, [], ◌∷◌, ◌++◌,
  arith, length, mod_once, mod-mod, mod-add-mod, sym,
}
use uvudt.Common.Int.{ℤ}
use uvudt.AckWindow.{AckWindow, store, create}
use uvudt.AckWindow.Contents.{Entry, IsValid, entry, slots, count, contents, remember, drop_oldest}

pub length-slots : (w : AckWindow) (i n : ℕ) → length (slots w i n) ≡ n
length-slots w i zero = refl
length-slots w i (suc n) = ap suc (length-slots w (i + 1) n)

slots-snoc :
    (w : AckWindow) (i n : ℕ) → slots w i (suc n) ≡ slots w i n ++ entry w ((i + n) % w.size) ∷ []
slots-snoc w i zero = ap (λ j. entry w (j % w.size) ∷ []) (omega arith)
slots-snoc w i (suc n) = ap (◌∷◌ (entry w (i % w.size))) (
    slots-snoc w (i + 1) n ∙ ap (λ j. slots w (i + 1) n ++ entry w (j % w.size) ∷ []) (omega arith))

-- Going once round the array does not matter.
pub slots_round : (w : AckWindow) (i n : ℕ) → 0 < w.size → slots w (i % w.size) n ≡ slots w i n
slots_round w i zero h = refl
slots_round w i (suc n) h = ap₂ ◌∷◌ (ap (entry w) (mod-mod i w.size)) (
    sym (slots_round w (i % w.size + 1) n h)
    ∙ ap (λ j. slots w j n) (mod-add-mod i w.size 1)
    ∙ slots_round w (i + 1) n h)

pub store-IsValid :
    {w : AckWindow} (seq ack : ℤ) (now : ℕ) → IsValid w → IsValid (store w seq ack now)
unfolding store
store-IsValid {w} seq ack now v =
    ground (arith, mod_once w.size (w.head + 1), mod_once w.size (w.tail + 1))

module _ (w : AckWindow) (seq ack : ℤ) (now : ℕ) (v : IsValid w) where
  abbrev new_entry : Entry
  new_entry = record { seq = seq; ack = ack; stamp = now }

  entry-store_head : entry (store w seq ack now) w.head ≡ new_entry
  unfolding store
  entry-store_head = ground arith

  entry-store_ne : (i : ℕ) → i ≢ w.head → entry (store w seq ack now) i ≡ entry w i
  unfolding store
  entry-store_ne i h = ground arith

  -- The entries that end at the head are left alone.
  slots-store :
      (i n : ℕ)
      → n < w.size
      → (i + n ≡ w.head) ⊎ (i + n ≡ w.head + w.size)
      → slots (store w seq ack now) i n ≡ slots w i n
  slots-store i zero h e = refl
  slots-store i (suc n) h e =
      ap₂ ◌∷◌ (unfold store in entry-store_ne (i % w.size) (ground (arith, mod_once w.size i)))
        (slots-store (i + 1) n (omega arith) (omega arith))

  slots-store_all :
      slots (store w seq ack now) w.tail (suc (count w)) ≡ contents w ++ new_entry ∷ []
  slots-store_all =
      slots-snoc (store w seq ack now) w.tail (count w)
      ∙ ap₂ (λ es e. es ++ e ∷ []) (slots-store w.tail (count w) (ground arith) (ground arith))
          (ap (entry (store w seq ack now)) at_head ∙ entry-store_head)
    where
      at_head : (w.tail + count w) % (store w seq ack now).size ≡ w.head
      at_head = unfold store in ground (arith, mod_once w.size (w.tail + count w))

  -- How the two indices move, by whether the window is full.
  store_indices :
      ((count w + 1 ≡ w.size)
        × ((store w seq ack now).tail ≡ (w.tail + 1) % w.size)
        × (count (store w seq ack now) ≡ count w))
      ⊎ ((count w + 1 ≢ w.size)
          × ((store w seq ack now).tail ≡ w.tail)
          × (count (store w seq ack now) ≡ suc (count w)))
  unfolding store
  store_indices = ground (arith, mod_once w.size (w.head + 1), mod_once w.size (w.tail + 1))

remember_full :
    (size : ℕ) (es : List Entry) (e : Entry)
    → length es + 1 ≡ size
    → drop_oldest (es ++ e ∷ []) ≡ remember size es e
remember_full size es e h = ground arith

remember_room :
    (size : ℕ) (es : List Entry) (e : Entry)
    → length es + 1 ≢ size
    → es ++ e ∷ [] ≡ remember size es e
remember_room size es e h = ground arith

-- On a valid window, `store` appends the ACK to the history that the window holds; where the
-- history would fill the array, its oldest entry makes room.
pub contents-store :
    (w : AckWindow) (seq ack : ℤ) (now : ℕ)
    → IsValid w
    → contents (store w seq ack now)
      ≡ remember w.size (contents w) (record { seq = seq; ack = ack; stamp = now })
unfolding store
contents-store w seq ack now v = elim (store_indices w seq ack now v) [
  | inl (full, t, c) ↦
      ap₂ (slots (store w seq ack now)) t c
      ∙ slots_round (store w seq ack now) (w.tail + 1) (count w) (omega arith)
      ∙ ap drop_oldest (slots-store_all w seq ack now v)
      ∙ remember_full w.size (contents w) _ (omega (arith, length-slots w w.tail (count w)))
  | inr (room, t, c) ↦
      ap₂ (slots (store w seq ack now)) t c
      ∙ slots-store_all w seq ack now v
      ∙ remember_room w.size (contents w) _ (omega (arith, length-slots w w.tail (count w)))
]

-- A new window is valid and holds nothing, if its size is not zero.
pub create-IsValid :
    (seqs acks : ℕ → ℤ) (stamps : ℕ → ℕ) (size : ℕ)
    → 0 < size
    → IsValid (create seqs acks stamps size) × (contents (create seqs acks stamps size) ≡ [])
unfolding create
create-IsValid seqs acks stamps size h = (omega arith, ground arith)
