-- ===== src/RcvLossList/Reports.antt =====
-- `find` and `getLossArray` of CRcvLossList.
use uvudt.Common.{
  ℕ, zero, suc, ◌+◌, ◌-◌, ◌%◌, ◌^◌, ◌≤◌, ◌<◌, Bool, ◌&&◌, ◌||◌, leb, ltb, ◌==◌, ◌⊎◌, false, some,
  List, [], ◌∷◌, ◌≡◌, refl, arith, if◌then◌else◌, length, Bool-cases, inl, inr,
}
use uvudt.Common.Int.{ℤ, pos, pos_part, ◌-ℤ◌, ◌==ℤ◌, ltb_ℤ, leb_ℤ, minus_one}
use uvudt.Seqno.{seqcmp, seqno_th, max_seqno}
use uvudt.RcvLossList.Chain.{Linked, any}
use uvudt.RcvLossList.{RcvLossList, find, find_from, touches, mark, loss_words, get_loss_array}

find_from-any :
    (fuel : ℕ) (l : RcvLossList) (s t : ℤ) (p : ℤ) (ps : List ℤ)
    → Linked l.next p ps
    → suc (length ps) ≤ fuel
    → find_from fuel l s t p ≡ some (any (touches l s t) ps)
unfolding find_from
find_from-any zero l s t p [] link enough = absurd (omega arith)
find_from-any zero l s t p (q ∷ ps) link enough = absurd (omega arith)
find_from-any (suc fuel) l s t p [] link enough = rw link refl
find_from-any (suc fuel) l s t p (q ∷ ps) link enough =
    let rest = find_from-any fuel l s t (l.next p) ps link.2 (omega arith) in
    rw (rest, link.1, link.0) (ground arith)

-- The number that is `i` after `base`.
abbrev pub number : ℕ → ℕ → ℤ
number base i = pos ((base + i) % 2 ^ 30)

-- A comparison with the sign that the distances from the start of the window have.
abbrev pub SameOrder : ℤ → ℕ → ℕ → Type 0
SameOrder z i j =
    ((z ==ℤ pos 0) ≡ (i == j))
    × (ltb_ℤ (pos 0) z ≡ ltb j i)
    × (leb_ℤ z (pos 0) ≡ leb i j)
    × (ltb_ℤ z (pos 0) ≡ ltb i j)
    × (leb_ℤ (pos 0) z ≡ leb j i)

cmp_ends :
    (a b i j : ℕ)
    → a ≤ max_seqno
    → b ≤ max_seqno
    → i < seqno_th
    → j < seqno_th
    → (a + j ≡ b + i) ⊎ ((a + j + 2 ^ 30 ≡ b + i) ⊎ (a + j ≡ b + i + 2 ^ 30))
    → SameOrder (seqcmp (pos a) (pos b)) i j
unfolding seqcmp
cmp_ends a b i j ha hb hi hj (inl e) =
    (ground arith, ground arith, ground arith, ground arith, ground arith)
cmp_ends a b i j ha hb hi hj (inr (inl e)) =
    (ground arith, ground arith, ground arith, ground arith, ground arith)
cmp_ends a b i j ha hb hi hj (inr (inr e)) =
    (ground arith, ground arith, ground arith, ground arith, ground arith)

-- Numbers within the window compare as their distances from its start do.
cmp_number :
    (base i j : ℕ)
    → i < seqno_th
    → j < seqno_th
    → SameOrder (seqcmp (number base i) (number base j)) i j
cmp_number base i j hi hj =
    cmp_ends ((base + i) % 2 ^ 30) ((base + j) % 2 ^ 30) i j (omega arith) (omega arith) hi hj
      (omega arith)

-- The node at `p` holds the numbers from `lo` to `hi` after `base`.
abbrev pub Spans : RcvLossList → ℕ → ℤ → ℕ × ℕ → Type 0
Spans l base p (lo, hi) =
    (hi < seqno_th)
    × (l.data1 p ≡ number base lo)
    × (((l.data2 p ≡ minus_one) × (lo ≡ hi)) ⊎ ((l.data2 p ≡ number base hi) × (lo ≤ hi)))

abbrev pub AllSpan : RcvLossList → ℕ → List ℤ → List (ℕ × ℕ) → Type 0
AllSpan l base [] [] = Unit
AllSpan l base [] (r ∷ rs) = ⊥
AllSpan l base (p ∷ ps) [] = ⊥
AllSpan l base (p ∷ ps) (r ∷ rs) = Spans l base p r × AllSpan l base ps rs

-- Whether one of the ranges has a number from `s` to `t`.
abbrev pub meets : ℕ → ℕ → List (ℕ × ℕ) → Bool
meets s t [] = false
meets s t ((lo, hi) ∷ rs) = (leb lo t && leb s hi) || meets s t rs

overlap_single :
    (lo s t : ℕ) → s ≤ t → ((lo == s) || (ltb s lo && leb lo t)) ≡ (leb lo t && leb s lo)
overlap_single lo s t order = ground arith

overlap_range :
    (lo hi s t : ℕ)
    → s ≤ t
    → lo ≤ hi
    → ((lo == s) || (ltb s lo && leb lo t) || (ltb lo s && leb s hi)) ≡ (leb lo t && leb s hi)
overlap_range lo hi s t order range = ground arith

is_number : (base i : ℕ) → (number base i ==ℤ minus_one) ≡ false
is_number base i = ground arith

touches-meets :
    (l : RcvLossList) (base s t : ℕ) (p : ℤ) (lo hi : ℕ)
    → s ≤ t
    → t < seqno_th
    → Spans l base p (lo, hi)
    → touches l (number base s) (number base t) p ≡ (leb lo t && leb s hi)
unfolding touches
touches-meets l base s t p lo hi order near (low, first, inl (single, same)) =
    let from = cmp_number base lo s (omega (arith, low, same)) (omega (arith, order, near)) in
    let to = cmp_number base lo t (omega (arith, low, same)) near in
    rw (first, single, touches)
      (rw (from.0, from.1, to.2) (ground (arith, overlap_single lo s t order, same)))
touches-meets l base s t p lo hi order near (low, first, inr (second, range)) =
    let from = cmp_number base lo s (omega (arith, low, range)) (omega (arith, order, near)) in
    let to = cmp_number base lo t (omega (arith, low, range)) near in
    let end_from = cmp_number base hi s low (omega (arith, order, near)) in
    rw (first, second, touches)
      (rw (is_number base hi, from.0, from.1, from.3, to.2, end_from.4)
        (ground (arith, overlap_range lo hi s t order range)))

any-meets :
    (l : RcvLossList) (base s t : ℕ) (ps : List ℤ) (rs : List (ℕ × ℕ))
    → s ≤ t
    → t < seqno_th
    → AllSpan l base ps rs
    → any (touches l (number base s) (number base t)) ps ≡ meets s t rs
any-meets l base s t [] [] order near spans = refl
any-meets l base s t [] (r ∷ rs) order near spans = elim spans [ ]
any-meets l base s t (p ∷ ps) [] order near spans = elim spans [ ]
any-meets l base s t (p ∷ ps) ((lo, hi) ∷ rs) order near (span, spans) =
    let first = touches-meets l base s t p lo hi order near span in
    let rest = any-meets l base s t ps rs order near spans in ground (arith, first, rest)

-- `find` on a list whose links end after at most as many nodes as the arrays have room for, and whose
-- nodes hold the ranges `rs` of numbers, counted from `base` and within half of the circle: for the
-- numbers from `s` to `t` after `base`, the loop ends, and the answer is whether one of the ranges has
-- one of these numbers.
pub find-meets :
    (l : RcvLossList) (base s t : ℕ) (ps : List ℤ) (rs : List (ℕ × ℕ))
    → Linked l.next l.head ps
    → length ps ≤ l.size
    → (l.length ==ℤ pos 0) ≡ false
    → AllSpan l base ps rs
    → s ≤ t
    → t < seqno_th
    → find l (number base s) (number base t) ≡ some (meets s t rs)
unfolding find
find-meets l base s t ps rs link few some_loss spans order near =
    let walk =
      find_from-any (suc l.size) l (number base s) (number base t) l.head ps link (omega arith) in
    let found = any-meets l base s t ps rs order near spans in
    ground (arith, walk, some_loss, found)

-- The words for the nodes: one number, or the two ends of a range, the first one marked.
abbrev pub words : RcvLossList → List ℤ → List ℤ
words l [] = []
words l (p ∷ ps) =
    if l.data2 p ==ℤ minus_one
    then l.data1 p ∷ words l ps
    else mark (l.data1 p) ∷ l.data2 p ∷ words l ps

loss_words-length : (room : ℕ) (l : RcvLossList) (i : ℤ) → length (loss_words room l i) ≤ suc room
unfolding loss_words
loss_words-length zero l i = omega arith
loss_words-length (suc zero) l i = ground arith
loss_words-length (suc (suc room)) l i =
    ground (arith, loss_words-length (suc room) l (l.next i), loss_words-length room l (l.next i))

loss_words-all :
    (room : ℕ) (l : RcvLossList) (p : ℤ) (ps : List ℤ)
    → Linked l.next p ps
    → length (words l ps) ≤ room
    → loss_words room l p ≡ words l ps
unfolding loss_words
loss_words-all zero l p [] link fits = refl
loss_words-all zero l p (q ∷ ps) link fits = absurd (ground arith)
loss_words-all (suc zero) l p [] link fits = rw link refl
loss_words-all (suc zero) l p (q ∷ []) link fits = ground (arith, link.1, link.0)
loss_words-all (suc zero) l p (q ∷ r ∷ ps) link fits = absurd (ground arith)
loss_words-all (suc (suc room)) l p [] link fits = rw link refl
loss_words-all (suc (suc room)) l p (q ∷ ps) link fits =
    elim (Bool-cases (l.data2 p ==ℤ minus_one)) [
      | inl single ↦
          let rest = loss_words-all (suc room) l (l.next p) ps link.2 (ground arith) in
          ground (arith, single, rest, link.1, link.0)
      | inr double ↦
          let rest = loss_words-all room l (l.next p) ps link.2 (ground arith) in
          ground (arith, double, rest, link.1, link.0)
    ]

room_of : (limit : ℕ) → 1 ≤ limit → pos_part (pos limit -ℤ pos 1) ≡ limit - 1
unfolding ◌-ℤ◌
room_of limit h = ground arith

-- `getLossArray` never writes past an array of at least one word, and an array with one word more
-- than the list needs receives every node of the list, in order.
pub get_loss_array_lem :
    (l : RcvLossList) (limit : ℕ) (ps : List ℤ)
    → Linked l.next l.head ps
    → 1 ≤ limit
    → (length (get_loss_array l (pos limit)) ≤ limit)
      × (length (words l ps) + 1 ≤ limit → get_loss_array l (pos limit) ≡ words l ps)
unfolding get_loss_array
get_loss_array_lem l limit ps link some_room =
    let room = room_of limit some_room in
    (
      rw room (omega (arith, loss_words-length (limit - 1) l l.head)),
      λ fits. rw room (loss_words-all (limit - 1) l l.head ps link (omega arith)),
    )
