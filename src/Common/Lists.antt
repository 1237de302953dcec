-- ===== src/Common/Lists.antt =====
-- Lists measured and indexed by native numbers, under the library's names.
use Prim.Native.Nat.{ℕ, suc, ◌+◌, ◌-◌, ◌≤◌}
use mathlib.Core.Bool.{false}
use mathlib.Core.Logic.{inl, inr}
use uvudt.Common.Tests.{◌==◌, if◌then◌else◌, Bool-cases}
use mathlib.Core.Path.{◌≡◌, refl, ap, ◌∙◌}
use mathlib.Core.List.{List, [], ◌∷◌, ◌++◌}
use native.Mathlib.Omega.{arith}

module _ {ℓ} {A : Type ℓ} where
  abbrev pub length : List A → ℕ
  length [] = 0
  length (x ∷ xs) = suc (length xs)

  pub length-append : (xs ys : List A) → length (xs ++ ys) ≡ length xs + length ys
  length-append [] ys = omega arith
  length-append (x ∷ xs) ys = omega (arith, length-append xs ys)

  abbrev pub take : ℕ → List A → List A
  take n [] = []
  take n (x ∷ xs) = if n == 0 then [] else x ∷ take (n - 1) xs

  abbrev pub drop : ℕ → List A → List A
  drop n [] = []
  drop n (x ∷ xs) = if n == 0 then x ∷ xs else drop (n - 1) xs

  pub take-0 : (xs : List A) → take 0 xs ≡ []
  take-0 [] = refl
  take-0 (x ∷ xs) = refl

  pub drop-0 : (xs : List A) → drop 0 xs ≡ xs
  drop-0 [] = refl
  drop-0 (x ∷ xs) = refl

  -- The first elements of `xs ++ ys` end within `xs`.
  pub take-append_short : (n : ℕ) (xs ys : List A) → n ≤ length xs → take n (xs ++ ys) ≡ take n xs
  take-append_short n [] ys h = rw n_is_0 (take-0 ys)
    where
      n_is_0 : n ≡ 0
      n_is_0 = omega arith
  take-append_short n (x ∷ xs) ys h = elim (Bool-cases (n == 0)) [
    | inl none_left ↦ rw none_left refl
    | inr more ↦ rw more (ap (λ zs. x ∷ zs) (take-append_short (n - 1) xs ys (ground arith)))
  ]

  pub drop-append_short :
      (n : ℕ) (xs ys : List A) → n ≤ length xs → drop n (xs ++ ys) ≡ drop n xs ++ ys
  drop-append_short n [] ys h = rw n_is_0 (drop-0 ys)
    where
      n_is_0 : n ≡ 0
      n_is_0 = omega arith
  drop-append_short n (x ∷ xs) ys h = elim (Bool-cases (n == 0)) [
    | inl none_left ↦ rw none_left refl
    | inr more ↦ rw more (drop-append_short (n - 1) xs ys (ground arith))
  ]

  pub take-append_long :
      (n : ℕ) (xs ys : List A) → length xs ≤ n → take n (xs ++ ys) ≡ xs ++ take (n - length xs) ys
  take-append_long n [] ys h = let same : n ≡ n - 0 = omega arith in ap (λ k. take k ys) same
  take-append_long n (x ∷ xs) ys h =
      let more : (n == 0) ≡ false = ground arith in
      let less : n - 1 - length xs ≡ n - suc (length xs) = omega arith in
      rw more (
        ap (λ zs. x ∷ zs)
          (take-append_long (n - 1) xs ys (omega arith) ∙ ap (λ k. xs ++ take k ys) less))

  pub drop-append_long :
      (n : ℕ) (xs ys : List A) → length xs ≤ n → drop n (xs ++ ys) ≡ drop (n - length xs) ys
  drop-append_long n [] ys h = let same : n ≡ n - 0 = omega arith in ap (λ k. drop k ys) same
  drop-append_long n (x ∷ xs) ys h =
      let more : (n == 0) ≡ false = ground arith in
      let less : n - 1 - length xs ≡ n - suc (length xs) = omega arith in
      rw more (drop-append_long (n - 1) xs ys (omega arith) ∙ ap (λ k. drop k ys) less)

  pub drop-drop : (n m : ℕ) (xs : List A) → drop n (drop m xs) ≡ drop (m + n) xs
  drop-drop n m [] = refl
  drop-drop n m (x ∷ xs) = elim (Bool-cases (m == 0)) [
    | inl none_left ↦
        let kept : drop m (x ∷ xs) ≡ x ∷ xs = rw none_left refl in
        let same : n ≡ m + n = ground arith in ap (drop n) kept ∙ ap (λ k. drop k (x ∷ xs)) same
    | inr more ↦
        let some_more : ((m + n) == 0) ≡ false = ground arith in
        let less : m - 1 + n ≡ m + n - 1 = ground arith in
        rw (more, some_more) (drop-drop n (m - 1) xs ∙ ap (λ k. drop k xs) less)
  ]

  pub length-drop : (n : ℕ) (xs : List A) → length (drop n xs) ≡ length xs - n
  length-drop n [] = omega arith
  length-drop n (x ∷ xs) = elim (Bool-cases (n == 0)) [
    | inl none_left ↦ rw none_left (ground arith)
    | inr more ↦ rw more (ground (arith, length-drop (n - 1) xs))
  ]

  pub take_all : (n : ℕ) (xs : List A) → length xs ≤ n → take n xs ≡ xs
  take_all n [] h = refl
  take_all n (x ∷ xs) h =
      let more : (n == 0) ≡ false = ground arith in
      rw more (ap (λ zs. x ∷ zs) (take_all (n - 1) xs (omega arith)))

  pub append_nil : (xs : List A) → xs ++ [] ≡ xs
  append_nil [] = refl
  append_nil (x ∷ xs) = ap (λ zs. x ∷ zs) (append_nil xs)

abbrev pub All {ℓ κ} : {A : Type ℓ} → (A → Type κ) → List A → Type κ
All P [] = Unit
All P (x ∷ xs) = P x × All P xs

module _ {ℓ κ} {A : Type ℓ} (P : A → Type κ) where
  pub All-append : (xs ys : List A) → All P xs → All P ys → All P (xs ++ ys)
  All-append [] ys hx hy = hy
  All-append (x ∷ xs) ys hx hy = (hx.0, All-append xs ys hx.1 hy)

  pub All-split : (xs ys : List A) → All P (xs ++ ys) → All P xs × All P ys
  All-split [] ys h = (tt, h)
  All-split (x ∷ xs) ys h = let (hx, hy) = All-split xs ys h.1 in ((h.0, hx), hy)

  pub All-imp {μ} : (Q : A → Type μ) → ((x : A) → P x → Q x) → (xs : List A) → All P xs → All Q xs
  All-imp Q imp [] h = tt
  All-imp Q imp (x ∷ xs) h = (imp x h.0, All-imp Q imp xs h.1)

module _ {ℓ} {A : Type ℓ} where
  -- The lists put together, each with its own length in the account.
  pub append_assoc : (xs ys zs : List A) → xs ++ ys ++ zs ≡ xs ++ (ys ++ zs)
  append_assoc [] ys zs = refl
  append_assoc (x ∷ xs) ys zs = ap (λ l. x ∷ l) (append_assoc xs ys zs)

module _ {ℓ} {A : Type ℓ} where
  pub drop_all : (n : ℕ) (xs : List A) → length xs ≤ n → drop n xs ≡ []
  drop_all n [] h = refl
  drop_all n (x ∷ xs) h =
      let more : (n == 0) ≡ false = ground arith in rw more (drop_all (n - 1) xs (omega arith))

  pub take-drop : (n : ℕ) (xs : List A) → take n xs ++ drop n xs ≡ xs
  take-drop n [] = refl
  take-drop n (x ∷ xs) = elim (Bool-cases (n == 0)) [
    | inl none_left ↦ rw none_left refl
    | inr more ↦ rw more (ap (λ zs. x ∷ zs) (take-drop (n - 1) xs))
  ]
