-- ===== src/Hash.antt =====
-- CHash of UDT4/src/queue.h and UDT4/src/queue.cpp: the connections of a port by socket number, in
-- buckets that are linked lists. A socket number is not negative.
pub mod Lookup
mod Tests
use uvudt.Common.{
  ℕ, ◌%◌, Bool, true, false, Option, none, some, List, [], ◌∷◌, ◌==◌, if◌then◌else◌, write,
}

pub record Hash {ℓ} (A : Type ℓ) : Type ℓ where
  pub bucket : ℕ → List (ℕ × A)
  pub hash_size : ℕ

module _ {ℓ} {A : Type ℓ} where
  pub init : ℕ → Hash A
  init size = record { bucket = λ i. []; hash_size = size }

  pub find_in : ℕ → List (ℕ × A) → Option A
  find_in id [] = none
  find_in id ((key, u) ∷ rest) = if id == key then some u else find_in id rest

  pub lookup : Hash A → ℕ → Option A
  unfolding find_in
  lookup h id = find_in id (h.bucket (id % h.hash_size))

  -- A new bucket comes first, also for a number that is there.
  pub insert : Hash A → ℕ → A → Hash A
  insert h id u =
      let i = id % h.hash_size in record h { bucket = write h.bucket i ((id, u) ∷ h.bucket i) }

  pub unlink : ℕ → List (ℕ × A) → List (ℕ × A)
  unlink id [] = []
  unlink id ((key, u) ∷ rest) = if id == key then rest else (key, u) ∷ unlink id rest

  -- The first bucket of the number goes.
  pub remove : Hash A → ℕ → Hash A
  unfolding unlink
  remove h id =
      let i = id % h.hash_size in record h { bucket = write h.bucket i (unlink id (h.bucket i)) }
