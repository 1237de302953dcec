-- ===== src/Hash/Tests.antt =====
-- A table with two connections in one bucket.
use uvudt.Common.{ℕ, some, ◌≡◌, refl, false, ◌==◌, if◌then◌else◌, []}
use uvudt.Hash.{Hash, insert, remove, lookup, find_in, unlink}
use uvudt.Hash.Lookup.{lookup-insert-remove}

abbrev table : Hash ℕ
table = record { bucket = λ i. []; hash_size = 4 }

two_in_one : lookup (remove (insert (insert table 5 50) 9 90) 9) 5 ≡ some 50
unfolding lookup remove insert find_in unlink
two_in_one = refl

lookup-insert-remove_example :
    (lookup (insert table 5 50) 9 ≡ (if 9 == 5 then some 50 else lookup table 9))
    × (lookup (remove (insert table 5 50) 5) 9 ≡ lookup table 9)
    × ((9 == 5) ≡ false → lookup (remove table 5) 9 ≡ lookup table 9)
lookup-insert-remove_example = lookup-insert-remove table 5 50 9
