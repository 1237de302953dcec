-- ===== src/Common/Wrap.antt =====
-- Indices that go round once at the size of an array.
use Prim.Native.Nat.{ℕ, ◌+◌, ◌-◌, ◌%◌, ◌<◌}
use mathlib.Core.Path.{◌≡◌}
use native.Mathlib.Nat.{mod-eq_of_lt, mod-eq-sub-mod}
use native.Mathlib.Decide.{dec_lt}
use native.Mathlib.Omega.{arith}
use uvudt.Common.Tests.{ltb, if◌then◌else◌}

pub mod_once : (n j : ℕ) → j < n + n → j % n ≡ (if ltb j n then j else j - n)
mod_once n j h = elim (dec_lt j n) [
  | yes p ↦ ground (arith, mod-eq_of_lt p)
  | no p ↦ ground (
    arith,
    mod-eq-sub-mod {n = j} {m = n} (omega arith),
    mod-eq_of_lt {n = j - n} {m = n} (omega arith),
  )
]
