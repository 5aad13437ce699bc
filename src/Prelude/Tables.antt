-- ===== src/Prelude/Tables.antt =====
-- A statement about every index of a table, by evaluation.
use Prim.Native.Nat.{ℕ, zero, suc, ◌<◌}
use mathlib.Core.Bool.{Bool, true, false}
use mathlib.Core.Path.{◌≡◌}
use native.Mathlib.Omega.{arith}
use quicsy.Prelude.Tests.{if◌then◌else◌}

-- Whether `test` holds at each index of a table of `size` entries.
unfoldable pub holds_on_table : (test : ℕ → Bool) (size : ℕ) → Bool
holds_on_table test zero = true
holds_on_table test (suc last) =
    let others = holds_on_table test last in if test last then others else false

pub holds_on_table_at :
    (test : ℕ → Bool) (size i : ℕ) → i < size → holds_on_table test size ≡ true → test i ≡ true
unfolding holds_on_table
holds_on_table_at test zero i below all = absurd (omega arith)
holds_on_table_at test (suc last) i below all = ground (arith, holds_on_table_at test last i)
