-- ===== src/Prelude/Tables.antt =====
-- Checks of every value below a bound, by evaluation.
use Prim.Native.Nat.{ℕ, zero, suc, ◌<◌}
use mathlib.Core.Path.{◌≡◌}
use mathlib.Core.Bool.{Bool, true, ◌&&◌}
use native.Mathlib.Omega.{arith}

unfoldable pub table : (ℕ → Bool) → ℕ → Bool
table test zero = true
table test (suc size) = let smaller = table test size in smaller && test size

pub table_sound :
    (test : ℕ → Bool) (size entry : ℕ) → entry < size → table test size ≡ true → test entry ≡ true
unfolding table
table_sound test zero entry h checked = absurd (omega arith)
table_sound test (suc size) entry h checked = ground (arith, table_sound test size entry)
