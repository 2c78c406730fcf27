-- ===== src/Base/Loops.antt =====
-- A table that is checked by evaluation: a test that passes on each number below a bound.
use Prim.Native.Nat.{ℕ, zero, suc, ◌<◌}
use mathlib.Core.Path.{◌≡◌}
use mathlib.Core.Bool.{Bool, true, ◌&&◌}
use native.Mathlib.Omega.{arith}

module _ (test : ℕ → Bool) where
  unfoldable pub passes : ℕ → Bool
  passes zero = true
  passes (suc bound) = passes bound && test bound

  pub passes-at : (bound : ℕ) {k : ℕ} → k < bound → passes bound ≡ true → test k ≡ true
  unfolding passes
  passes-at zero lt all = absurd (omega arith)
  passes-at (suc bound) {k} lt all =
      let below = passes-at bound {k = k} in ground (arith, all, lt, below)
