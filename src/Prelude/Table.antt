-- ===== src/Prelude/Table.antt =====
-- A test run on every number under a bound, for facts that evaluation settles.
use Prim.Native.Nat.{ℕ, zero, suc, ◌<◌}
use mathlib.Core.Path.{◌≡◌}
use mathlib.Core.Bool.{Bool, true, false}
use native.Mathlib.Omega.{arith}
use epoller.Prelude.Tests.{if◌then◌else◌}

unfoldable pub passes_under : (ℕ → Bool) → ℕ → Bool
passes_under test zero = true
passes_under test (suc bound) = if test bound then passes_under test bound else false

pub passes_under_lem :
    (test : ℕ → Bool) (bound value : ℕ)
    → value < bound
    → passes_under test bound ≡ true
    → test value ≡ true
unfolding passes_under
passes_under_lem test zero value small passed = absurd (omega arith)
passes_under_lem test (suc bound) value small passed =
    ground (arith, passes_under_lem test bound value)
