-- ===== src/Common/Bytes.antt =====
-- Facts about the bits of a byte, checked over all its values.
use Prim.Native.Nat.{ℕ, zero, suc, ◌<◌}
use mathlib.Core.Path.{◌≡◌}
use mathlib.Core.Bool.{Bool, true, ◌&&◌}
use native.Mathlib.Omega.{arith}

-- The test is passed by each number below the bound.
unfoldable pub every_below : (bound : ℕ) → (ℕ → Bool) → Bool
every_below zero test = true
every_below (suc bound) test = every_below bound test && test bound

pub every_below-at :
    (bound : ℕ) (test : ℕ → Bool) (i : ℕ)
    → every_below bound test ≡ true
    → i < bound
    → test i ≡ true
unfolding every_below
every_below-at zero test i passed inside = absurd (omega arith)
every_below-at (suc bound) test i passed inside =
    let earlier = every_below-at bound test i in ground (arith, earlier, passed)
