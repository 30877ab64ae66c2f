-- ===== src/Common/Steps.antt =====
-- `do` blocks of steps that only read: `none` is a fault or a loop that has used up its fuel.
use mathlib.Core.Option.{Option}
use freebsd_radix_userland.Common.Tests.{and_then}

infixl 5 ◌>>=◌
abbrev pub ◌>>=◌ {ℓ κ} : {A : Type ℓ} {B : Type κ} → Option A → (A → Option B) → Option B
m >>= f = and_then m f
