-- ===== src/Pricing/Rounding.antt =====
-- The one place where packages/core/src/pricing.ts leaves whole numbers: `Math.round((n * bp) /
-- 10000)`, computed in doubles. Every other product and sum is of whole numbers and is tested by
-- `assertSafe` at once, and a double that passes that test is the exact result.
use booking_lumin_checkout.Base.{ℕ, ◌≡◌, refl, Option, some}
use booking_lumin_checkout.Base.Int.{ℤ, pos, ◌+ℤ◌, ◌*ℤ◌, IsSafe, floor_div}

-- n * bp / 10000 to the nearest whole number, a tie going up.
unfoldable pub round_bp : ℤ → ℕ → ℤ
round_bp n bp = floor_div (n *ℤ pos bp +ℤ pos 5000) 10_000

-- `scale n bp` is `none` where the double is infinite or not a number. Below 2^53 a double holds
-- the product exactly, and its quotient by 10000 lies on the right side of each half.
pub record Doubles : Type 0 where
  pub scale : ℤ → ℕ → Option ℤ
  pub scale_exact : (n : ℤ) (bp : ℕ) → IsSafe (n *ℤ pos bp) → scale n bp ≡ some (round_bp n bp)

-- Exact arithmetic meets the assumption.
abbrev pub exact : Doubles
exact = record { scale = λ n bp. some (round_bp n bp); scale_exact = λ n bp h. refl }
