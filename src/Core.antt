-- ===== src/Core.antt =====
-- Helpers of priv/ui/js/core.js; here `clamp`, on natural numbers.
pub mod Store
pub mod Theme
mod Tests
use wiregrid.Base.{ℕ, ◌≤◌, min, max, arith}

unfoldable pub clamp : ℕ → ℕ → ℕ → ℕ
clamp value low high = max low (min high value)

pub clamp_bounds :
    (value low high : ℕ) → low ≤ high → (low ≤ clamp value low high) × (clamp value low high ≤ high)
unfolding clamp
clamp_bounds value low high h = ground arith
