-- ===== src/LedStrip/Wheel.antt =====
-- The colors of the wheel.
use oclock.Common.{ℕ, ◌+◌, ◌*◌, ◌<◌, ◌≡◌, refl, arith}
use oclock.Lpd8806.{color}
use oclock.LedStrip.{wheel, wheel_parts}

-- A position on the wheel of 384 has components whose sum is always 127, one of them off.
pub wheel_lem :
    (p : ℕ)
    → p < 384
    → (r : ℕ) × (g : ℕ) × (b : ℕ) × (wheel p ≡ color r g b) × (r + g + b ≡ 127) × (r * g * b ≡ 0)
unfolding wheel
wheel_lem p h = ((wheel_parts p).0, (wheel_parts p).1, (wheel_parts p).2, refl, sums p h, off p h)
  where
    sums : (p : ℕ) → p < 384 → (wheel_parts p).0 + (wheel_parts p).1 + (wheel_parts p).2 ≡ 127
    sums p h = unfold wheel_parts in ground arith

    off : (p : ℕ) → p < 384 → (wheel_parts p).0 * (wheel_parts p).1 * (wheel_parts p).2 ≡ 0
    off p h = unfold wheel_parts in ground arith
