-- ===== src/LightSensor/Average.antt =====
-- The value that the sensor reports.
use oclock.Common.{
  ℕ, suc, ◌+◌, ◌*◌, ◌/◌, ◌≤◌, ◌<◌, ◌≡◌, ◌≢◌, refl, ◌∙◌, List, [], ◌∷◌, arith, length, All, false,
  ◌==◌,
}
use native.Mathlib.Nat.{zero-add}
use oclock.LightSensor.{LightSensor, get_light_value, sum_values}

total : List ℕ → ℕ
total [] = 0
total (x ∷ xs) = x + total xs

sum_values-total : (n t : ℕ) (xs : List ℕ) → sum_values n t xs ≡ (n + length xs, t + total xs)
unfolding sum_values total
sum_values-total n t [] = ground arith
sum_values-total n t (x ∷ xs) = sum_values-total (n + 1) (t + x) xs ∙ ground arith

total_bounds :
    (lo hi : ℕ) (xs : List ℕ)
    → All (λ x. (lo ≤ x) × (x ≤ hi)) xs
    → (length xs * lo ≤ total xs) × (total xs ≤ length xs * hi)
unfolding total
total_bounds lo hi [] h = omega arith
total_bounds lo hi (x ∷ xs) h = let r = total_bounds lo hi xs h.1 in grind arith

div_bounds : (n t lo hi : ℕ) → 0 < n → n * lo ≤ t → t ≤ n * hi → (lo ≤ t / n) × (t / n ≤ hi)
div_bounds n t lo hi p h k = grind arith

suc-not-zero : (n : ℕ) → (suc n == 0) ≡ false
suc-not-zero n = ground arith

-- What is reported of at least one reading.
value-eq :
    (x : ℕ) (xs : List ℕ)
    → get_light_value (record { light_values = x ∷ xs }) ≡ total (x ∷ xs) / length (x ∷ xs)
unfolding get_light_value
value-eq x xs =
    rw
      (
        get_light_value,
        sum_values-total 0 0 (x ∷ xs),
        zero-add (total (x ∷ xs)),
        zero-add (length (x ∷ xs)),
        suc-not-zero (length xs),
      )
      refl

-- With readings in some range the reported value lies in that range, and no division by zero
-- happens; with none it is 0.
pub get_light_value_bounds :
    (s : LightSensor) (lo hi : ℕ)
    → All (λ x. (lo ≤ x) × (x ≤ hi)) s.light_values
    → (s.light_values ≢ [] → (lo ≤ get_light_value s) × (get_light_value s ≤ hi))
      × (s.light_values ≡ [] → get_light_value s ≡ 0)
unfolding get_light_value
get_light_value_bounds s lo hi h = bounds s.light_values h
  where
    bounds :
        (xs : List ℕ)
        → All (λ x. (lo ≤ x) × (x ≤ hi)) xs
        → let v = get_light_value (record { light_values = xs }) in
          (xs ≢ [] → (lo ≤ v) × (v ≤ hi)) × (xs ≡ [] → v ≡ 0)
    bounds [] h = (λ n. absurd (n refl), λ e. unfold sum_values in refl)
    bounds (x ∷ xs) h =
        let r = total_bounds lo hi (x ∷ xs) h in
        let q = div_bounds (length (x ∷ xs)) (total (x ∷ xs)) lo hi (omega arith) r.0 r.1 in
        (λ n. rw (value-eq x xs) q, λ e. cc)
