-- ===== src/Common/Decimal.antt =====
-- Decimal numerals as `printf` writes them: `%d` of an `int`, `%llu`, and `%02lu`.
use Prim.Native.Nat.{ℕ, zero, suc, ◌+◌, ◌-◌, ◌*◌, ◌/◌, ◌%◌, ◌^◌, ◌≤◌, ◌<◌}
use mathlib.Core.Path.{◌≡◌, refl}
use mathlib.Core.Logic.{inl, inr}
use mathlib.Core.List.{[], ◌∷◌, ◌++◌}
use native.Mathlib.Omega.{arith}
use oclock.Common.Tests.{ltb, if◌then◌else◌, Bool-cases, ltb→lt, ltb→le}
use oclock.Common.Lists.{All}
use oclock.Common.Int.{ℤ, pos, negsuc}
use oclock.Common.Str.{Str}

-- The digits of a number below 10 ^ fuel; a number is below that of its successor.
unfoldable pub digits_of : ℕ → ℕ → Str
digits_of zero n = []
digits_of (suc f) n =
    let higher = digits_of f (n / 10) in
    if ltb n 10 then (48 + n) ∷ [] else higher ++ ((48 + n % 10) ∷ [])

unfoldable pub decimal : ℕ → Str
unfolding digits_of
decimal n = digits_of (suc n) n

unfoldable pub decimal_ℤ : ℤ → Str
unfolding decimal
decimal_ℤ (pos n) = decimal n
decimal_ℤ (negsuc n) = 45 ∷ decimal (suc n)

-- Two places, filled with a zero.
unfoldable pub decimal_02 : ℕ → Str
unfolding decimal
decimal_02 n = if ltb n 10 then 48 ∷ decimal n else decimal n

-- The conversion of an unsigned number of 32 bits to `int`.
unfoldable pub cast_int : ℕ → ℤ
cast_int n =
    if ltb (n % 2 ^ 32) (2 ^ 31) then pos (n % 2 ^ 32) else negsuc (2 ^ 32 - 1 - n % 2 ^ 32)

abbrev pub IsDigit : ℕ → Type 0
IsDigit c = (48 ≤ c) × (c ≤ 57)

All-snoc : (xs : Str) (x : ℕ) → All IsDigit xs → IsDigit x → All IsDigit (xs ++ (x ∷ []))
All-snoc [] x a h = (h, tt)
All-snoc (y ∷ xs) x a h = (a.0, All-snoc xs x a.1 h)

pub digits_of-IsDigit : (f n : ℕ) → All IsDigit (digits_of f n)
unfolding digits_of
digits_of-IsDigit zero n = tt
digits_of-IsDigit (suc f) n = elim (Bool-cases (ltb n 10)) [
  | inl e ↦ rw e (omega (arith, ltb→lt n 10 e), tt)
  | inr e ↦
      rw e
        (All-snoc (digits_of f (n / 10)) (48 + n % 10) (digits_of-IsDigit f (n / 10)) (omega arith))
]

-- The value of digits after a number.
abbrev pub value_from : ℕ → Str → ℕ
value_from w [] = w
value_from w (c ∷ cs) = value_from (w * 10 + (c - 48)) cs

value_from-snoc :
    (w : ℕ) (xs : Str) (x : ℕ) → value_from w (xs ++ (x ∷ [])) ≡ value_from w xs * 10 + (x - 48)
value_from-snoc w [] x = refl
value_from-snoc w (c ∷ xs) x = value_from-snoc (w * 10 + (c - 48)) xs x

pub value-digits_of : (f n : ℕ) → n < f → value_from 0 (digits_of f n) ≡ n
unfolding digits_of
value-digits_of zero n h = absurd (omega arith)
value-digits_of (suc f) n h = elim (Bool-cases (ltb n 10)) [
  | inl e ↦ rw e (omega arith)
  | inr e ↦ rw e (
      omega (
        arith,
        value_from-snoc 0 (digits_of f (n / 10)) (48 + n % 10),
        value-digits_of f (n / 10) (omega (arith, ltb→le n 10 e)),
      ))
]

-- A numeral is not empty.
pub decimal-head : (n : ℕ) → (c : ℕ) × (cs : Str) × (decimal n ≡ c ∷ cs)
unfolding decimal digits_of
decimal-head n = elim (Bool-cases (ltb n 10)) [
  | inl e ↦ rw e (48 + n, [], refl)
  | inr e ↦ rw e (snoc (digits_of n (n / 10)) (48 + n % 10))
]
  where
    snoc : (xs : Str) (x : ℕ) → (c : ℕ) × (cs : Str) × (xs ++ (x ∷ []) ≡ c ∷ cs)
    snoc [] x = (x, [], refl)
    snoc (y ∷ xs) x = (y, xs ++ (x ∷ []), refl)
