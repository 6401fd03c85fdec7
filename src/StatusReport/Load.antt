-- ===== src/StatusReport/Load.antt =====
-- The load averages, read and written.
use oclock.Common.{
  ℕ, zero, suc, ◌+◌, ◌-◌, ◌*◌, ◌/◌, ◌%◌, ◌^◌, ◌≤◌, ◌<◌, ◌≡◌, refl, sym, subst, ap, ◌∙◌, [], ◌∷◌,
  ◌++◌, Bool, true, false, ◌&&◌, Bool-cases, inl, inr, ltb, ◌==◌, ltb→le, Option, none, some, arith,
  All,
}
use native.Mathlib.Nat.{pow-suc}
use oclock.Common.Str.{Str}
use oclock.Common.Bits.{all_below, below-all}
use oclock.Common.Decimal.{
  decimal, decimal_02, IsDigit, digits_of-IsDigit, value_from, value-digits_of, decimal-head,
}
use oclock.StatusReport.{
  append_load, parse_hundredths, parse_whole, parse_fraction, with_fraction, after_whole, is_digit,
  max_whole,
}

none_ne_some {ℓ} : {A : Type ℓ} {a : A} → ◌≡◌ {A = Option A} none (some a) → ⊥
none_ne_some e = cc

is_digit-IsDigit : (c : ℕ) → IsDigit c → is_digit c ≡ true
unfolding is_digit
is_digit-IsDigit c h = ground arith

is_digit-bound : (c : ℕ) → is_digit c ≡ true → c - 48 ≤ 9
unfolding is_digit
is_digit-bound c h = ground arith

value_from-le : (w : ℕ) (cs : Str) → w ≤ value_from w cs
value_from-le w [] = omega arith
value_from-le w (c ∷ cs) = omega (arith, value_from-le (w * 10 + (c - 48)) cs)

-- The loop reads digits as their value, if that is not too large, and stops before a dot.
parse_whole-digits :
    (w : ℕ) (ds cs : Str)
    → All IsDigit ds
    → value_from w ds ≤ max_whole
    → parse_whole w (ds ++ (46 ∷ cs)) ≡ some (value_from w ds, 46 ∷ cs)
unfolding parse_whole is_digit
parse_whole-digits w [] cs a h = refl
parse_whole-digits w (d ∷ ds) cs a h =
    rw (is_digit-IsDigit d a.0, parse_whole, small)
      (parse_whole-digits (w * 10 + (d - 48)) ds cs a.1 h)
  where
    small : ltb ((max_whole - (d - 48)) / 10) w ≡ false
    small = ground (arith, value_from-le (w * 10 + (d - 48)) ds, h, a.0)

abbrev is_empty : Str → Bool
is_empty [] = true
is_empty (c ∷ cs) = false

is_empty→eq : (s : Str) → is_empty s ≡ true → s ≡ []
is_empty→eq [] h = refl
is_empty→eq (c ∷ s) h = cc

-- Two places are read as two digits of the right value.
abbrev is_fraction : ℕ → Option (ℕ × ℕ × Str) → Bool
is_fraction f none = false
is_fraction f (some (digits, g, rest)) = (digits == 2) && ((g == f) && is_empty rest)

fractions : all_below 100 (λ f. is_fraction f (parse_fraction 0 0 (decimal_02 f))) ≡ true
unfolding parse_fraction decimal_02 is_digit
fractions = refl

is_fraction-with_fraction :
    (whole f : ℕ) (o : Option (ℕ × ℕ × Str))
    → is_fraction f o ≡ true
    → with_fraction whole o ≡ some (whole * 100 + f)
unfolding with_fraction
is_fraction-with_fraction whole f none h = cc
is_fraction-with_fraction whole f (some (digits, g, [])) h = ground arith
is_fraction-with_fraction whole f (some (digits, g, c ∷ cs)) h = ground arith

-- The two places behind the dot.
fraction_read :
    (whole f : ℕ)
    → f < 100
    → with_fraction whole (parse_fraction 0 0 (decimal_02 f)) ≡ some (whole * 100 + f)
fraction_read whole f h =
    is_fraction-with_fraction whole f (parse_fraction 0 0 (decimal_02 f))
      (below-all 100 (λ f. is_fraction f (parse_fraction 0 0 (decimal_02 f))) fractions f h)

starts_with_digit :
    (s : Str) (c : ℕ) (cs : Str)
    → s ≡ c ∷ cs
    → is_digit c ≡ true
    → parse_hundredths s ≡ after_whole (parse_whole 0 s)
unfolding parse_hundredths
starts_with_digit s c cs e h = rw e (rw h refl)

after_whole_read :
    (w f : ℕ) → f < 100 → after_whole (some (w, 46 ∷ decimal_02 f)) ≡ some (w * 100 + f)
unfolding after_whole
after_whole_read w f h = fraction_read w f h

-- A load that is written is read back, up to the largest that the reader takes, which is
-- 42949671.99.
pub parse_hundredths-append_load :
    (h : ℕ) → h < (max_whole + 1) * 100 → parse_hundredths (append_load h) ≡ some h
unfolding append_load after_whole decimal
parse_hundredths-append_load h l =
    let (c, cs, e) = decimal-head (h / 100) in
    let digits = digits_of-IsDigit (suc (h / 100)) (h / 100) in
    let first = subst (All IsDigit) e digits in
    let value = value-digits_of (suc (h / 100)) (h / 100) (omega arith) in
    starts_with_digit (append_load h) c (cs ++ (46 ∷ decimal_02 (h % 100)))
      (ap (λ (s : Str). s ++ (46 ∷ decimal_02 (h % 100))) e) (is_digit-IsDigit c first.0)
    ∙ ap after_whole (
        parse_whole-digits 0 (decimal (h / 100)) (decimal_02 (h % 100)) digits
          (omega (arith, value)))
    ∙ after_whole_read (value_from 0 (decimal (h / 100))) (h % 100) (omega arith)
    ∙ ap some (omega (arith, value))

parse_whole-bound :
    (w : ℕ) (s : Str) (r : ℕ × Str) → w ≤ max_whole → parse_whole w s ≡ some r → r.0 ≤ max_whole
unfolding parse_whole
parse_whole-bound w [] r h e = ground arith
parse_whole-bound w (c ∷ cs) r h e = elim (Bool-cases (is_digit c)) [
  | inl d ↦ elim (Bool-cases (ltb ((max_whole - (c - 48)) / 10) w)) [
    | inl o ↦ absurd (none_ne_some (rw (parse_whole, d, o) at e))
    | inr o ↦
        parse_whole-bound (w * 10 + (c - 48)) cs r
          (omega (arith, ltb→le ((max_whole - (c - 48)) / 10) w o, is_digit-bound c d))
          (rw (parse_whole, d, o) at e)
  ]
  | inr d ↦ kept (rw (parse_whole, d) at e)
]
  where
    kept : ◌≡◌ {A = Option (ℕ × Str)} (some (w, c ∷ cs)) (some r) → r.0 ≤ max_whole
    kept e = ground arith

next_place : (n : ℕ) → 10 ^ (n + 1) ≡ 10 * 10 ^ n
next_place n =
    let e : n + 1 ≡ suc n = omega arith in omega (arith, ap (λ (m : ℕ). 10 ^ m) e, pow-suc 10 n)

parse_fraction-bound :
    (digits f : ℕ) (s : Str) (r : ℕ × ℕ × Str)
    → digits ≤ 2
    → f < 10 ^ digits
    → parse_fraction digits f s ≡ some r
    → (r.0 ≤ 2) × (r.1 < 10 ^ r.0)
unfolding parse_fraction
parse_fraction-bound digits f [] r h k e = ground arith
parse_fraction-bound digits f (c ∷ cs) r h k e = elim (Bool-cases (is_digit c)) [
  | inl d ↦ elim (Bool-cases (ltb 2 (digits + 1))) [
    | inl o ↦ absurd (none_ne_some (rw (parse_fraction, d, o) at e))
    | inr o ↦
        parse_fraction-bound (digits + 1) (f * 10 + (c - 48)) cs r (ltb→le 2 (digits + 1) o)
          (omega (arith, next_place digits, is_digit-bound c d)) (rw (parse_fraction, d, o) at e)
  ]
  | inr d ↦ kept (rw (parse_fraction, d) at e)
]
  where
    kept :
        ◌≡◌ {A = Option (ℕ × ℕ × Str)} (some (digits, f, c ∷ cs)) (some r)
        → (r.0 ≤ 2) × (r.1 < 10 ^ r.0)
    kept e = ground arith

with_fraction-bound :
    (whole v : ℕ) (o : Option (ℕ × ℕ × Str))
    → whole ≤ max_whole
    → ((r : ℕ × ℕ × Str) → o ≡ some r → (r.0 ≤ 2) × (r.1 < 10 ^ r.0))
    → with_fraction whole o ≡ some v
    → v < 2 ^ 32
unfolding with_fraction
with_fraction-bound whole v none h b e = cc
with_fraction-bound whole v (some (zero, f, [])) h b e = cc
with_fraction-bound whole v (some (suc zero, f, [])) h b e = let k = b _ refl in ground arith
with_fraction-bound whole v (some (suc (suc zero), f, [])) h b e = let k = b _ refl in ground arith
with_fraction-bound whole v (some (suc (suc (suc d)), f, [])) h b e =
    let k = b _ refl in absurd (omega arith)
with_fraction-bound whole v (some (digits, f, c ∷ cs)) h b e = cc

after_whole-bound :
    (v : ℕ) (o : Option (ℕ × Str))
    → ((r : ℕ × Str) → o ≡ some r → r.0 ≤ max_whole)
    → after_whole o ≡ some v
    → v < 2 ^ 32
unfolding after_whole
after_whole-bound v none b e = cc
after_whole-bound v (some (whole, [])) b e = let k = b _ refl in ground arith
after_whole-bound v (some (whole, c ∷ cs)) b e = elim (Bool-cases (c == 46)) [
  | inl d ↦
      with_fraction-bound whole v (parse_fraction 0 0 cs) (b _ refl)
        (λ r. parse_fraction-bound 0 0 cs r (omega arith) (omega arith)) (rw d at e)
  | inr d ↦ absurd (none_ne_some (rw d at e))
]

-- Whatever token is read, the value that is accepted fits 32 bits.
pub parse_hundredths-bound : (s : Str) (v : ℕ) → parse_hundredths s ≡ some v → v < 2 ^ 32
unfolding parse_hundredths
parse_hundredths-bound [] v e = cc
parse_hundredths-bound (c ∷ cs) v e = elim (Bool-cases (is_digit c)) [
  | inl d ↦
      after_whole-bound v (parse_whole 0 (c ∷ cs))
        (λ r. parse_whole-bound 0 (c ∷ cs) r (omega arith))
        (sym (starts_with_digit (c ∷ cs) c cs refl d) ∙ e)
  | inr d ↦ absurd (none_ne_some (rw d at e))
]
