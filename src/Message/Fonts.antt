-- ===== src/Message/Fonts.antt =====
-- The height of text on the matrix, and the day of the month.
use oclock.Common.{
  ℕ, ◌+◌, ◌%◌, ◌≤◌, ◌<◌, ◌≡◌, refl, ap, true, false, ◌||◌, Bool-cases, inl, inr, leb, ◌==◌,
  if◌then◌else◌, ◌++◌, arith,
}
use oclock.Common.Int.{ℤ, pos, negsuc}
use oclock.Common.Bits.{all_below, below-all}
use oclock.Common.Decimal.{decimal}
use oclock.Common.Str.{Str, str, str_eq, str_eq→eq}
use oclock.Ht1632.{com_size}
use oclock.Message.{get_font_height, get_adjusted_text_y, get_day_of_month_str}

height_bound : (font : ℕ) → get_font_height font ≤ com_size
unfolding get_font_height
height_bound font = ground arith

pos_injective : (m n : ℕ) → pos m ≡ pos n → m ≡ n
pos_injective m n e = ap (λ (z : ℤ). elim z [ pos k ↦ k | negsuc k ↦ k ]) e

-- Where bouncing text is drawn, it fits the matrix from top to bottom, whatever the font and the wanted place; a
-- place where it fits is kept.
pub get_adjusted_text_y_lem :
    (font : ℕ) (y : ℤ)
    → (get_adjusted_text_y font y + get_font_height font ≤ com_size)
      × ((n : ℕ) → y ≡ pos n → n + get_font_height font ≤ com_size → get_adjusted_text_y font y ≡ n)
unfolding get_adjusted_text_y
get_adjusted_text_y_lem font (negsuc k) =
    (omega (arith, height_bound font), λ n e l. absurd (negsuc_ne k n e))
  where
    negsuc_ne : (k n : ℕ) → negsuc k ≡ pos n → ⊥
    negsuc_ne k n e = cc
get_adjusted_text_y_lem font (pos y) = elim (Bool-cases (leb com_size (get_font_height font + y))) [
  | inl e ↦ rw e (
    omega (arith, height_bound font),
    λ n p l. let q = pos_injective y n p in let s = fits e in omega arith,
  )
  | inr e ↦ rw e (over e, λ n p l. pos_injective y n p)
]
  where
    fits : leb com_size (get_font_height font + y) ≡ true → com_size ≤ get_font_height font + y
    fits e = ground arith

    over : leb com_size (get_font_height font + y) ≡ false → y + get_font_height font ≤ com_size
    over e = ground arith

-- The English suffix of an ordinal.
abbrev pub suffix : ℕ → Str
suffix n =
    if 11 == n % 100 || (12 == n % 100 || 13 == n % 100)
    then str "th"
    else if n % 10 == 1
    then str "st"
    else if n % 10 == 2
    then str "nd"
    else if n % 10 == 3
    then str "rd"
    else str "th"

all_days : all_below 32 (λ n. str_eq (get_day_of_month_str n) (decimal n ++ suffix n)) ≡ true
unfolding get_day_of_month_str decimal str_eq
all_days = refl

-- A day up to the 31st is written as its number with the English suffix of the ordinal.
pub get_day_of_month_str_lem : (n : ℕ) → n < 32 → get_day_of_month_str n ≡ decimal n ++ suffix n
get_day_of_month_str_lem n h =
    str_eq→eq _ _
      (below-all 32 (λ n. str_eq (get_day_of_month_str n) (decimal n ++ suffix n)) all_days n h)
