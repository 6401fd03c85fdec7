-- ===== src/LedStrip/Params.antt =====
-- The parameters of a request for the LED strip: `parseBooleanValue`, `isParamSet` and `getParamValue` of
-- commonUtils.cpp, and the colors and numbers that ledStripInternal.cpp takes from them.
use oclock.Common.{
  ℕ, ◌-◌, ◌%◌, ◌^◌, List, [], ◌∷◌, map, Bool, true, false, ◌==◌, if◌then◌else◌, Option, none, some,
}
use oclock.Common.Int.{ℤ, pos, negsuc}
use oclock.Common.Str.{lower, Str, str, str_eq, until_nul}
use oclock.Common.SortedMap.{find}
use oclock.Common.AutoBase.{stoi_auto, stoll_auto, strtoul_auto_nonzero}
use oclock.Lpd8806.{color}

abbrev pub StringMap : Type 0
StringMap = List (Str × Str)

-- `strncasecmp` with a letter.
starts_with : ℕ → Str → Bool
unfolding lower
starts_with c [] = false
starts_with c (d ∷ s) = lower d == c

-- `parseBooleanValue` of the C string of a value.
unfoldable pub parse_boolean_value : Str → Bool
unfolding until_nul lower starts_with strtoul_auto_nonzero str_eq
parse_boolean_value value =
    let v = until_nul value in
    if starts_with b'n' v
    then false
    else if starts_with b'y' v
    then true
    else if str_eq (map lower v) (str "false")
    then false
    else if str_eq (map lower v) (str "true")
    then true
    else strtoul_auto_nonzero v

unfoldable pub get_param_value : StringMap → Str → Option Str
unfolding find
get_param_value params name = find name params

unfoldable pub is_param_set : StringMap → Str → Bool
unfolding find
is_param_set params name = elim (find name params) [ none ↦ false | some v ↦ true ]

unfoldable pub is_param_set_to : StringMap → Str → Str → Bool
unfolding find str_eq
is_param_set_to params name value = elim (find name params) [
  | none ↦ false
  | some v ↦ str_eq v value
]

abbrev pub param_led_strip_mode : Str
param_led_strip_mode = str "ledStripMode"

abbrev pub param_timeout : Str
param_timeout = str "timeout"

abbrev pub param_clear_all_pixels : Str
param_clear_all_pixels = str "clearPixels"

abbrev pub param_extra : Str
param_extra = str "extraParam"

abbrev pub param_from : Str
param_from = str "from"

abbrev pub param_to : Str
param_to = str "to"

-- The cast of an `int` to `Int8U`, and of a `long long` to `Int64U`.
unfoldable pub cast_u8 : ℤ → ℕ
cast_u8 (pos n) = n % 256
cast_u8 (negsuc n) = 255 - n % 256

unfoldable pub cast_u64 : ℤ → ℕ
cast_u64 (pos n) = n % 2 ^ 64
cast_u64 (negsuc n) = 2 ^ 64 - 1 - n % 2 ^ 64

or_zero : Option Str → Str
or_zero none = str "0"
or_zero (some []) = str "0"
or_zero (some (c ∷ cs)) = c ∷ cs

abbrev pub null_color : ℕ
null_color = color 0 0 0

color_of : Option ℤ → Option ℤ → Option ℤ → ℕ
unfolding cast_u8
color_of (some r) (some g) (some b) = color (cast_u8 r) (cast_u8 g) (cast_u8 b)
color_of _ _ _ = null_color

unfoldable pub get_pixel_color_param : StringMap → ℕ
unfolding or_zero stoi_auto color_of get_param_value
get_pixel_color_param params =
    let component = λ (name : Str). stoi_auto (or_zero (get_param_value params name)) in
    color_of (component (str "red")) (component (str "green")) (component (str "blue"))

-- The bounds of the fill; 0 is none. A bad one ends the reading of both.
fill_to : ℕ → StringMap → ℕ × ℕ
unfolding get_param_value stoll_auto cast_u64
fill_to from params = elim (get_param_value params param_to) [
  | none ↦ (from, 0)
  | some v ↦ elim (stoll_auto v) [ none ↦ (from, 0) | some n ↦ (from, cast_u64 n) ]
]

unfoldable pub fill_bounds : StringMap → ℕ × ℕ
unfolding get_param_value stoll_auto cast_u64 fill_to
fill_bounds params = elim (get_param_value params param_from) [
  | none ↦ fill_to 0 params
  | some v ↦ elim (stoll_auto v) [ none ↦ (0, 0) | some n ↦ fill_to (cast_u64 n) params ]
]

-- The first value of the counter.
unfoldable pub first_counter : StringMap → ℕ
unfolding get_param_value stoll_auto cast_u64
first_counter params = elim (get_param_value params param_extra) [
  | none ↦ 0
  | some v ↦ elim (stoll_auto v) [ none ↦ 0 | some n ↦ cast_u64 n ]
]
