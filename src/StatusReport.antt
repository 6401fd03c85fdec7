-- ===== src/StatusReport.antt =====
-- The status report: statusReport.h and statusReport.cpp. Here: the numbers and the JSON strings that
-- it writes, and the decimal that it reads.
mod Tests
pub mod Escaping
pub mod Load
pub mod System
pub mod Loadavg
pub mod Text
pub mod Gather
pub mod Render
pub mod Plain
use oclock.Common.{
  ℕ, zero, suc, ◌+◌, ◌-◌, ◌*◌, ◌/◌, ◌%◌, List, [], ◌∷◌, ◌++◌, Bool, true, false, ◌&&◌, ltb, leb,
  ◌==◌, if◌then◌else◌, Option, none, some,
}
use oclock.Common.Int.{ℤ}
use oclock.Common.Str.{Str, str}
use oclock.Common.Decimal.{decimal, decimal_ℤ, decimal_02}

unfoldable pub append_int : ℤ → Str
unfolding decimal_ℤ
append_int n = decimal_ℤ n

unfoldable pub append_uint64 : ℕ → Str
unfolding decimal
append_uint64 n = decimal n

unfoldable pub append_load : ℕ → Str
unfolding decimal decimal_02
append_load h = decimal (h / 100) ++ (46 ∷ decimal_02 (h % 100))

unfoldable pub append_json_bool : Bool → Str
append_json_bool b = if b then str "true" else str "false"

-- A digit of `%x`.
unfoldable pub hex_digit : ℕ → ℕ
hex_digit d = if ltb d 10 then 48 + d else 87 + d

-- The escape of one byte: the cases of the switch, and its default.
unfoldable pub escape_byte : ℕ → Str
unfolding hex_digit
escape_byte c =
    if c == 34
    then 92 ∷ 34 ∷ []
    else if c == 92
    then 92 ∷ 92 ∷ []
    else if c == 8
    then 92 ∷ b'b' ∷ []
    else if c == 12
    then 92 ∷ b'f' ∷ []
    else if c == 10
    then 92 ∷ b'n' ∷ []
    else if c == 13
    then 92 ∷ b'r' ∷ []
    else if c == 9
    then 92 ∷ b't' ∷ []
    else if ltb c 32
    then 92
      ∷ b'u'
      ∷ hex_digit (c / 4096 % 16)
      ∷ hex_digit (c / 256 % 16)
      ∷ hex_digit (c / 16 % 16)
      ∷ hex_digit (c % 16)
      ∷ []
    else c ∷ []

unfoldable pub json_escape : Str → Str
unfolding escape_byte
json_escape [] = []
json_escape (c ∷ cs) = escape_byte c ++ json_escape cs

unfoldable pub append_json_string : Str → Str
unfolding json_escape
append_json_string v = 34 ∷ (json_escape v ++ (34 ∷ []))

unfoldable pub is_digit : ℕ → Bool
is_digit c = leb 48 c && leb c 57

abbrev pub max_whole : ℕ
max_whole = 42949671

-- The loop over the whole part; none is the refusal of a number that is too large.
unfoldable pub parse_whole : ℕ → Str → Option (ℕ × Str)
unfolding is_digit
parse_whole w [] = some (w, [])
parse_whole w (c ∷ cs) =
    let rest = parse_whole (w * 10 + (c - 48)) cs in
    if is_digit c
    then (if ltb ((max_whole - (c - 48)) / 10) w then none else rest)
    else some (w, c ∷ cs)

-- The loop over the fraction: the digits so far, their value, and what is left.
unfoldable pub parse_fraction : ℕ → ℕ → Str → Option (ℕ × ℕ × Str)
unfolding is_digit
parse_fraction digits f [] = some (digits, f, [])
parse_fraction digits f (c ∷ cs) =
    let rest = parse_fraction (digits + 1) (f * 10 + (c - 48)) cs in
    if is_digit c then (if ltb 2 (digits + 1) then none else rest) else some (digits, f, c ∷ cs)

-- The value, once all is read.
unfoldable pub with_fraction : ℕ → Option (ℕ × ℕ × Str) → Option ℕ
with_fraction whole none = none
with_fraction whole (some (digits, f, [])) =
    if digits == 0 then none else some (whole * 100 + (if digits == 1 then f * 10 else f))
with_fraction whole (some (digits, f, c ∷ cs)) = none

-- What follows the whole part.
unfoldable pub after_whole : Option (ℕ × Str) → Option ℕ
unfolding parse_fraction with_fraction
after_whole none = none
after_whole (some (whole, [])) = some (whole * 100)
after_whole (some (whole, c ∷ cs)) =
    let fraction = with_fraction whole (parse_fraction 0 0 cs) in if c == 46 then fraction else none

-- An empty token, or one that does not start with a digit, is refused.
unfoldable pub parse_hundredths : Str → Option ℕ
unfolding parse_whole after_whole is_digit
parse_hundredths [] = none
parse_hundredths (c ∷ cs) = if is_digit c then after_whole (parse_whole 0 (c ∷ cs)) else none
