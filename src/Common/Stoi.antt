-- ===== src/Common/Stoi.antt =====
-- `std::stoi` with base 10 on a 32-bit `int`: blanks, a sign, and the longest run of digits. `none`
-- stands for the exceptions, on text with no digits and on a number out of range.
use oclock.Common.Tests.{leb, ltb, ◌==◌, if◌then◌else◌}
use oclock.Common.Int.{ℤ, pos, negsuc}
use oclock.Common.Str.{Str}
use Prim.Native.Nat.{ℕ, ◌+◌, ◌-◌, ◌*◌, ◌^◌}
use mathlib.Core.Bool.{Bool, true, false, ◌&&◌, ◌||◌}
use mathlib.Core.List.{[], ◌∷◌}
use mathlib.Core.Option.{Option, none, some}

is_space : ℕ → Bool
is_space c = c == 32 || (leb 9 c && leb c 13)

is_digit : ℕ → Bool
is_digit c = leb b'0' c && leb c b'9'

skip_spaces : Str → Str
unfolding is_space
skip_spaces [] = []
skip_spaces (c ∷ s) = if is_space c then skip_spaces s else c ∷ s

-- The value of the leading digits, and whether there are any.
digits_value : ℕ → Bool → Str → Option ℕ
unfolding is_digit
digits_value n seen [] = if seen then some n else none
digits_value n seen (c ∷ s) =
    let more = digits_value (n * 10 + (c - b'0')) true s in
    if is_digit c then more else if seen then some n else none

negated : ℕ → Option ℤ
negated n = if n == 0 then some (pos 0) else if leb n (2 ^ 31) then some (negsuc (n - 1)) else none

unsigned : ℕ → Option ℤ
unsigned n = if ltb n (2 ^ 31) then some (pos n) else none

signed_value : Str → Option ℤ
unfolding digits_value negated unsigned
signed_value [] = none
signed_value (c ∷ s) =
    if c == b'-'
    then elim (digits_value 0 false s) [ none ↦ none | some n ↦ negated n ]
    else if c == b'+'
    then elim (digits_value 0 false s) [ none ↦ none | some n ↦ unsigned n ]
    else elim (digits_value 0 false (c ∷ s)) [ none ↦ none | some n ↦ unsigned n ]

unfoldable pub stoi : Str → Option ℤ
unfolding skip_spaces signed_value
stoi s = signed_value (skip_spaces s)
