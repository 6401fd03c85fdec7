-- ===== src/Common/AutoBase.antt =====
-- `strtol` and its kin with base 0: blanks, a sign, a prefix `0x` or `0` that gives the base, and the longest
-- run of its digits. `none` stands for the exceptions of `std::stoi` and `std::stoll`.
use oclock.Common.Tests.{leb, ltb, ◌==◌, if◌then◌else◌}
use oclock.Common.Int.{ℤ, pos, negsuc}
use oclock.Common.Str.{Str}
use Prim.Native.Nat.{ℕ, ◌+◌, ◌-◌, ◌*◌, ◌%◌, ◌^◌}
use mathlib.Core.Bool.{Bool, true, false, not, ◌&&◌, ◌||◌}
use mathlib.Core.List.{[], ◌∷◌}
use mathlib.Core.Option.{Option, none, some}

is_space : ℕ → Bool
is_space c = c == 32 || (leb 9 c && leb c 13)

skip_spaces : Str → Str
unfolding is_space
skip_spaces [] = []
skip_spaces (c ∷ s) = if is_space c then skip_spaces s else c ∷ s

-- The value of a digit; 36 for what is none in any base.
digit_value : ℕ → ℕ
digit_value c =
    if leb 48 c && leb c 57
    then c - 48
    else if leb 97 c && leb c 122
    then c - 87
    else if leb 65 c && leb c 90
    then c - 55
    else 36

digits_value : ℕ → ℕ → Bool → Str → Option ℕ
unfolding digit_value
digits_value base n seen [] = if seen then some n else none
digits_value base n seen (c ∷ s) =
    let more = digits_value base (n * base + digit_value c) true s in
    if ltb (digit_value c) base then more else if seen then some n else none

-- The base that the prefix gives, and the digits.
auto_base : Str → ℕ × Str
unfolding digit_value
auto_base [] = (10, [])
auto_base (c ∷ []) = (10, c ∷ [])
auto_base (c ∷ x ∷ []) = (if c == b'0' then 8 else 10, c ∷ x ∷ [])
auto_base (c ∷ x ∷ d ∷ s) =
    if c == b'0'
    then (if (x == b'x' || x == b'X') && ltb (digit_value d) 16
        then (16, d ∷ s)
        else (8, c ∷ x ∷ d ∷ s))
    else (10, c ∷ x ∷ d ∷ s)

magnitude : Str → Option ℕ
unfolding auto_base digits_value
magnitude s = let (base, digits) = auto_base s in digits_value base 0 false digits

-- Whether there is a minus sign, and the number behind it.
unfoldable pub strto_auto : Str → Option (Bool × ℕ)
unfolding skip_spaces magnitude
strto_auto s = elim (skip_spaces s) [
  | [] ↦ none
  | c ∷ cs ↦
      if c == b'-'
      then elim (magnitude cs) [ none ↦ none | some n ↦ some (true, n) ]
      else if c == b'+'
      then elim (magnitude cs) [ none ↦ none | some n ↦ some (false, n) ]
      else elim (magnitude (c ∷ cs)) [ none ↦ none | some n ↦ some (false, n) ]
]

in_range : ℕ → Option (Bool × ℕ) → Option ℤ
in_range bits none = none
in_range bits (some (true, n)) =
    if n == 0 then some (pos 0) else if leb n (2 ^ bits) then some (negsuc (n - 1)) else none
in_range bits (some (false, n)) = if ltb n (2 ^ bits) then some (pos n) else none

unfoldable pub stoi_auto : Str → Option ℤ
unfolding strto_auto in_range
stoi_auto s = in_range 31 (strto_auto s)

unfoldable pub stoll_auto : Str → Option ℤ
unfolding strto_auto in_range
stoll_auto s = in_range 63 (strto_auto s)

-- Whether `strtoul` gives a number that is not 0; text that is no number gives 0.
unfoldable pub strtoul_auto_nonzero : Str → Bool
unfolding strto_auto
strtoul_auto_nonzero s = elim (strto_auto s) [ none ↦ false | some p ↦ not (p.1 == 0) ]

to_unsigned : Bool → Option ℕ → ℕ
to_unsigned minus none = 0
to_unsigned minus (some n) =
    if leb (2 ^ 64) n then 2 ^ 64 - 1 else if minus then (2 ^ 64 - n) % 2 ^ 64 else n

-- `strtoul` with base 10, on 64 bits: 0 on text with no number, and the largest number on one that is too large.
unfoldable pub strtoul_10 : Str → ℕ
unfolding skip_spaces digits_value to_unsigned
strtoul_10 s = elim (skip_spaces s) [
  | [] ↦ 0
  | c ∷ cs ↦
      if c == b'-'
      then to_unsigned true (digits_value 10 0 false cs)
      else if c == b'+'
      then to_unsigned false (digits_value 10 0 false cs)
      else to_unsigned false (digits_value 10 0 false (c ∷ cs))
]
