-- ===== src/Common/Str.antt =====
-- `std::string` as its list of bytes, with the order that `std::map` keeps its keys in.
use Prim.Native.Nat.{ℕ, ◌+◌, compare, Ordering}
use mathlib.Core.Path.{◌≡◌, refl, sym}
use mathlib.Core.Logic.{◌≢◌}
use mathlib.Core.Bool.{Bool, true, false, ◌&&◌}
use mathlib.Core.List.{List, [], ◌∷◌}
use native.Mathlib.Omega.{arith}
use oclock.Common.Tests.{leb, ◌==◌, if◌then◌else◌}
use Prim.Native.Char.{code}
use Prim.Native.String.{String}

abbrev pub Str : Type 0
Str = List ℕ

-- The bytes of an ASCII literal.
abbrev pub str : String → Str
str String.[] = []
str (String.◌∷◌ c s) = code c ∷ str s

-- The bytes before the first NUL: what C functions see of a string.
unfoldable pub until_nul : Str → Str
until_nul [] = []
until_nul (c ∷ cs) = if c == 0 then [] else c ∷ until_nul cs

-- `tolower` of an ASCII letter.
unfoldable pub lower : ℕ → ℕ
lower c = if leb 65 c && leb c 90 then c + 32 else c

unfoldable pub str_compare : Str → Str → Ordering
str_compare [] [] = Ordering.eq
str_compare [] (b ∷ y) = Ordering.lt
str_compare (a ∷ x) [] = Ordering.gt
str_compare (a ∷ x) (b ∷ y) =
    let rest = str_compare x y in
    elim (compare a b) [
      | Ordering.lt ↦ Ordering.lt
      | Ordering.eq ↦ rest
      | Ordering.gt ↦ Ordering.gt
    ]

unfoldable pub str_eq : Str → Str → Bool
unfolding str_compare
str_eq x y = elim (str_compare x y) [ Ordering.eq ↦ true | _ ↦ false ]

unfoldable pub str_lt : Str → Str → Bool
unfolding str_compare
str_lt x y = elim (str_compare x y) [ Ordering.lt ↦ true | _ ↦ false ]

compare_refl : (a : ℕ) → compare a a ≡ Ordering.eq
compare_refl a = ground arith

str_compare_refl : (x : Str) → str_compare x x ≡ Ordering.eq
unfolding str_compare
str_compare_refl [] = refl
str_compare_refl (a ∷ x) = ground (arith, compare_refl a, str_compare_refl x)

pub str_eq_refl : (x : Str) → str_eq x x ≡ true
unfolding str_eq
str_eq_refl x = rw (str_eq, str_compare_refl x)

str_compare-eq : (x y : Str) → str_compare x y ≡ Ordering.eq → x ≡ y
unfolding str_compare
str_compare-eq [] [] h = refl
str_compare-eq [] (b ∷ y) h = cc
str_compare-eq (a ∷ x) [] h = cc
str_compare-eq (a ∷ x) (b ∷ y) h = ground (arith, str_compare-eq x y)

pub str_eq→eq : (x y : Str) → str_eq x y ≡ true → x ≡ y
unfolding str_eq
str_eq→eq x y h = str_compare-eq x y (ground arith)

pub str_eq→ne : (x y : Str) → str_eq x y ≡ false → x ≢ y
str_eq→ne x y h e = cc (str_eq_refl x)

compare-lt_trans :
    (x y z : Str)
    → str_compare x y ≡ Ordering.lt
    → str_compare y z ≡ Ordering.lt
    → str_compare x z ≡ Ordering.lt
unfolding str_compare
compare-lt_trans [] [] z h k = cc
compare-lt_trans [] (b ∷ y) [] h k = cc
compare-lt_trans [] (b ∷ y) (c ∷ z) h k = refl
compare-lt_trans (a ∷ x) [] z h k = cc
compare-lt_trans (a ∷ x) (b ∷ y) [] h k = cc
compare-lt_trans (a ∷ x) (b ∷ y) (c ∷ z) h k = ground (arith, compare-lt_trans x y z)

compare-lt_flip : (x y : Str) → str_compare x y ≡ Ordering.lt → str_compare y x ≡ Ordering.gt
unfolding str_compare
compare-lt_flip [] [] h = cc
compare-lt_flip [] (b ∷ y) h = refl
compare-lt_flip (a ∷ x) [] h = cc
compare-lt_flip (a ∷ x) (b ∷ y) h = ground (arith, compare-lt_flip x y)

compare-gt_flip : (x y : Str) → str_compare x y ≡ Ordering.gt → str_compare y x ≡ Ordering.lt
unfolding str_compare
compare-gt_flip [] [] h = cc
compare-gt_flip [] (b ∷ y) h = cc
compare-gt_flip (a ∷ x) [] h = refl
compare-gt_flip (a ∷ x) (b ∷ y) h = ground (arith, compare-gt_flip x y)

lt-compare : (x y : Str) → str_lt x y ≡ true → str_compare x y ≡ Ordering.lt
unfolding str_lt
lt-compare x y h = ground arith

pub str_lt_trans : (x y z : Str) → str_lt x y ≡ true → str_lt y z ≡ true → str_lt x z ≡ true
unfolding str_lt
str_lt_trans x y z h k =
    rw (compare-lt_trans x y z (lt-compare x y h) (lt-compare y z k), str_lt) refl

pub str_lt-ne : (x y : Str) → str_lt x y ≡ true → str_eq x y ≡ false
unfolding str_eq
str_lt-ne x y h = rw (lt-compare x y h, str_eq) refl

pub str_lt-ne_sym : (x y : Str) → str_lt x y ≡ true → str_eq y x ≡ false
unfolding str_eq
str_lt-ne_sym x y h = rw (compare-lt_flip x y (lt-compare x y h), str_eq) refl

pub str_lt_asymm : (x y : Str) → str_lt x y ≡ true → str_lt y x ≡ false
unfolding str_lt
str_lt_asymm x y h = rw (compare-lt_flip x y (lt-compare x y h), str_lt) refl

pub str_lt_irrefl : (x : Str) → str_lt x x ≡ false
unfolding str_lt
str_lt_irrefl x = rw (str_compare_refl x, str_lt) refl

-- Of two texts, one is smaller or they are one.
pub str_lt_total : (x y : Str) → str_eq x y ≡ false → str_lt x y ≡ false → str_lt y x ≡ true
unfolding str_lt str_eq
str_lt_total x y h k = ground (arith, compare-gt_flip x y)

pub ne→str_eq : (x y : Str) → x ≢ y → str_eq x y ≡ false
unfolding str_eq
ne→str_eq x y h = ground (arith, h, str_compare-eq x y)

pub str_eq_sym : (x y : Str) → str_eq x y ≡ false → str_eq y x ≡ false
str_eq_sym x y h = ne→str_eq y x (λ e. str_eq→ne x y h (sym e))
