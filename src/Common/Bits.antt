-- ===== src/Common/Bits.antt =====
-- Bitwise operations on bytes and packed words, as sums and remainders.
use Prim.Native.Nat.{
  ℕ, zero, suc, ◌+◌, ◌*◌, ◌/◌, ◌%◌, ◌^◌, ◌≤◌, ◌<◌, max, digits, bit_and, bit_or, bit_or-bitwise,
}
use native.Mathlib.Nat.{le_refl, pow-suc}
use native.Mathlib.Omega.{arith}
use mathlib.Core.Path.{◌≡◌, refl, ap, ap₂, ◌∙◌}
use mathlib.Core.Bool.{Bool, true, false, ◌&&◌}
use oclock.Common.Tests.{◌==◌, ==→eq, Bool-cases}
use mathlib.Core.Logic.{inl, inr}

-- A test of all numbers below a bound.
abbrev pub all_below : ℕ → (ℕ → Bool) → Bool
all_below zero p = true
all_below (suc n) p = p n && all_below n p

and-left : (a b : Bool) → (a && b) ≡ true → a ≡ true
and-left true b h = refl
and-left false b h = h

and-right : (a b : Bool) → (a && b) ≡ true → b ≡ true
and-right true b h = h
and-right false b h = cc

pub below-all : (n : ℕ) (p : ℕ → Bool) → all_below n p ≡ true → (i : ℕ) → i < n → p i ≡ true
below-all zero p h i l = absurd (omega arith)
below-all (suc n) p h i l = elim (Bool-cases (i == n)) [
  | inl e ↦ rw (==→eq i n e) (and-left (p n) _ h)
  | inr e ↦ below-all n p (and-right (p n) _ h) i (ground arith)
]

pub byte_or_128 : (x : ℕ) → x < 256 → bit_or x 128 ≡ x % 128 + 128
byte_or_128 x l = ==→eq _ _ (below-all 256 (λ x. bit_or x 128 == x % 128 + 128) refl x l)

pub byte_and_127 : (x : ℕ) → x < 256 → bit_and x 127 ≡ x % 128
byte_and_127 x l = ==→eq _ _ (below-all 256 (λ x. bit_and x 127 == x % 128) refl x l)

or_fuel : (n m a b : ℕ) → a ≤ n → a ≤ m → digits (λ y. y) max n a b ≡ digits (λ y. y) max m a b
or_fuel zero zero a b p q = refl
or_fuel zero (suc m) zero b p q = refl
or_fuel zero (suc m) (suc a) b p q = absurd (omega arith)
or_fuel (suc n) zero zero b p q = refl
or_fuel (suc n) zero (suc a) b p q = absurd (omega arith)
or_fuel (suc n) (suc m) zero b p q = refl
or_fuel (suc n) (suc m) (suc a) b p q =
    rw (or_fuel n m (suc a / 2) (b / 2) (omega arith) (omega arith))

-- One binary digit of a disjunction.
bit_or-digit : (a b : ℕ) → bit_or a b ≡ bit_or (a / 2) (b / 2) * 2 + max (a % 2) (b % 2)
bit_or-digit zero b = simp bit_or-bitwise (omega arith)
bit_or-digit (suc a) b =
    simp bit_or-bitwise
      (omega (arith, or_fuel a (suc a / 2) (suc a / 2) (b / 2) (omega arith) (le_refl _)))

double : (q k : ℕ) → q * 2 ^ suc k ≡ 2 * (q * 2 ^ k)
double q k = omega (arith, ap (λ (t : ℕ). q * t) (pow-suc 2 k))

-- A disjunction of two words of two fields each.
bit_or-fields :
    (k q r a b : ℕ)
    → a < 2 ^ k
    → b < 2 ^ k
    → bit_or (q * 2 ^ k + a) (r * 2 ^ k + b) ≡ bit_or q r * 2 ^ k + bit_or a b
bit_or-fields zero q r zero zero h l = ground arith
bit_or-fields zero q r (suc a) b h l = absurd (omega arith)
bit_or-fields zero q r zero (suc b) h l = absurd (omega arith)
bit_or-fields (suc k) q r a b h l = ground (
  arith,
  bit_or-digit (q * 2 ^ suc k + a) (r * 2 ^ suc k + b),
  bit_or-digit a b,
  double q k,
  double r k,
  double (bit_or q r) k,
  pow-suc 2 k,
  bit_or-fields k q r (a / 2) (b / 2) (omega (arith, pow-suc 2 k)) (omega (arith, pow-suc 2 k)),
)

bit_or-zero : (a n : ℕ) → a ≤ n → bit_or a 0 ≡ a
bit_or-zero zero n l = refl
bit_or-zero (suc a) zero l = absurd (omega arith)
bit_or-zero (suc a) (suc n) l =
    omega (arith, bit_or-digit (suc a) 0, bit_or-zero (suc a / 2) n (omega arith))

pub bit_or-zero_left : (a : ℕ) → bit_or 0 a ≡ a
bit_or-zero_left a = simp bit_or-bitwise refl

-- The same for fields of 8 bits, at any two words that are split so.
bytes :
    (x y q r a b : ℕ)
    → x ≡ q * 256 + a
    → y ≡ r * 256 + b
    → a < 256
    → b < 256
    → bit_or x y ≡ bit_or q r * 256 + bit_or a b
bytes x y q r a b h k l m = ap₂ bit_or h k ∙ bit_or-fields 8 q r a b l m

-- Setting the top bit of a byte that is cast from a word.
pub u8_or_128 : (x : ℕ) → bit_or x 128 % 256 ≡ x % 128 + 128
u8_or_128 x = omega (
  arith,
  bytes x 128 (x / 256) 0 (x % 256) 128 (omega arith) (omega arith) (omega arith) (omega arith),
  byte_or_128 (x % 256) (omega arith),
)

low_byte : (y c : ℕ) → c < 256 → bit_or (y * 256) c ≡ y * 256 + c
low_byte y c l = omega (
  arith,
  bytes (y * 256) c y 0 0 c (omega arith) (omega arith) (omega arith) l,
  bit_or-zero y y (le_refl _),
  bit_or-zero_left c,
)

low_128 : (y c : ℕ) → c < 256 → bit_or (y * 256 + c) 128 ≡ y * 256 + (c % 128 + 128)
low_128 y c l = omega (
  arith,
  bytes (y * 256 + c) 128 y 0 c 128 (omega arith) (omega arith) l (omega arith),
  bit_or-zero y y (le_refl _),
  byte_or_128 c l,
)

two_bytes : (a b : ℕ) → b < 256 → bit_or (a * 65536) (b * 256) ≡ (a * 256 + b) * 256
two_bytes a b l = omega (
  arith,
  bytes (a * 65536) (b * 256) (a * 256) b 0 0 (omega arith) (omega arith) (omega arith)
      (omega arith),
  low_byte a b l,
)

-- The fields of a color that is packed without a marker bit.
pub packed :
    (a b c : ℕ)
    → b < 256
    → c < 256
    → bit_or (bit_or (a * 65536) (b * 256)) c ≡ a * 65536 + b * 256 + c
packed a b c p q = rw (two_bytes a b p, low_byte (a * 256 + b) c q) (omega arith)

-- The same, with the marker bit of the lowest byte.
pub packed_128 :
    (a b c : ℕ)
    → b < 256
    → c < 256
    → bit_or (bit_or (bit_or (a * 65536) (b * 256)) c) 128 ≡ a * 65536 + b * 256 + (c % 128 + 128)
packed_128 a b c p q =
    rw (two_bytes a b p, low_byte (a * 256 + b) c q, low_128 (a * 256 + b) c q) (omega arith)
