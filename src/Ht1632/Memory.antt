-- ===== src/Ht1632/Memory.antt =====
-- The pixels of a board, as `setPixel` changes them.
use oclock.Common.{
  ℕ, zero, suc, ◌+◌, ◌*◌, ◌/◌, ◌%◌, ◌^◌, ◌<◌, ◌≡◌, refl, sym, ap, ◌∙◌, subst, bit_and, List, [],
  ◌∷◌, Bool, true, false, not, ◌&&◌, ◌==◌, ==→eq, ==→ne, ne→==, ==_refl, if◌then◌else◌, Bool-cases,
  inl, inr, length, get_or, set, get_or-set_self, get_or-set_ne, All, some, arith,
}
use oclock.Common.Int.{pos}
use oclock.Common.Bits.{all_below, below-all}
use oclock.Ht1632.{Ht1632, set_pixel, set_cell, with_pixel, board, set_board, get_addr_from_x_y}
use oclock.Ht1632.Address.{get_addr_from_x_y_bounds, get_addr_from_x_y_injective}

unfoldable pub is_lit : ℕ → ℕ → Bool
is_lit m k = not (bit_and m (2 ^ k) == 0)

-- What a board shows at a point.
unfoldable pub pixel : ℕ → ℕ → ℕ → Ht1632 → Bool
unfolding board is_lit
pixel t x y s = is_lit (get_or (board t s) (get_addr_from_x_y x y) 0) (y % 4)

same_bool : Bool → Bool → Bool
same_bool true b = b
same_bool false b = not b

same_bool-eq : (a b : Bool) → same_bool a b ≡ true → a ≡ b
unfolding same_bool
same_bool-eq true b h = sym h
same_bool-eq false true h = h
same_bool-eq false false h = refl

-- All cells, rows and bits at once: a cell is below 32.
cell_test : Bool → ℕ → Bool
unfolding same_bool is_lit with_pixel
cell_test datum n =
    same_bool (is_lit (with_pixel (n % 4) datum (n / 16)) (n / 4 % 4))
      (if n / 4 % 4 == n % 4 then datum else is_lit (n / 16) (n / 4 % 4))

cell_tests : (datum : Bool) → all_below 512 (cell_test datum) ≡ true
unfolding cell_test same_bool is_lit with_pixel
cell_tests true = refl
cell_tests false = refl

with_pixel_row : (y : ℕ) (datum : Bool) (m : ℕ) → with_pixel y datum m ≡ with_pixel (y % 4) datum m
unfolding with_pixel
with_pixel_row y true m = rw (mod_mod y) refl
  where
    mod_mod : (y : ℕ) → y % 4 % 4 ≡ y % 4
    mod_mod y = omega arith
with_pixel_row y false m = rw (mod_mod y) refl
  where
    mod_mod : (y : ℕ) → y % 4 % 4 ≡ y % 4
    mod_mod y = omega arith

is_lit-with_pixel :
    (y : ℕ) (datum : Bool) (m k : ℕ)
    → m < 32
    → k < 4
    → is_lit (with_pixel y datum m) k ≡ (if k == y % 4 then datum else is_lit m k)
unfolding cell_test
is_lit-with_pixel y datum m k h l =
    ap (λ (c : ℕ). is_lit c k) (with_pixel_row y datum m)
    ∙ subst
        (λ (q : ℕ × ℕ × ℕ).
          is_lit (with_pixel q.0 datum q.1) q.2 ≡ (if q.2 == q.0 then datum else is_lit q.1 q.2))
        codes
        (same_bool-eq _ _ (
          below-all 512 (cell_test datum) (cell_tests datum) (m * 16 + k * 4 + y % 4)
            (omega arith)))
  where
    row : (m * 16 + k * 4 + y % 4) % 4 ≡ y % 4
    row = omega arith

    cell : (m * 16 + k * 4 + y % 4) / 16 ≡ m
    cell = omega arith

    bit : (m * 16 + k * 4 + y % 4) / 4 % 4 ≡ k
    bit = omega arith

    codes :
        ◌≡◌ {A = ℕ × ℕ × ℕ}
          (
            (m * 16 + k * 4 + y % 4) % 4,
            (m * 16 + k * 4 + y % 4) / 16,
            (m * 16 + k * 4 + y % 4) / 4 % 4,
          )
          (y % 4, m, k)
    codes = rw (row, cell, bit) refl

All-get_or : (xs : List ℕ) (i : ℕ) → All (λ c. c < 32) xs → get_or xs i 0 < 32
All-get_or [] i a = omega arith
All-get_or (x ∷ xs) zero a = a.0
All-get_or (x ∷ xs) (suc i) a = All-get_or xs i a.1

-- Three boards of 512 cells, each a row of four pixels and the mark.
abbrev pub IsAllocated : Ht1632 → Type 0
IsAllocated s =
    (length s.mem ≡ 3)
    × ((t : ℕ) → t < 3 → length (board t s) ≡ 512)
    × ((t : ℕ) → t < 3 → All (λ c. c < 32) (board t s))

board-set_cell :
    (t u x y : ℕ) (datum : Bool) (s : Ht1632)
    → t < length s.mem
    → board u (set_cell x y datum s t) ≡ (
        if t == u
        then set
            (board t s)
            (get_addr_from_x_y x y)
            (with_pixel y datum (get_or (board t s) (get_addr_from_x_y x y) 0))
        else board u s)
unfolding board set_cell set_board
board-set_cell t u x y datum s h = elim (Bool-cases (t == u)) [
  | inl e ↦ rw (e, ← ==→eq t u e) (get_or-set_self s.mem t _ [] h)
  | inr e ↦ rw e (get_or-set_ne s.mem t u _ [] (==→ne t u e))
]

module _ (x y x' y' : ℕ) (hx : x < 128) (hy : y < 16) (hx' : x' < 128) (hy' : y' < 16) where
  stored_cell : Bool → List ℕ → List ℕ
  stored_cell datum bs =
      set bs (get_addr_from_x_y x y) (with_pixel y datum (get_or bs (get_addr_from_x_y x y) 0))

  same_point :
      (datum : Bool) (bs : List ℕ)
      → length bs ≡ 512
      → All (λ c. c < 32) bs
      → is_lit (get_or (stored_cell datum bs) (get_addr_from_x_y x y) 0) (y % 4) ≡ datum
  unfolding stored_cell
  same_point datum bs h a =
      ap (λ (c : ℕ). is_lit c (y % 4))
        (get_or-set_self bs (get_addr_from_x_y x y) _ 0 (rw h (get_addr_from_x_y_bounds x y hx hy)))
      ∙ is_lit-with_pixel y datum _ (y % 4) (All-get_or bs _ a) (omega arith)
      ∙ rw (==_refl (y % 4)) refl

  other_point :
      (datum : Bool) (bs : List ℕ)
      → length bs ≡ 512
      → All (λ c. c < 32) bs
      → ¬ ((x ≡ x') × (y ≡ y'))
      → is_lit (get_or (stored_cell datum bs) (get_addr_from_x_y x' y') 0) (y' % 4)
        ≡ is_lit (get_or bs (get_addr_from_x_y x' y') 0) (y' % 4)
  unfolding stored_cell
  other_point datum bs h a n =
      elim (Bool-cases (get_addr_from_x_y x y == get_addr_from_x_y x' y')) [
        | inl e ↦ same_address (==→eq _ _ e)
        | inr e ↦
            ap (λ (c : ℕ). is_lit c (y' % 4))
              (get_or-set_ne bs (get_addr_from_x_y x y) (get_addr_from_x_y x' y') _ 0 (==→ne _ _ e))
      ]
    where
      same_address :
          get_addr_from_x_y x y ≡ get_addr_from_x_y x' y'
          → is_lit (get_or (stored_cell datum bs) (get_addr_from_x_y x' y') 0) (y' % 4)
            ≡ is_lit (get_or bs (get_addr_from_x_y x' y') 0) (y' % 4)
      same_address e =
          let other_row =
            λ (r : y % 4 ≡ y' % 4). n (get_addr_from_x_y_injective x y x' y' hx hy hx' hy' e r) in
          rw (← e) (
            ap (λ (c : ℕ). is_lit c (y' % 4))
              (get_or-set_self bs (get_addr_from_x_y x y) _ 0
                (rw h (get_addr_from_x_y_bounds x y hx hy)))
            ∙ is_lit-with_pixel y datum _ (y' % 4) (All-get_or bs _ a) (omega arith)
            ∙ rw (ne→== (y' % 4) (y % 4) (λ r. other_row (sym r))) refl)

  in_cells :
      (datum : Bool) (bs : List ℕ)
      → length bs ≡ 512
      → All (λ c. c < 32) bs
      → is_lit (get_or (stored_cell datum bs) (get_addr_from_x_y x' y') 0) (y' % 4) ≡ (
          if (x == x') && (y == y')
          then datum
          else is_lit (get_or bs (get_addr_from_x_y x' y') 0) (y' % 4))
  in_cells datum bs h a = elim (Bool-cases (x == x')) [
    | inl e ↦ elim (Bool-cases (y == y')) [
      | inl f ↦ rw (e, f, ← ==→eq x x' e, ← ==→eq y y' f) (same_point datum bs h a)
      | inr f ↦ rw (e, f) (other_point datum bs h a (λ p. ==→ne y y' f p.1))
    ]
    | inr e ↦ rw e (other_point datum bs h a (λ p. ==→ne x x' e p.0))
  ]

set_pixel-set_cell :
    (t x y : ℕ) (datum : Bool) (s : Ht1632)
    → s.tgt_buffer ≡ some t
    → t < 3
    → x < 128
    → y < 16
    → set_pixel (pos x) (pos y) datum s ≡ set_cell x y datum s t
unfolding set_pixel
set_pixel-set_cell t x y datum s e h k l = rw (set_pixel, e) (ground arith)

-- A pixel of the matrix that is set or cleared shows so on the target board, and all other pixels,
-- of this board and of the others, show what they did.
pub pixel-set_pixel :
    (t u x y x' y' : ℕ) (datum : Bool) (s : Ht1632)
    → IsAllocated s
    → s.tgt_buffer ≡ some t
    → t < 3
    → x < 128
    → y < 16
    → x' < 128
    → y' < 16
    → pixel u x' y' (set_pixel (pos x) (pos y) datum s)
      ≡ (if (t == u) && ((x == x') && (y == y')) then datum else pixel u x' y' s)
unfolding pixel stored_cell
pixel-set_pixel t u x y x' y' datum s w e h hx hy hx' hy' =
    ap (pixel u x' y') (set_pixel-set_cell t x y datum s e h hx hy)
    ∙ ap (λ (bs : List ℕ). is_lit (get_or bs (get_addr_from_x_y x' y') 0) (y' % 4))
        (board-set_cell t u x y datum s (omega (arith, h, w.0)))
    ∙ elim (Bool-cases (t == u)) [
      | inl f ↦
          rw (f, ← ==→eq t u f)
            (in_cells x y x' y' hx hy hx' hy' datum (board t s) (w.1 t h) (w.2 t h))
      | inr f ↦ rw f refl
    ]
