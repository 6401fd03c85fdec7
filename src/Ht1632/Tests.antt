-- ===== src/Ht1632/Tests.antt =====
-- The LED matrix at concrete points.
use oclock.Common.{
  ℕ, zero, suc, ◌<◌, ◌≡◌, refl, List, [], ◌∷◌, true, ◌&&◌, ◌==◌, if◌then◌else◌, length, replicate,
  length-replicate, All, some, arith,
}
use oclock.Common.Int.{pos}
use oclock.Ht1632.{Ht1632, set_pixel, board}
use oclock.Ht1632.Address.{get_addr_from_x_y_injective}
use oclock.Ht1632.Memory.{pixel, IsAllocated, pixel-set_pixel}
use oclock.Common.Int.{◌-ℤ◌}
use oclock.Common.Str.{str, until_nul}
use oclock.Ht1632.Text.{
  Font, draw_text, is_outside, visible, layout, get_text_width, ends_at, draw_text-layout,
  width_from, width_char, currchar, glyph_width,
}

abbrev dark_board : List ℕ
dark_board = replicate 512 0

abbrev dark_matrix : Ht1632
dark_matrix = record {
  brightness = 16;
  tgt_buffer = some 1;
  global_needs_rewriting = true ∷ true ∷ true ∷ [];
  mem = dark_board ∷ dark_board ∷ dark_board ∷ [];
  wire = [];
}

All-dark : (n : ℕ) → All (λ c. c < 32) (replicate n 0)
All-dark zero = tt
All-dark (suc n) = (omega arith, All-dark n)

dark_matrix-IsAllocated : IsAllocated dark_matrix
unfolding board
dark_matrix-IsAllocated = (refl, lengths, cells)
  where
    lengths : (t : ℕ) → t < 3 → length (board t dark_matrix) ≡ 512
    lengths zero h = length-replicate {A = ℕ} 512 0
    lengths (suc zero) h = length-replicate {A = ℕ} 512 0
    lengths (suc (suc zero)) h = length-replicate {A = ℕ} 512 0
    lengths (suc (suc (suc t))) h = absurd (omega arith)

    cells : (t : ℕ) → t < 3 → All (λ c. c < 32) (board t dark_matrix)
    cells zero h = All-dark 512
    cells (suc zero) h = All-dark 512
    cells (suc (suc zero)) h = All-dark 512
    cells (suc (suc (suc t))) h = absurd (omega arith)

pixel-set_pixel_example :
    pixel 1 100 9 (set_pixel (pos 100) (pos 9) true dark_matrix)
    ≡ (if (1 == 1) && ((100 == 100) && (9 == 9)) then true else pixel 1 100 9 dark_matrix)
pixel-set_pixel_example =
    pixel-set_pixel 1 1 100 9 100 9 true dark_matrix dark_matrix-IsAllocated refl (omega arith)
      (omega arith) (omega arith) (omega arith) (omega arith)

get_addr_from_x_y_injective_example : (◌≡◌ {A = ℕ} 100 100) × (◌≡◌ {A = ℕ} 9 9)
get_addr_from_x_y_injective_example =
    get_addr_from_x_y_injective 100 9 100 9 (omega arith) (omega arith) (omega arith) (omega arith)
      refl refl

-- A font of four columns to each glyph.
abbrev font_of_four : Font
font_of_four = record {
  font_width = replicate 64 4;
  font_height = 5;
  font_glyph_step = 8;
  gutter_space = 1;
}

draw_text-layout_example :
    (draw_text font_of_four (str "Hi") (pos 120) (pos 3) ≡ (
      if is_outside font_of_four (pos 3)
      then []
      else visible font_of_four (pos 120) (pos 3) (layout font_of_four (until_nul (str "Hi")) 0)))
    × (get_text_width font_of_four (str "Hi")
        ≡ pos (ends_at font_of_four 0 (layout font_of_four (until_nul (str "Hi")) 0)) -ℤ pos 1)
draw_text-layout_example = draw_text-layout font_of_four (str "Hi") (pos 120) (pos 3)

width_of_hi : get_text_width font_of_four (str "Hi") ≡ pos 9
unfolding get_text_width width_from width_char currchar glyph_width until_nul ◌-ℤ◌
width_of_hi = refl
