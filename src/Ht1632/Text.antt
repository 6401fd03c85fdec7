-- ===== src/Ht1632/Text.antt =====
-- The layout of a text on the matrix: `drawText` and `getTextWidth` of ht1632/HT1632.cpp. What is drawn is the list of the
-- images, each a call of `drawImage` in the order of the calls.
use oclock.Common.{
  ℕ, zero, suc, ◌+◌, ◌-◌, ◌*◌, List, [], ◌∷◌, ◌++◌, ◌≡◌, refl, sym, ap, ◌∙◌, Bool, true, false,
  ◌&&◌, ◌||◌, ltb, leb, if◌then◌else◌, Option, none, some, get_or, Bool-cases, Option-cases, inl,
  inr, arith,
}
use oclock.Common.Int.{ℤ, pos, negsuc, ◌+ℤ◌, ◌-ℤ◌, leb_ℤ, is_negative}
use oclock.Common.Str.{Str, until_nul}
use oclock.Ht1632.{com_size, out_size}

-- The arguments of `drawImage`; the image is that of the font.
pub record Image : Type 0 where
  pub width : ℕ
  pub height : ℕ
  pub x : ℤ
  pub y : ℤ
  pub offset : ℕ

pub record Font : Type 0 where
  pub font_width : List ℕ
  pub font_height : ℕ
  pub font_glyph_step : ℕ
  pub gutter_space : ℕ

-- The glyph of a character, with capitals for small letters; others are skipped.
unfoldable pub currchar : ℕ → Option ℕ
currchar c =
    let g = c - 32 in
    let u = if leb 65 g && leb g 90 then g - 32 else g in
    if ltb c 32 then none else if leb 64 u then none else some u

unfoldable pub glyph_width : Font → ℕ → ℕ
glyph_width f g = get_or f.font_width g 0

-- The loop over the columns between glyphs, from column `j` on.
unfoldable pub draw_gutter : Font → ℤ → ℤ → ℕ → ℕ → List Image
draw_gutter f x y j zero = []
draw_gutter f x y j (suc n) =
    record { width = 1; height = f.font_height; x = x +ℤ pos j; y = y; offset = 0 }
    ∷ draw_gutter f x y (suc j) n

unfoldable pub draw_glyph : Font → ℤ → ℕ → ℤ → List Image
unfolding draw_gutter
draw_glyph f y g x =
    if is_negative (x +ℤ pos (glyph_width f g + f.gutter_space))
    then []
    else record {
      width = glyph_width f g;
      height = f.font_height;
      x = x;
      y = y;
      offset = g * f.font_glyph_step;
    }
      ∷ draw_gutter f (x +ℤ pos (glyph_width f g)) y 0 f.gutter_space

-- One character of the loop, with what follows it.
unfoldable pub draw_char : Font → ℤ → Option ℕ → (ℤ → List Image) → ℤ → List Image
draw_char f y none rest x = rest x
draw_char f y (some g) rest x =
    if leb_ℤ (pos out_size) x
    then []
    else draw_glyph f y g x ++ rest (x +ℤ pos (glyph_width f g + f.gutter_space))

-- The loop over the characters of the C string.
unfoldable pub draw_chars : Font → ℤ → Str → ℤ → List Image
draw_chars f y [] x = []
draw_chars f y (c ∷ text) x = draw_char f y (currchar c) (draw_chars f y text) x

unfoldable pub is_outside : Font → ℤ → Bool
is_outside f y = is_negative (y +ℤ pos f.font_height) || leb_ℤ (pos com_size) y

unfoldable pub draw_text : Font → Str → ℤ → ℤ → List Image
draw_text f text x y = if is_outside f y then [] else draw_chars f y (until_nul text) x

unfoldable pub width_char : Font → Option ℕ → (ℕ → ℕ) → ℕ → ℕ
width_char f none rest wd = rest wd
width_char f (some g) rest wd = rest (wd + (glyph_width f g + f.gutter_space))

-- The loop of `getTextWidth` behind a width of so far.
unfoldable pub width_from : Font → Str → ℕ → ℕ
width_from f [] wd = wd
width_from f (c ∷ text) wd = width_char f (currchar c) (width_from f text) wd

unfoldable pub get_text_width : Font → Str → ℤ
get_text_width f text = pos (width_from f (until_nul text) 0) -ℤ pos f.gutter_space

-- The glyphs of a text and where each begins, behind columns of so many.
unfoldable pub layout_char : Font → Option ℕ → (ℕ → List (ℕ × ℕ)) → ℕ → List (ℕ × ℕ)
layout_char f none rest k = rest k
layout_char f (some g) rest k = (g, k) ∷ rest (k + (glyph_width f g + f.gutter_space))

unfoldable pub layout : Font → Str → ℕ → List (ℕ × ℕ)
layout f [] k = []
layout f (c ∷ text) k = layout_char f (currchar c) (layout f text) k

-- A glyph and the columns of its gutter, unless the last of them lies left of the matrix.
abbrev pub glyph_images : Font → ℤ → ℕ → ℤ → List Image
glyph_images f y g x =
    let w = glyph_width f g in
    if leb_ℤ (pos 0) (x +ℤ pos (w + f.gutter_space))
    then record { width = w; height = f.font_height; x = x; y = y; offset = g * f.font_glyph_step }
      ∷ draw_gutter f (x +ℤ pos w) y 0 f.gutter_space
    else []

either :
    (z : ℤ) (xs : List Image)
    → (if is_negative z then [] else xs) ≡ (if leb_ℤ (pos 0) z then xs else [])
either (pos n) xs = rw (starts n) refl
  where
    starts : (n : ℕ) → leb_ℤ (pos 0) (pos n) ≡ true
    starts n = ground arith
either (negsuc n) xs = rw (ends n) refl
  where
    ends : (n : ℕ) → leb_ℤ (pos 0) (negsuc n) ≡ false
    ends n = ground arith

draw_glyph-images : (f : Font) (y : ℤ) (g : ℕ) (x : ℤ) → draw_glyph f y g x ≡ glyph_images f y g x
unfolding draw_glyph
draw_glyph-images f y g x = either (x +ℤ pos (glyph_width f g + f.gutter_space)) _

-- What of a layout is drawn: the glyphs that begin left of the right edge.
unfoldable pub visible : Font → ℤ → ℤ → List (ℕ × ℕ) → List Image
visible f x y [] = []
visible f x y ((g, k) ∷ rest) =
    (if leb_ℤ (pos out_size) (x +ℤ pos k) then [] else glyph_images f y g (x +ℤ pos k))
    ++ visible f x y rest

add_add : (x : ℤ) (k w : ℕ) → (x +ℤ pos k) +ℤ pos w ≡ x +ℤ pos (k + w)
unfolding ◌+ℤ◌
add_add (pos n) k w = ground arith
add_add (negsuc n) k w = ground arith

add_zero : (x : ℤ) → x +ℤ pos 0 ≡ x
unfolding ◌+ℤ◌
add_zero (pos n) = ground arith
add_zero (negsuc n) = ground arith

right_of :
    (x : ℤ) (k w : ℕ)
    → leb_ℤ (pos out_size) (x +ℤ pos k) ≡ true
    → leb_ℤ (pos out_size) (x +ℤ pos (k + w)) ≡ true
unfolding ◌+ℤ◌
right_of (pos n) k w h = ground arith
right_of (negsuc n) k w h = ground arith

visible-right :
    (f : Font) (x y : ℤ) (k : ℕ) (text : Str)
    → leb_ℤ (pos out_size) (x +ℤ pos k) ≡ true
    → visible f x y (layout f text k) ≡ []
unfolding visible layout layout_char
visible-right f x y k [] h = refl
visible-right f x y k (c ∷ text) h = elim (Option-cases (currchar c)) [
  | inl e ↦ rw e (visible-right f x y k text h)
  | inr (g, e) ↦
      rw (e, h)
        (visible-right f x y (k + (glyph_width f g + f.gutter_space)) text
          (right_of x k (glyph_width f g + f.gutter_space) h))
]

draw_chars-visible :
    (f : Font) (x y : ℤ) (k : ℕ) (text : Str)
    → draw_chars f y text (x +ℤ pos k) ≡ visible f x y (layout f text k)
unfolding draw_chars draw_char visible layout layout_char
draw_chars-visible f x y k [] = refl
draw_chars-visible f x y k (c ∷ text) = elim (Option-cases (currchar c)) [
  | inl e ↦ rw e (draw_chars-visible f x y k text)
  | inr (g, e) ↦ rw e (elim (Bool-cases (leb_ℤ (pos out_size) (x +ℤ pos k))) [
    | inl h ↦ rw h (
        sym (
          visible-right f x y (k + (glyph_width f g + f.gutter_space)) text
            (right_of x k (glyph_width f g + f.gutter_space) h)))
    | inr h ↦
        rw (h, draw_glyph-images f y g (x +ℤ pos k))
          (ap (λ (xs : List Image). glyph_images f y g (x +ℤ pos k) ++ xs)
            (ap (draw_chars f y text) (add_add x k (glyph_width f g + f.gutter_space))
              ∙ draw_chars-visible f x y (k + (glyph_width f g + f.gutter_space)) text))
  ])
]

-- Every glyph of the layout with where it ends.
abbrev pub ends_at : Font → ℕ → List (ℕ × ℕ) → ℕ
ends_at f k [] = k
ends_at f k ((g, j) ∷ rest) = ends_at f (j + (glyph_width f g + f.gutter_space)) rest

width_from-layout :
    (f : Font) (text : Str) (k : ℕ) → width_from f text k ≡ ends_at f k (layout f text k)
unfolding width_from width_char layout layout_char
width_from-layout f [] k = refl
width_from-layout f (c ∷ text) k = elim (Option-cases (currchar c)) [
  | inl e ↦ rw e (width_from-layout f text k)
  | inr (g, e) ↦ rw e (width_from-layout f text (k + (glyph_width f g + f.gutter_space)))
]

-- Although the loop stops at the first glyph that begins beyond the right edge, a text is drawn exactly as its layout says:
-- of all its glyphs, each behind the widths and gutters of those before it, those that begin left of that edge and whose
-- gutter ends at column 0 or later, and none at all where the text lies above or below the matrix. The
-- width of the text is where the layout ends, less the last gutter.
pub draw_text-layout :
    (f : Font) (text : Str) (x y : ℤ)
    → (draw_text f text x y
        ≡ (if is_outside f y then [] else visible f x y (layout f (until_nul text) 0)))
      × (get_text_width f text
          ≡ pos (ends_at f 0 (layout f (until_nul text) 0)) -ℤ pos f.gutter_space)
unfolding draw_text get_text_width
draw_text-layout f text x y = (
  ap (λ (xs : List Image). if is_outside f y then [] else xs)
      (ap (draw_chars f y (until_nul text)) (sym (add_zero x))
        ∙ draw_chars-visible f x y 0 (until_nul text)),
  ap (λ (n : ℕ). pos n -ℤ pos f.gutter_space) (width_from-layout f (until_nul text) 0),
)
