-- ===== src/Lpd8806/Pixels.antt =====
-- What is stored for a pixel and read back.
use oclock.Common.{
  ℕ, ◌+◌, ◌*◌, ◌/◌, ◌%◌, ◌≤◌, ◌<◌, bit_and, bit_or, ◌≡◌, ◌≢◌, refl, sym, ap, ◌∙◌, List, Bool-cases,
  inl, inr, false, ltb, ltb→lt, lt→ltb, length, get_or, set, All, length-set, get_or-set_self,
  get_or-set_ne, arith,
}
use oclock.Common.Bits.{u8_or_128, packed, byte_and_127}
use oclock.Lpd8806.{
  set_pixel_color, Lpd8806, PixelMemory, null, allocated, dangling, bytes_of, store3, touched,
  set_pixel_rgb, get_pixel_color,
}

-- A stored byte has the marker bit.
abbrev pub IsMarked : ℕ → Type 0
IsMarked b = (128 ≤ b) × (b < 256)

-- The block holds three marked bytes for each LED.
abbrev pub Wf : Lpd8806 → Type 0
Wf s =
    (length (bytes_of s.pixels) ≡ s.num_leds * 3)
    × All IsMarked (bytes_of s.pixels)
    × (s.num_leds ≢ 0 → s.pixels ≡ allocated (bytes_of s.pixels))

bytes_of-store3 :
    (i x y z : ℕ) (m : PixelMemory)
    → bytes_of (store3 i x y z m) ≡ set (set (set (bytes_of m) i x) (i + 1) y) (i + 2) z
unfolding bytes_of store3
bytes_of-store3 i x y z null = refl
bytes_of-store3 i x y z (allocated bs) = refl
bytes_of-store3 i x y z dangling = refl

-- The word that three stored bytes give.
word : ℕ → List ℕ → ℕ
word i bs =
    bit_or (bit_or (bit_and (get_or bs i 0) 127 * 65536) (bit_and (get_or bs (i + 1) 0) 127 * 256))
      (bit_and (get_or bs (i + 2) 0) 127)

stored : ℕ → ℕ → ℕ → ℕ → List ℕ → List ℕ
stored i x y z bs = set (set (set bs i x) (i + 1) y) (i + 2) z

stored-0 : (i x y z : ℕ) (bs : List ℕ) → i + 2 < length bs → get_or (stored i x y z bs) i 0 ≡ x
unfolding stored
stored-0 i x y z bs l =
    rw
      (
        get_or-set_ne (set (set bs i x) (i + 1) y) (i + 2) i z 0 (omega arith),
        get_or-set_ne (set bs i x) (i + 1) i y 0 (omega arith),
      )
      (get_or-set_self bs i x 0 (omega arith))

stored-1 :
    (i x y z : ℕ) (bs : List ℕ) → i + 2 < length bs → get_or (stored i x y z bs) (i + 1) 0 ≡ y
unfolding stored
stored-1 i x y z bs l =
    rw (get_or-set_ne (set (set bs i x) (i + 1) y) (i + 2) (i + 1) z 0 (omega arith))
      (get_or-set_self (set bs i x) (i + 1) y 0 (rw (length-set bs i x) (omega arith)))

stored-2 :
    (i x y z : ℕ) (bs : List ℕ) → i + 2 < length bs → get_or (stored i x y z bs) (i + 2) 0 ≡ z
unfolding stored
stored-2 i x y z bs l =
    get_or-set_self (set (set bs i x) (i + 1) y) (i + 2) z 0
      (rw (length-set (set bs i x) (i + 1) y, length-set bs i x) (omega arith))

stored-other :
    (i x y z : ℕ) (bs : List ℕ) (j : ℕ)
    → j ≢ i
    → j ≢ i + 1
    → j ≢ i + 2
    → get_or (stored i x y z bs) j 0 ≡ get_or bs j 0
unfolding stored
stored-other i x y z bs j h k l =
    rw
      (
        get_or-set_ne (set (set bs i x) (i + 1) y) (i + 2) j z 0 (λ e. l (sym e)),
        get_or-set_ne (set bs i x) (i + 1) j y 0 (λ e. k (sym e)),
      )
      (get_or-set_ne bs i j x 0 (λ e. h (sym e)))

marked_and : (x : ℕ) → bit_and (x % 128 + 128) 127 ≡ x % 128
marked_and x = omega (arith, byte_and_127 (x % 128 + 128) (omega arith))

word-stored :
    (i r g b : ℕ) (bs : List ℕ)
    → i + 2 < length bs
    → word i (stored i (g % 128 + 128) (r % 128 + 128) (b % 128 + 128) bs)
      ≡ g % 128 * 65536 + r % 128 * 256 + b % 128
unfolding word
word-stored i r g b bs l =
    rw
      (
        stored-0 i (g % 128 + 128) (r % 128 + 128) (b % 128 + 128) bs l,
        stored-1 i (g % 128 + 128) (r % 128 + 128) (b % 128 + 128) bs l,
        stored-2 i (g % 128 + 128) (r % 128 + 128) (b % 128 + 128) bs l,
        marked_and r,
        marked_and g,
        marked_and b,
      )
      (packed (g % 128) (r % 128) (b % 128) (omega arith) (omega arith))

word-other :
    (n m x y z : ℕ) (bs : List ℕ) → n ≢ m → word (m * 3) (stored (n * 3) x y z bs) ≡ word (m * 3) bs
unfolding word
word-other n m x y z bs h =
    rw
      (
        stored-other (n * 3) x y z bs (m * 3) (omega arith) (omega arith) (omega arith),
        stored-other (n * 3) x y z bs (m * 3 + 1) (omega arith) (omega arith) (omega arith),
        stored-other (n * 3) x y z bs (m * 3 + 2) (omega arith) (omega arith) (omega arith),
      )
      refl

touched-fields :
    (n : ℕ) (s : Lpd8806)
    → ((touched n s).pixels ≡ s.pixels) × ((touched n s).num_leds ≡ s.num_leds)
unfolding touched
touched-fields n s = ground arith

set_pixel_rgb-fields :
    (n r g b : ℕ) (s : Lpd8806)
    → n < s.num_leds
    → (bytes_of (set_pixel_rgb n r g b s).pixels
        ≡ stored (n * 3) (g % 128 + 128) (r % 128 + 128) (b % 128 + 128) (bytes_of s.pixels))
      × ((set_pixel_rgb n r g b s).num_leds ≡ s.num_leds)
unfolding stored set_pixel_rgb bytes_of
set_pixel_rgb-fields n r g b s l =
    rw (set_pixel_rgb, lt→ltb n s.num_leds l, u8_or_128 r, u8_or_128 g, u8_or_128 b)
      (
        ap bytes_of (touched-fields n _).0 ∙ bytes_of-store3 (n * 3) _ _ _ s.pixels,
        (touched-fields n _).1,
      )

get_pixel_color-word :
    (n : ℕ) (s : Lpd8806)
    → n < s.num_leds
    → s.num_leds * 3 < 65536
    → get_pixel_color n s ≡ word (n * 3) (bytes_of s.pixels)
unfolding get_pixel_color word
get_pixel_color-word n s l k = rw (lt→ltb n s.num_leds l, small) refl
  where
    small : n * 3 % 65536 ≡ n * 3
    small = omega arith

get_pixel_color_out : (n : ℕ) (s : Lpd8806) → ltb n s.num_leds ≡ false → get_pixel_color n s ≡ 0
unfolding get_pixel_color
get_pixel_color_out n s e = rw e refl

-- The color of each pixel when the bytes of pixel `n` are stored in the block.
get_pixel_color-stored :
    (n r g b : ℕ) (s s' : Lpd8806)
    → bytes_of s'.pixels
      ≡ stored (n * 3) (g % 128 + 128) (r % 128 + 128) (b % 128 + 128) (bytes_of s.pixels)
    → s'.num_leds ≡ s.num_leds
    → Wf s
    → n < s.num_leds
    → s.num_leds * 3 < 65536
    → (get_pixel_color n s' ≡ g % 128 * 65536 + r % 128 * 256 + b % 128)
      × ((m : ℕ) → n ≢ m → get_pixel_color m s' ≡ get_pixel_color m s)
get_pixel_color-stored n r g b s s' f0 f1 w l k = (same, other)
  where
    same : get_pixel_color n s' ≡ g % 128 * 65536 + r % 128 * 256 + b % 128
    same =
        get_pixel_color-word n s' (omega (arith, l, f1)) (omega (arith, k, f1))
        ∙ ap (word (n * 3)) f0
        ∙ word-stored (n * 3) r g b (bytes_of s.pixels) (omega (arith, w.0, l))

    other : (m : ℕ) → n ≢ m → get_pixel_color m s' ≡ get_pixel_color m s
    other m h = elim (Bool-cases (ltb m s.num_leds)) [
      | inl e ↦
          get_pixel_color-word m s' (omega (arith, ltb→lt m s.num_leds e, f1))
            (omega (arith, k, f1))
          ∙ ap (word (m * 3)) f0
          ∙ word-other n m _ _ _ (bytes_of s.pixels) h
          ∙ sym (get_pixel_color-word m s (ltb→lt m s.num_leds e) k)
      | inr e ↦ get_pixel_color_out m s' (rw f1 e) ∙ sym (get_pixel_color_out m s e)
    ]

set_pixel_color-fields :
    (n c : ℕ) (s : Lpd8806)
    → n < s.num_leds
    → (bytes_of (set_pixel_color n c s).pixels
        ≡ stored
            (n * 3)
            (c / 65536 % 128 + 128)
            (c / 256 % 128 + 128)
            (c % 128 + 128)
            (bytes_of s.pixels))
      × ((set_pixel_color n c s).num_leds ≡ s.num_leds)
unfolding stored set_pixel_color bytes_of
set_pixel_color-fields n c s l =
    rw
      (
        set_pixel_color,
        lt→ltb n s.num_leds l,
        u8_or_128 (c / 65536),
        u8_or_128 (c / 256),
        u8_or_128 c,
      )
      (
        ap bytes_of (touched-fields n _).0 ∙ bytes_of-store3 (n * 3) _ _ _ s.pixels,
        (touched-fields n _).1,
      )

-- The low 7 bits of each field of a color.
unfoldable pub seven_bits : ℕ → ℕ
seven_bits c = c / 65536 % 128 * 65536 + c / 256 % 128 * 256 + c % 128

-- The same as for components, for a color word.
pub get_pixel_color-set_pixel_color :
    (n c : ℕ) (s : Lpd8806)
    → Wf s
    → n < s.num_leds
    → s.num_leds * 3 < 65536
    → (get_pixel_color n (set_pixel_color n c s) ≡ seven_bits c)
      × ((m : ℕ) → n ≢ m → get_pixel_color m (set_pixel_color n c s) ≡ get_pixel_color m s)
      × ((set_pixel_color n c s).num_leds ≡ s.num_leds)
unfolding seven_bits
get_pixel_color-set_pixel_color n c s w l k =
    let f = set_pixel_color-fields n c s l in
    let g =
      get_pixel_color-stored n (c / 256) (c / 65536) c s (set_pixel_color n c s) f.0 f.1 w l k in
    (g.0, g.1, f.1)

-- On a strip of less than 21846 LEDs whose block is well-formed, the color of a pixel that was
-- set is the low 7 bits of its three components, and that of each other pixel is as before.
pub get_pixel_color-set_pixel_rgb :
    (n r g b : ℕ) (s : Lpd8806)
    → Wf s
    → n < s.num_leds
    → s.num_leds * 3 < 65536
    → (get_pixel_color n (set_pixel_rgb n r g b s) ≡ g % 128 * 65536 + r % 128 * 256 + b % 128)
      × ((m : ℕ) → n ≢ m → get_pixel_color m (set_pixel_rgb n r g b s) ≡ get_pixel_color m s)
get_pixel_color-set_pixel_rgb n r g b s w l k =
    let f = set_pixel_rgb-fields n r g b s l in
    get_pixel_color-stored n r g b s (set_pixel_rgb n r g b s) f.0 f.1 w l k
