-- ===== src/Lpd8806/Color.antt =====
-- The packed color word.
use oclock.Common.{ℕ, ◌+◌, ◌*◌, ◌/◌, ◌%◌, ◌<◌, bit_or, ◌≡◌, refl, ◌∙◌, arith}
use oclock.Common.Bits.{u8_or_128, packed_128, byte_or_128}
use oclock.Lpd8806.{Lpd8806, set_pixel_rgb, set_pixel_color, color}

-- The word of three bytes has the fields G, R and B, each of its low 7 bits and the marker bit.
color-fields :
    (r g b : ℕ)
    → r < 256
    → g < 256
    → b < 256
    → color r g b ≡ (g % 128 + 128) * 65536 + (r % 128 + 128) * 256 + (b % 128 + 128)
unfolding color
color-fields r g b p q k =
    rw (byte_or_128 g q, byte_or_128 r p)
      (packed_128 (g % 128 + 128) (r % 128 + 128) b (omega arith) k)

-- Storing the packed word of three bytes is storing the three bytes, at every pixel of every
-- strip.
pub set_pixel_color-color :
    (n r g b : ℕ) (s : Lpd8806)
    → r < 256
    → g < 256
    → b < 256
    → set_pixel_color n (color r g b) s ≡ set_pixel_rgb n r g b s
unfolding set_pixel_color set_pixel_rgb
set_pixel_color-color n r g b s p q k =
    rw (color-fields r g b p q k, u8_or_128 r, u8_or_128 g, u8_or_128 b, field_g, field_r, field_b)
      refl
  where
    c : ℕ
    c = (g % 128 + 128) * 65536 + (r % 128 + 128) * 256 + (b % 128 + 128)

    field_g : bit_or (c / 65536) 128 % 256 ≡ g % 128 + 128
    field_g = u8_or_128 (c / 65536) ∙ omega arith

    field_r : bit_or (c / 256) 128 % 256 ≡ r % 128 + 128
    field_r = u8_or_128 (c / 256) ∙ omega arith

    field_b : bit_or c 128 % 256 ≡ b % 128 + 128
    field_b = u8_or_128 c ∙ omega arith
