-- ===== src/LedStrip.antt =====
-- The effects of the LED strip: the frames that the modes of ledStripInternal.cpp draw, over the
-- model of the strip's driver. The static variables of a mode are arguments and results. The color
-- and the first counter value, which a request or chance gives, are arguments.
mod Tests
pub mod Params
pub mod Modes
pub mod Change
pub mod Keeps
pub mod Timeout
pub mod Requests
pub mod Thread
pub mod Wheel
pub mod Scan
pub mod Rainbow
use oclock.Common.{
  ℕ, zero, suc, ◌+◌, ◌-◌, ◌*◌, ◌/◌, ◌%◌, ◌^◌, Bool, true, false, ltb, leb, ◌==◌, if◌then◌else◌,
}
use oclock.Common.Int.{ℤ, pos, negsuc, ◌+ℤ◌, ◌-ℤ◌}
use oclock.Lpd8806.{
  Lpd8806, num_pixels, set_pixel_rgb, set_pixel_color, get_pixel_color, clear_pixel_colors, show,
  delay, color,
}

-- The components R, G and B of the switch of `wheel`; all are off from 384 on.
unfoldable pub wheel_parts : ℕ → ℕ × ℕ × ℕ
wheel_parts p =
    if p / 128 == 0
    then (127 - p % 128, p % 128, 0)
    else if p / 128 == 1
    then (0, 127 - p % 128, p % 128)
    else if p / 128 == 2
    then (p % 128, 0, 127 - p % 128)
    else (0, 0, 0)

unfoldable pub wheel : ℕ → ℕ
unfolding wheel_parts color
wheel p = let (r, g, b) = wheel_parts p in color r g b

unfoldable pub clear_pixel_colors_and_show : Lpd8806 → Lpd8806
unfolding clear_pixel_colors show
clear_pixel_colors_and_show s = show (clear_pixel_colors s)

-- The loop of the rainbow over the `left` pixels from `i` on.
unfoldable pub rainbow_pixels : ℕ → ℕ → ℕ → Lpd8806 → Lpd8806
unfolding set_pixel_color wheel
rainbow_pixels zero i j s = s
rainbow_pixels (suc left) i j s =
    rainbow_pixels left (i + 1) j (set_pixel_color i (wheel ((i * 384 / s.num_leds + j) % 384)) s)

-- The frame, and the next value of the static `j`.
unfoldable pub mode_rainbow_main : ℕ → Lpd8806 → ℕ × Lpd8806
unfolding rainbow_pixels show
mode_rainbow_main j s =
    (if leb 384 (j + 1) then 0 else j + 1, show (rainbow_pixels s.num_leds 0 j s))

-- The local variables of the pastel loop. The -1 that `repeat` gets before it is counted up is 0 here.
pub record Pastel : Type 0 where
  pub r : ℕ
  pub g : ℕ
  pub b : ℕ
  pub repeat : ℕ

unfoldable pub next_pastel : Pastel → Pastel
next_pastel p =
    if ltb p.repeat 63
    then record p { r = (p.r + 1) % 256; repeat = p.repeat + 1 }
    else if ltb p.repeat 126
    then record p { b = (p.b + 255) % 256; repeat = p.repeat + 1 }
    else if ltb p.repeat 189
    then record p { g = (p.g + 1) % 256; repeat = p.repeat + 1 }
    else record { r = 63; g = 63; b = 127; repeat = 0 }

unfoldable pub wrap_pixel : ℕ → ℕ → ℕ
wrap_pixel leds i = if leb leds i then 0 else i

unfoldable pub pastel_pixels : ℕ → ℕ → Pastel → Lpd8806 → ℕ × Lpd8806
unfolding next_pastel wrap_pixel set_pixel_rgb
pastel_pixels zero i p s = (i, s)
pastel_pixels (suc left) i p s =
    let p' = next_pastel p in
    pastel_pixels left (wrap_pixel s.num_leds (i + 1)) p'
      (set_pixel_rgb (i % 65536) p'.r p'.g p'.b s)

-- The frame, and the next value of the static `currPixel`.
unfoldable pub mode_pastel_main : ℕ → Lpd8806 → ℕ × Lpd8806
unfolding pastel_pixels show wrap_pixel
mode_pastel_main i s =
    let (i', s') = pastel_pixels s.num_leds i (record { r = 63; g = 63; b = 127; repeat = 0 }) s in
    (wrap_pixel s.num_leds (i' + 1), show s')

-- The cast of an `int` to `Int16U`.
unfoldable pub cast_u16 : ℤ → ℕ
cast_u16 (pos n) = n % 65536
cast_u16 (negsuc n) = 65535 - n % 65536

unfoldable pub is_at : ℤ → ℕ → Bool
is_at (pos n) m = n == m
is_at (negsuc n) m = false

unfoldable pub is_minus_one : ℤ → Bool
is_minus_one (pos n) = false
is_minus_one (negsuc n) = n == 0

-- One pixel lit, shown and erased again.
unfoldable pub scan_pixel : ℕ → ℤ → Lpd8806 → Lpd8806
unfolding cast_u16 set_pixel_color show
scan_pixel c i s = set_pixel_color (cast_u16 i) 0 (show (set_pixel_color (cast_u16 i) c s))

-- The loop, with the visits that are left before it breaks; the statics are `i` and `i_increment`.
unfoldable pub scan_loop : ℕ → ℕ → ℤ → ℤ → Lpd8806 → ℤ × ℤ × Lpd8806
unfolding scan_pixel is_at is_minus_one clear_pixel_colors_and_show ◌+ℤ◌ ◌-ℤ◌ delay
scan_loop zero c i inc s = (i, inc, s)
scan_loop (suc left) c i inc s =
    let s' = scan_pixel c i s in
    let i' = i +ℤ inc in
    let at_end = is_at i' s.num_leds in
    let i'' = if at_end then i' -ℤ pos 2 else i' in
    let inc' = if at_end then negsuc 0 else inc in
    let rest = scan_loop left c i'' inc' (if left == 0 then s' else delay 1 s') in
    if is_minus_one i' then (pos 0, pos 1, clear_pixel_colors_and_show s') else rest

-- Twelve visits: the loop breaks when more than 11 are counted.
unfoldable pub mode_scan_main : ℕ → ℤ → ℤ → Lpd8806 → ℤ × ℤ × Lpd8806
unfolding scan_loop
mode_scan_main c i inc s = scan_loop 12 c i inc s

-- The loop over the pixels as bits of the counter; it ends early when no bits are left.
unfoldable pub counter_pixels : ℕ → ℕ → ℕ → ℕ → Lpd8806 → Lpd8806
unfolding set_pixel_color
counter_pixels zero i v c s = s
counter_pixels (suc left) i v c s =
    let rest =
      counter_pixels left (i + 1) (v / 2) c (set_pixel_color i (if v % 2 == 1 then c else 0) s) in
    if v == 0 then s else rest

-- The index of the last pixel, as the `Int16U` of `numPixels() - 1`.
unfoldable pub last_pixel : Lpd8806 → ℕ
last_pixel s = (s.num_leds + 65535) % 65536

-- The frame, and the next counter; a dark last pixel starts the counter again.
unfoldable pub mode_binary_counter_main : ℕ → ℕ → ℕ → Lpd8806 → ℕ × Lpd8806
unfolding counter_pixels last_pixel get_pixel_color clear_pixel_colors set_pixel_color show color
mode_binary_counter_main first c counter s =
    let again = get_pixel_color (last_pixel s) s == 0 in
    let counter' = if again then first % 2 ^ 64 else (counter + 1) % 2 ^ 64 in
    let marked =
      if again then set_pixel_color (last_pixel s) (color 1 1 1) (clear_pixel_colors s) else s in
    (counter', show (counter_pixels (s.num_leds - 1) 0 counter' c marked))
