-- ===== src/LedStrip/Rainbow.antt =====
-- The frame of the rainbow.
use oclock.Common.{
  ℕ, zero, suc, ◌+◌, ◌*◌, ◌/◌, ◌%◌, ◌≤◌, ◌<◌, ◌≡◌, refl, ap, ◌∙◌, Bool-cases, inl, inr, ◌==◌, ==→eq,
  ==→ne, arith,
}
use oclock.Lpd8806.{Lpd8806, set_pixel_color, get_pixel_color, show, emit}
use oclock.Lpd8806.Pixels.{Wf, seven_bits, get_pixel_color-set_pixel_color}
use oclock.Lpd8806.Wf.{stores-Wf}
use oclock.LedStrip.{wheel, rainbow_pixels, mode_rainbow_main}

rainbow_color : ℕ → ℕ → ℕ → ℕ
rainbow_color leds j m = seven_bits (wheel ((m * 384 / leds + j) % 384))

rainbow_pixels_lem :
    (left i j : ℕ) (s : Lpd8806)
    → Wf s
    → s.num_leds * 3 < 65536
    → i + left ≡ s.num_leds
    → ((m : ℕ) → m < i → get_pixel_color m (rainbow_pixels left i j s) ≡ get_pixel_color m s)
      × ((m : ℕ)
          → i ≤ m
          → m < s.num_leds
          → get_pixel_color m (rainbow_pixels left i j s) ≡ rainbow_color s.num_leds j m)
unfolding rainbow_pixels rainbow_color
rainbow_pixels_lem zero i j s w k e = (λ m h. refl, λ m h l. absurd (omega arith))
rainbow_pixels_lem (suc left) i j s w k e =
    let c = wheel ((i * 384 / s.num_leds + j) % 384) in
    let p = get_pixel_color-set_pixel_color i c s w (omega arith) k in
    let ih =
      rainbow_pixels_lem left (i + 1) j (set_pixel_color i c s) (stores-Wf i 0 0 0 c s w).1
        (omega (arith, p.2)) (omega (arith, p.2)) in
    (
      λ m h. ih.0 m (omega arith) ∙ p.1 m (omega arith),
      λ m h l. elim (Bool-cases (m == i)) [
        | inl f ↦ rw (==→eq m i f) (ih.0 i (omega arith) ∙ p.0)
        | inr f ↦
            ih.1 m (omega (arith, ==→ne m i f)) (rw p.2 l) ∙ ap (λ (n : ℕ). rainbow_color n j m) p.2
      ],
    )

get_pixel_color-show : (m : ℕ) (s : Lpd8806) → get_pixel_color m (show s) ≡ get_pixel_color m s
unfolding get_pixel_color show emit
get_pixel_color-show m s = elim (Bool-cases (s.num_leds == 0)) [
  | inl e ↦ rw (show, e) refl
  | inr e ↦ rw (show, e) refl
]

-- On a well-formed strip of less than 21846 LEDs a frame of the rainbow gives every pixel the color of its
-- own place on the wheel, turned by the offset, and the next offset stays below 384.
pub mode_rainbow_main_lem :
    (j : ℕ) (s : Lpd8806)
    → Wf s
    → s.num_leds * 3 < 65536
    → ((m : ℕ)
        → m < s.num_leds
        → get_pixel_color m (mode_rainbow_main j s).1
          ≡ seven_bits (wheel ((m * 384 / s.num_leds + j) % 384)))
      × ((mode_rainbow_main j s).0 < 384)
unfolding mode_rainbow_main rainbow_color
mode_rainbow_main_lem j s w k = (
  λ m l.
      get_pixel_color-show m (rainbow_pixels s.num_leds 0 j s)
      ∙ (rainbow_pixels_lem s.num_leds 0 j s w k (omega arith)).1 m (omega arith) l,
  ground arith,
)
