-- ===== src/Lpd8806/Tests.antt =====
-- The LED strip at concrete pixels.
use oclock.Common.{ℕ, ◌≡◌, ◌≢◌, refl, [], ◌∷◌, true, false, if◌then◌else◌, arith}
use oclock.Lpd8806.{Lpd8806, allocated, dangling, bytes_of, StripError, done, failed, update_length}
use oclock.Lpd8806.Pixels.{Wf}
use oclock.Lpd8806.Wf.{update_length_lem}

abbrev two_leds : Lpd8806
two_leds = record {
  has_spi_output = false;
  num_leds = 2;
  largest_changed_led = 1;
  pixels = allocated (128 ∷ 129 ∷ 255 ∷ 128 ∷ 128 ∷ 128 ∷ []);
  clkpin = 3;
  datapin = 2;
  begun = true;
  wire = [];
}

two_leds-Wf : Wf two_leds
unfolding bytes_of
two_leds-Wf = (refl, omega arith, λ h. refl)

update_length_lem_example :
    (two_leds.pixels ≡ dangling
      → update_length (λ n. true) 5 two_leds ≡ failed StripError.double_free)
    × (two_leds.pixels ≢ dangling
        → (s' : Lpd8806) × (update_length (λ n. true) 5 two_leds ≡ done s')
          × Wf s'
          × (s'.num_leds ≡ (if true then 5 else 0))
          × (s'.pixels ≡ dangling → ◌≡◌ {A = ℕ} 5 0))
update_length_lem_example = update_length_lem (λ n. true) 5 two_leds
