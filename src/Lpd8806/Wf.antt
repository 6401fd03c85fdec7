-- ===== src/Lpd8806/Wf.antt =====
-- Every operation on the pixels keeps the block well-formed.
use oclock.Common.{
  ℕ, zero, suc, ◌+◌, ◌*◌, ◌%◌, ◌/◌, bit_or, ◌≡◌, ◌≢◌, refl, ap, ◌∙◌, List, [], ◌∷◌, Bool,
  Bool-cases, inl, inr, false, ltb, if◌then◌else◌, ◌==◌, length, set, All, replicate, length-set,
  length-replicate, arith,
}
use oclock.Lpd8806.{
  Lpd8806, PixelMemory, store3, touched, set_pixel_color, null, allocated, dangling, bytes_of,
  set_pixel_rgb, clear_pixel_colors, fill_memory, update_length, free_pixels, after_free,
  allocate_pixels, StripError, done, failed,
}
use oclock.Common.Bits.{u8_or_128}
use oclock.Lpd8806.Pixels.{Wf, IsMarked}

All-set : (xs : List ℕ) (i v : ℕ) → IsMarked v → All IsMarked xs → All IsMarked (set xs i v)
All-set [] i v h a = a
All-set (x ∷ xs) zero v h a = (h, a.1)
All-set (x ∷ xs) (suc i) v h a = (a.0, All-set xs i v h a.1)

All-off : (n : ℕ) → All IsMarked (replicate n 128)
All-off zero = tt
All-off (suc n) = (omega arith, All-off n)

dangling_ne_allocated : (bs : List ℕ) → allocated bs ≢ dangling
dangling_ne_allocated bs e = cc

allocate_pixels-Wf :
    (malloc : ℕ → Bool) (n : ℕ) (m : PixelMemory) (s : Lpd8806)
    → bytes_of m ≡ []
    → let s' = allocate_pixels malloc n m s in
      Wf s' × (s'.num_leds ≡ (if malloc (n * 3) then n else 0))
unfolding allocate_pixels bytes_of
allocate_pixels-Wf malloc zero m s h = elim (Bool-cases (malloc 0)) [
  | inl e ↦ ((rw h refl, rw h tt, λ k. absurd (k refl)), rw e refl)
  | inr e ↦ ((rw h refl, rw h tt, λ k. absurd (k refl)), rw e refl)
]
allocate_pixels-Wf malloc (suc n) m s h = elim (Bool-cases (malloc (suc n * 3))) [
  | inl e ↦ rw e ((length-replicate (suc n * 3) 128, All-off (suc n * 3), λ k. refl), refl)
  | inr e ↦ rw e ((refl, tt, λ k. absurd (k refl)), refl)
]

allocate_pixels-dangling :
    (malloc : ℕ → Bool) (n : ℕ) (m : PixelMemory) (s : Lpd8806)
    → (allocate_pixels malloc n m s).pixels ≡ dangling
    → n ≡ 0
unfolding allocate_pixels
allocate_pixels-dangling malloc zero m s = λ h. refl
allocate_pixels-dangling malloc (suc n) m s = elim (Bool-cases (malloc (suc n * 3))) [
  | inl e ↦ rw e (λ k. cc)
  | inr e ↦ rw e (λ k. cc)
]

-- A change of the length of a strip whose block is not freed already succeeds whatever the
-- allocator answers, and leaves a well-formed strip, of the wanted length if the allocation
-- succeeds and of none if it fails; a pointer to the block that was freed is left only by
-- a change to no LEDs. With a block that is freed already it frees it twice.
pub update_length_lem :
    (malloc : ℕ → Bool) (n : ℕ) (s : Lpd8806)
    → (s.pixels ≡ dangling → update_length malloc n s ≡ failed StripError.double_free)
      × (s.pixels ≢ dangling
          → (s' : Lpd8806) × (update_length malloc n s ≡ done s')
            × Wf s'
            × (s'.num_leds ≡ (if malloc (n * 3) then n else 0))
            × (s'.pixels ≡ dangling → n ≡ 0))
unfolding update_length free_pixels bytes_of after_free
update_length_lem malloc n s = go s.pixels refl
  where
    go :
        (m : PixelMemory)
        → s.pixels ≡ m
        → (s.pixels ≡ dangling → update_length malloc n s ≡ failed StripError.double_free)
          × (s.pixels ≢ dangling
              → (s' : Lpd8806) × (update_length malloc n s ≡ done s')
                × Wf s'
                × (s'.num_leds ≡ (if malloc (n * 3) then n else 0))
                × (s'.pixels ≡ dangling → n ≡ 0))
    go null e = (
      λ k. cc,
      λ k. (
        allocate_pixels malloc n null s,
        ap (λ m. after_free malloc n s (free_pixels m)) e,
        (allocate_pixels-Wf malloc n null s refl).0,
        (allocate_pixels-Wf malloc n null s refl).1,
        allocate_pixels-dangling malloc n null s,
      ),
    )
    go (allocated bs) e = (
      λ k. cc,
      λ k. (
        allocate_pixels malloc n dangling s,
        ap (λ m. after_free malloc n s (free_pixels m)) e,
        (allocate_pixels-Wf malloc n dangling s refl).0,
        (allocate_pixels-Wf malloc n dangling s refl).1,
        allocate_pixels-dangling malloc n dangling s,
      ),
    )
    go dangling e = (λ k. ap (λ m. after_free malloc n s (free_pixels m)) e, λ k. absurd (k e))

-- The well-formedness, by its parts.
abbrev WfParts : ℕ → PixelMemory → Type 0
WfParts leds m =
    (length (bytes_of m) ≡ leds * 3)
    × All IsMarked (bytes_of m)
    × (leds ≢ 0 → m ≡ allocated (bytes_of m))

store3-Wf :
    (leds i x y z : ℕ) (m : PixelMemory)
    → IsMarked x
    → IsMarked y
    → IsMarked z
    → WfParts leds m
    → WfParts leds (store3 i x y z m)
unfolding store3 bytes_of
store3-Wf leds i x y z null p q r w = w
store3-Wf leds i x y z (allocated bs) p q r w = (
  length-set (set (set bs i x) (i + 1) y) (i + 2) z
      ∙ length-set (set bs i x) (i + 1) y
      ∙ length-set bs i x
      ∙ w.0,
  All-set _ (i + 2) z r (All-set _ (i + 1) y q (All-set bs i x p w.1)),
  λ k. refl,
)
store3-Wf leds i x y z dangling p q r w = w

touched-Wf : (n : ℕ) (s : Lpd8806) → Wf s → Wf (touched n s)
unfolding touched
touched-Wf n s w = elim (Bool-cases (ltb s.largest_changed_led n)) [
  | inl e ↦ rw e w
  | inr e ↦ rw e w
]

IsMarked-byte : (x : ℕ) → IsMarked (bit_or x 128 % 256)
IsMarked-byte x = rw (u8_or_128 x) (omega arith)

set_bytes-Wf :
    (n x y z : ℕ) (s : Lpd8806)
    → IsMarked x
    → IsMarked y
    → IsMarked z
    → Wf s
    → Wf (touched n (record s { pixels = store3 (n * 3) x y z s.pixels }))
set_bytes-Wf n x y z s p q r w =
    touched-Wf n _ (store3-Wf s.num_leds (n * 3) x y z s.pixels p q r w)

fill_memory-Wf :
    (leds : ℕ) (m : PixelMemory) → WfParts leds m → WfParts leds (fill_memory (leds * 3) m)
unfolding fill_memory bytes_of
fill_memory-Wf leds null w = w
fill_memory-Wf leds (allocated bs) w =
    (length-replicate (leds * 3) 128, All-off (leds * 3), λ k. refl)
fill_memory-Wf leds dangling w = w

-- Setting a pixel by its components or by its word and clearing all pixels keep a strip
-- well-formed, for every index and every value.
pub stores-Wf :
    (n r g b c : ℕ) (s : Lpd8806)
    → Wf s
    → Wf (set_pixel_rgb n r g b s) × Wf (set_pixel_color n c s) × Wf (clear_pixel_colors s)
unfolding set_pixel_rgb set_pixel_color clear_pixel_colors
stores-Wf n r g b c s w = (by_components, by_word, cleared)
  where
    by_components : Wf (set_pixel_rgb n r g b s)
    by_components = elim (Bool-cases (ltb n s.num_leds)) [
      | inl e ↦
          rw (set_pixel_rgb, e)
            (set_bytes-Wf n _ _ _ s (IsMarked-byte g) (IsMarked-byte r) (IsMarked-byte b) w)
      | inr e ↦ rw (set_pixel_rgb, e) w
    ]

    by_word : Wf (set_pixel_color n c s)
    by_word = elim (Bool-cases (ltb n s.num_leds)) [
      | inl e ↦
          rw (set_pixel_color, e)
            (set_bytes-Wf n _ _ _ s (IsMarked-byte (c / 65536)) (IsMarked-byte (c / 256))
              (IsMarked-byte c) w)
      | inr e ↦ rw (set_pixel_color, e) w
    ]

    nonempty :
        (m : PixelMemory) → s.pixels ≡ m → (s.num_leds == 0) ≡ false → Wf (clear_pixel_colors s)
    nonempty null e h = rw (clear_pixel_colors, h, e) w
    nonempty (allocated bs) e h =
        rw (clear_pixel_colors, h, e) (fill_memory-Wf s.num_leds s.pixels w)
    nonempty dangling e h = rw (clear_pixel_colors, h, e) (fill_memory-Wf s.num_leds s.pixels w)

    cleared : Wf (clear_pixel_colors s)
    cleared = elim (Bool-cases (s.num_leds == 0)) [
      | inl e ↦ rw (clear_pixel_colors, e) w
      | inr e ↦ nonempty s.pixels refl e
    ]
