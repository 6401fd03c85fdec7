-- ===== src/LedStrip/Scan.antt =====
-- Where the scan mode's pixel stands.
use oclock.Common.{
  ℕ, zero, suc, ◌+◌, ◌≤◌, ◌<◌, ◌≡◌, ◌⊎◌, inl, inr, refl, sym, ◌∙◌, subst, false, Bool-cases, ◌==◌,
  ==→ne, if◌then◌else◌, arith,
}
use oclock.Common.Int.{ℤ, pos, negsuc, ◌+ℤ◌, ◌-ℤ◌}
use oclock.Lpd8806.{Lpd8806, set_pixel_color, touched, show, emit, delay}
use oclock.LedStrip.{scan_pixel, scan_loop, mode_scan_main, is_at, is_minus_one}

set_pixel_color-num_leds : (n c : ℕ) (s : Lpd8806) → (set_pixel_color n c s).num_leds ≡ s.num_leds
unfolding set_pixel_color touched
set_pixel_color-num_leds n c s = ground arith

show-num_leds : (s : Lpd8806) → (show s).num_leds ≡ s.num_leds
unfolding show emit
show-num_leds s = elim (Bool-cases (s.num_leds == 0)) [
  | inl e ↦ rw (show, e) refl
  | inr e ↦ rw (show, e) refl
]

scan_pixel-num_leds : (c : ℕ) (i : ℤ) (s : Lpd8806) → (scan_pixel c i s).num_leds ≡ s.num_leds
unfolding scan_pixel
scan_pixel-num_leds c i s =
    set_pixel_color-num_leds _ 0 _ ∙ show-num_leds _ ∙ set_pixel_color-num_leds _ c s

-- The position is a pixel of the strip and the step is 1 or -1.
abbrev pub InScan : ℕ → ℤ → ℤ → Type 0
InScan leds i inc = (k : ℕ) × (i ≡ pos k) × (k < leds) × ((inc ≡ pos 1) ⊎ (inc ≡ negsuc 0))

-- The next position of a step to the right and of one to the left.
step_right : (k : ℕ) → pos k +ℤ pos 1 ≡ pos (k + 1)
unfolding ◌+ℤ◌
step_right k = ground arith

step_left : (k : ℕ) → pos (suc k) +ℤ negsuc 0 ≡ pos k
unfolding ◌+ℤ◌
step_left k = ground arith

step_off : pos 0 +ℤ negsuc 0 ≡ negsuc 0
unfolding ◌+ℤ◌
step_off = refl

-- The strip after one visit.
after_visit : ℕ → ℕ → ℤ → Lpd8806 → Lpd8806
after_visit left c i s = if left == 0 then scan_pixel c i s else delay 1 (scan_pixel c i s)

after_visit-num_leds :
    (left c : ℕ) (i : ℤ) (s : Lpd8806) → (after_visit left c i s).num_leds ≡ s.num_leds
unfolding after_visit delay emit
after_visit-num_leds left c i s = elim (Bool-cases (left == 0)) [
  | inl e ↦ rw (after_visit, e) (scan_pixel-num_leds c i s)
  | inr e ↦ rw (after_visit, e) (scan_pixel-num_leds c i s)
]

-- The rest of the loop keeps the scan in range.
RestInScan : ℕ → ℕ → ℕ → Lpd8806 → Type 0
RestInScan leds left c s =
    (i inc : ℤ)
    → InScan leds i inc
    → InScan leds (scan_loop left c i inc s).0 (scan_loop left c i inc s).1

visit_right :
    (left c k : ℕ) (s : Lpd8806)
    → 2 ≤ s.num_leds
    → k < s.num_leds
    → RestInScan s.num_leds left c (after_visit left c (pos k) s)
    → InScan s.num_leds
        (scan_loop (suc left) c (pos k) (pos 1) s).0
        (scan_loop (suc left) c (pos k) (pos 1) s).1
unfolding scan_loop is_minus_one is_at after_visit RestInScan
visit_right left c zero s h l again =
    rw (step_right 0, step_zero s.num_leds h)
      (again (pos 1) (pos 1) (1, refl, omega arith, inl refl))
  where
    step_zero : (n : ℕ) → 2 ≤ n → (1 == n) ≡ false
    step_zero n h = ground arith
visit_right left c (suc k) s h l again = elim (Bool-cases (suc k + 1 == s.num_leds)) [
  | inl e ↦
      rw (step_right (suc k), e, back k) (again (pos k) (negsuc 0) (k, refl, omega arith, inr refl))
  | inr e ↦
      rw (step_right (suc k), e)
        (again (pos (suc k + 1)) (pos 1)
          (suc k + 1, refl, omega (arith, ==→ne (suc k + 1) s.num_leds e), inl refl))
]
  where
    back : (k : ℕ) → pos (suc k + 1) -ℤ pos 2 ≡ pos k
    back k = unfold ◌-ℤ◌ in ground arith

visit_left :
    (left c k : ℕ) (s : Lpd8806)
    → 2 ≤ s.num_leds
    → k < s.num_leds
    → RestInScan s.num_leds left c (after_visit left c (pos k) s)
    → InScan s.num_leds
        (scan_loop (suc left) c (pos k) (negsuc 0) s).0
        (scan_loop (suc left) c (pos k) (negsuc 0) s).1
unfolding scan_loop is_minus_one is_at after_visit RestInScan
visit_left left c zero s h l again = rw step_off (0, refl, omega arith, inl refl)
visit_left left c (suc k) s h l again =
    rw (step_left k, inside k s.num_leds l)
      (again (pos k) (negsuc 0) (k, refl, omega arith, inr refl))
  where
    inside : (k n : ℕ) → suc k < n → (k == n) ≡ false
    inside k n l = ground arith

scan_loop-InScan :
    (left c : ℕ) (i inc : ℤ) (s : Lpd8806)
    → 2 ≤ s.num_leds
    → InScan s.num_leds i inc
    → InScan s.num_leds (scan_loop left c i inc s).0 (scan_loop left c i inc s).1
unfolding scan_loop RestInScan
scan_loop-InScan zero c i inc s h p = p
scan_loop-InScan (suc left) c i inc s h (k, e, l, d) =
    let s' = after_visit left c (pos k) s in
    let same = after_visit-num_leds left c (pos k) s in
    let again : RestInScan s.num_leds left c s' = λ i' inc' q.
      subst (λ n. InScan n (scan_loop left c i' inc' s').0 (scan_loop left c i' inc' s').1) same
        (scan_loop-InScan left c i' inc' s' (omega (arith, h, same))
          (subst (λ n. InScan n i' inc') (sym same) q)) in
    subst
      (λ x. InScan s.num_leds (scan_loop (suc left) c x inc s).0 (scan_loop (suc left) c x inc s).1)
      (sym e)
      (elim d [
        | inl f ↦
            subst
              (λ y.
                InScan s.num_leds (scan_loop (suc left) c (pos k) y s).0
                  (scan_loop (suc left) c (pos k) y s).1)
              (sym f) (visit_right left c k s h l again)
        | inr f ↦
            subst
              (λ y.
                InScan s.num_leds (scan_loop (suc left) c (pos k) y s).0
                  (scan_loop (suc left) c (pos k) y s).1)
              (sym f) (visit_left left c k s h l again)
      ])

-- On a strip of two LEDs or more a frame of the scan that starts at a pixel of the strip, with the step 1
-- or -1, ends so, whatever the color: the position never leaves the strip.
pub mode_scan_main_lem :
    (c : ℕ) (i inc : ℤ) (s : Lpd8806)
    → 2 ≤ s.num_leds
    → InScan s.num_leds i inc
    → InScan s.num_leds (mode_scan_main c i inc s).0 (mode_scan_main c i inc s).1
unfolding mode_scan_main
mode_scan_main_lem c i inc s h p = scan_loop-InScan 12 c i inc s h p
