-- ===== src/Display/Steps.antt =====
-- What the steps of a message keep of it: its timeout, and repeating forever.
use oclock.Common.{
  ℕ, ◌+◌, ◌-◌, ◌*◌, ◌%◌, ◌^◌, ◌≡◌, refl, ◌∙◌, Bool, true, false, not, ◌&&◌, ◌==◌, Bool-cases, inl,
  inr,
}
use oclock.Common.Int.{ℤ, pos, negsuc, ◌+ℤ◌, ltb_ℤ, leb_ℤ, eq_ℤ, is_negative, ◌-ℤ◌}
use oclock.Common.Str.{Str}
use oclock.Ht1632.{com_size, out_size}
use oclock.Message.{
  ModeMessageData, mode_message_check_blink, mode_message_check_timeout, forever, get_font_height,
}
use oclock.Display.Message.{
  increment_y_scale, Shown, alternate, count_repeats, with_effect, text_wrap, bounce, after_wrap,
  mode_message_move,
}

-- What a step of the message keeps: the timeout and repeating forever.
abbrev pub Kept : ModeMessageData → ModeMessageData → Type 0
Kept m n = (n.timeout ≡ m.timeout) × (m.repeats ≡ negsuc 0 → n.repeats ≡ negsuc 0)

-- A step that may complete the message, though not one that is repeated forever.
abbrev pub Stepped : ModeMessageData → Shown × Bool → Type 0
Stepped m (s, b) = Kept m s.message × (m.repeats ≡ negsuc 0 → b ≡ false)

alternate-Kept : (tw : Str → ℕ → ℤ) (m : ModeMessageData) → Kept m (alternate tw m)
unfolding alternate
alternate-Kept tw m = elim (Bool-cases m.alternate_font) [
  | inl e ↦ rw e (refl, λ h. h)
  | inr e ↦ rw e (refl, λ h. h)
]

is_forever : (z : ℤ) → z ≡ negsuc 0 → eq_ℤ z (negsuc 0) ≡ true
is_forever z e = rw e refl

count_repeats-Stepped :
    (effect : ℕ) (m : ModeMessageData) → Stepped m (with_effect effect (count_repeats m))
unfolding with_effect count_repeats
count_repeats-Stepped effect m = elim (Bool-cases (eq_ℤ m.repeats (negsuc 0))) [
  | inl e ↦ rw e ((refl, λ h. h), λ h. refl)
  | inr e ↦ elim (Bool-cases (is_negative (m.repeats -ℤ pos 1))) [
    | inl f ↦ rw (e, f) ((refl, λ h. refl), λ h. absurd (no m.repeats e h))
    | inr f ↦ rw (e, f) ((refl, λ h. absurd (no m.repeats e h)), λ h. absurd (no m.repeats e h))
  ]
]
  where
    no : (z : ℤ) → eq_ℤ z (negsuc 0) ≡ false → z ≡ negsuc 0 → ⊥
    no z e h = let t = is_forever z h in cc

join : (m n : ModeMessageData) (r : Shown × Bool) → Kept m n → Stepped n r → Stepped m r
join m n (s, b) k t = ((t.0.0 ∙ k.0, λ h. t.0.1 (k.1 h)), λ h. t.1 (k.1 h))

text_wrap-Stepped : (tw : Str → ℕ → ℤ) (s : Shown) → Stepped s.message (text_wrap tw s)
unfolding text_wrap
text_wrap-Stepped tw s = elim (Bool-cases (not s.message.increment_x)) [
  | inl e ↦ rw e ((refl, λ h. h), λ h. refl)
  | inr e ↦ elim (Bool-cases (ltb_ℤ (s.message.curr_x +ℤ pos 1) (s.message.wd +ℤ pos out_size))) [
    | inl f ↦ rw (e, f) ((refl, λ h. h), λ h. refl)
    | inr f ↦
        let m = record (s.message) { curr_x = pos 0 } in
        rw (e, f)
          (join s.message (alternate tw m)
            (with_effect (s.color_effect + 1) (count_repeats (alternate tw m)))
            (alternate-Kept tw m) (count_repeats-Stepped (s.color_effect + 1) (alternate tw m)))
  ]
]

bounce-Kept : (s : Shown) → Kept s.message (bounce s).message
unfolding bounce
bounce-Kept s =
    let m = s.message in
    let y = m.curr_y_factor +ℤ m.increment_y in
    elim (Bool-cases (eq_ℤ m.increment_y (pos 0))) [
      | inl e ↦ rw e (refl, λ h. h)
      | inr e ↦ elim (Bool-cases (ltb_ℤ m.increment_y (pos 0) && ltb_ℤ y (pos 0))) [
        | inl f ↦ rw (e, f) (refl, λ h. h)
        | inr f ↦
            elim (Bool-cases (
              ltb_ℤ (pos 0) m.increment_y
              && leb_ℤ (pos ((com_size - get_font_height m.font) * increment_y_scale)) y)) [
                | inl g ↦ elim (Bool-cases m.increment_x) [
                  | inl k ↦ rw (e, f, g, k) (refl, λ h. h)
                  | inr k ↦ elim (Bool-cases m.alternate_font) [
                    | inl l ↦ rw (e, f, g, k, l) (refl, λ h. h)
                    | inr l ↦ rw (e, f, g, k, l) (refl, λ h. h)
                  ]
                ]
                | inr g ↦ rw (e, f, g) (refl, λ h. h)
              ]
      ]
    ]

after_wrap-Stepped :
    (m : ModeMessageData) (r : Shown × Bool) → Stepped m r → Stepped m (after_wrap r)
unfolding after_wrap
after_wrap-Stepped m (s, true) h = h
after_wrap-Stepped m (s, false) h =
    let k = bounce-Kept s in ((k.0 ∙ h.0.0, λ r. k.1 (h.0.1 r)), λ r. refl)

pub mode_message_move-Stepped :
    (tw : Str → ℕ → ℤ) (s : Shown) → Stepped s.message (mode_message_move tw s)
unfolding mode_message_move
mode_message_move-Stepped tw s =
    after_wrap-Stepped s.message (text_wrap tw s) (text_wrap-Stepped tw s)

pub mode_message_check_blink-Kept : (m : ModeMessageData) → Kept m (mode_message_check_blink m)
unfolding mode_message_check_blink
mode_message_check_blink-Kept m = elim (Bool-cases m.blink) [
  | inl e ↦ rw e (refl, λ h. h)
  | inr e ↦ rw e (refl, λ h. h)
]

-- A check of the timeout does not touch the repeats.
pub mode_message_check_timeout-repeats :
    (m : ModeMessageData) → (mode_message_check_timeout m).0.repeats ≡ m.repeats
unfolding mode_message_check_timeout
mode_message_check_timeout-repeats m = elim (Bool-cases (m.timeout == forever)) [
  | inl e ↦ rw e refl
  | inr e ↦ elim (Bool-cases ((m.timeout + forever) % 2 ^ 32 == 0)) [
    | inl f ↦ rw (e, f) refl
    | inr f ↦ rw (e, f) refl
  ]
]
