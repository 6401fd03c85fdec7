-- ===== src/Display/Transitions.antt =====
-- How the modes of the display follow each other.
use oclock.Common.{
  ℕ, ◌+◌, ◌*◌, ◌%◌, ◌^◌, ◌<◌, ◌≡◌, refl, ap, ◌∙◌, Bool, true, false, ltb, ◌==◌, if◌then◌else◌,
  Bool-cases, inl, inr, arith,
}
use oclock.Message.{mode_message_check_timeout}
use oclock.Message.Timeout.{check_lem, next_timeout}
use oclock.Display.Message.{Shown}
use oclock.Display.Steps.{mode_message_check_timeout-repeats}
use oclock.Display.Modes.{
  DisplayMode, nothing, basic_clock, message, Internal, Drawing, Sensed, Dot, next_dot,
  change_display_mode, handler_init, mode_message_1sec, after_message, after_timeout,
}
use oclock.Display.Ticks.{display_tick_1sec, handler_1sec}

-- The dot's places and colors in the order in which it takes them.
abbrev pub dot_index : Dot → ℕ
dot_index d = (d.col * 128 + d.row) * 3 + d.color

pub record IsInMatrix (d : Dot) : Type 0 where
  pub row_bound : d.row < 128
  pub col_bound : d.col < 16
  pub color_bound : d.color < 3

-- While nothing is displayed the dot stays in the matrix and takes the next of its 6144 places and colors, one after
-- another and then from the start, so that it lights every pixel in every color.
pub next_dot_lem :
    (d : Dot)
    → IsInMatrix d
    → IsInMatrix (next_dot d) × (dot_index (next_dot d) ≡ (dot_index d + 1) % 6144)
unfolding next_dot
next_dot_lem d h =
    let r = h.row_bound in
    let c = h.col_bound in
    let k = h.color_bound in
    elim (Bool-cases (ltb (d.color + 1) 3)) [
      | inl e ↦
          rw e (record { row_bound = r; col_bound = c; color_bound = ground arith }, ground arith)
      | inr e ↦ rw e (elim (Bool-cases (ltb (d.row + 1) 128)) [
        | inl f ↦ rw f (
          record { row_bound = ground arith; col_bound = c; color_bound = omega arith },
          ground arith,
        )
        | inr f ↦ rw f (elim (Bool-cases (ltb (d.col + 1) 16)) [
          | inl g ↦ rw g (
            record { row_bound = omega arith; col_bound = ground arith; color_bound = omega arith },
            ground arith,
          )
          | inr g ↦ rw g (
            record { row_bound = omega arith; col_bound = omega arith; color_bound = omega arith },
            ground arith,
          )
        ])
      ])
    ]

module _ {W : Type 0} (drawing : Drawing W) where
  pub change_display_mode-curr_mode :
      (mode : DisplayMode) (s : Internal W) → (change_display_mode drawing mode s).curr_mode ≡ mode
  unfolding change_display_mode handler_init
  change_display_mode-curr_mode nothing s = refl
  change_display_mode-curr_mode basic_clock s = refl
  change_display_mode-curr_mode message s = refl

  after_message-curr_mode :
      (s : Internal W) (m : Shown) (b : Bool)
      → s.curr_mode ≡ message
      → (after_message drawing s (m, b)).curr_mode ≡ (if b then basic_clock else message)
  unfolding after_message
  after_message-curr_mode s m true h =
      change_display_mode-curr_mode basic_clock (record s { shown = m })
  after_message-curr_mode s m false h = h

  after_message-shown :
      (s : Internal W) (m : Shown) (b : Bool)
      → b ≡ false
      → (after_message drawing s (m, b)).shown ≡ m
  unfolding after_message
  after_message-shown s m true h = cc
  after_message-shown s m false h = refl

  handler-curr_mode :
      (e : Sensed) (mode : DisplayMode) (s : Internal W)
      → mode ≡ message
      → s.curr_mode ≡ message
      → s.shown.message.timeout < 2 ^ 32
      → (handler_1sec drawing e mode s).curr_mode
        ≡ (if s.shown.message.timeout == 1 then basic_clock else message)
  unfolding handler_1sec mode_message_1sec after_timeout
  handler-curr_mode e nothing s q h l = cc
  handler-curr_mode e basic_clock s q h l = cc
  handler-curr_mode e message s q h l =
      after_message-curr_mode s
        (record (s.shown) { message = (mode_message_check_timeout s.shown.message).0 })
        (mode_message_check_timeout s.shown.message).1 h
      ∙ ap (λ (b : Bool). if b then basic_clock else message) ((check_lem s.shown.message l).1)

  handler-timeout :
      (e : Sensed) (mode : DisplayMode) (s : Internal W)
      → mode ≡ message
      → s.shown.message.timeout < 2 ^ 32
      → (s.shown.message.timeout == 1) ≡ false
      → (handler_1sec drawing e mode s).shown.message.timeout ≡ next_timeout s.shown.message.timeout
  unfolding handler_1sec mode_message_1sec after_timeout
  handler-timeout e nothing s q l n = cc
  handler-timeout e basic_clock s q l n = cc
  handler-timeout e message s q l n =
      ap (λ (x : Shown). x.message.timeout)
        (after_message-shown s
          (record (s.shown) { message = (mode_message_check_timeout s.shown.message).0 })
          (mode_message_check_timeout s.shown.message).1 ((check_lem s.shown.message l).1 ∙ n))
      ∙ (check_lem s.shown.message l).0

  pub tick-curr_mode :
      (e : Sensed) (s : Internal W)
      → s.curr_mode ≡ message
      → s.shown.message.timeout < 2 ^ 32
      → (display_tick_1sec drawing e s).curr_mode
        ≡ (if s.shown.message.timeout == 1 then basic_clock else message)
  unfolding display_tick_1sec
  tick-curr_mode e s h l =
      handler-curr_mode e s.curr_mode
        (record s { tickers = record (s.tickers) { t1sec = (s.tickers.t1sec + 1) % 256 } }) h h l

  pub tick-timeout :
      (e : Sensed) (s : Internal W)
      → s.curr_mode ≡ message
      → s.shown.message.timeout < 2 ^ 32
      → (s.shown.message.timeout == 1) ≡ false
      → (display_tick_1sec drawing e s).shown.message.timeout ≡ next_timeout s.shown.message.timeout
  unfolding display_tick_1sec
  tick-timeout e s h l n =
      handler-timeout e s.curr_mode
        (record s { tickers = record (s.tickers) { t1sec = (s.tickers.t1sec + 1) % 256 } }) h l n

  handler-repeats :
      (e : Sensed) (mode : DisplayMode) (s : Internal W)
      → mode ≡ message
      → s.shown.message.timeout < 2 ^ 32
      → (s.shown.message.timeout == 1) ≡ false
      → (handler_1sec drawing e mode s).shown.message.repeats ≡ s.shown.message.repeats
  unfolding handler_1sec mode_message_1sec after_timeout
  handler-repeats e nothing s q l n = cc
  handler-repeats e basic_clock s q l n = cc
  handler-repeats e message s q l n =
      ap (λ (x : Shown). x.message.repeats)
        (after_message-shown s
          (record (s.shown) { message = (mode_message_check_timeout s.shown.message).0 })
          (mode_message_check_timeout s.shown.message).1 ((check_lem s.shown.message l).1 ∙ n))
      ∙ mode_message_check_timeout-repeats s.shown.message

  pub tick-repeats :
      (e : Sensed) (s : Internal W)
      → s.curr_mode ≡ message
      → s.shown.message.timeout < 2 ^ 32
      → (s.shown.message.timeout == 1) ≡ false
      → (display_tick_1sec drawing e s).shown.message.repeats ≡ s.shown.message.repeats
  unfolding display_tick_1sec
  tick-repeats e s h l n =
      handler-repeats e s.curr_mode
        (record s { tickers = record (s.tickers) { t1sec = (s.tickers.t1sec + 1) % 256 } }) h l n
