-- ===== src/Display/Lasting.antt =====
-- How long a message stays on the matrix, under all ticks of the thread's loop.
use oclock.Common.{
  ℕ, suc, ◌+◌, ◌^◌, ◌<◌, ◌≡◌, ◌≢◌, refl, sym, ap, subst, ◌∙◌, List, [], ◌∷◌, Bool, true, false, not,
  ◌&&◌, ◌||◌, ◌⊎◌, ltb, ◌==◌, if◌then◌else◌, Option, none, some, Bool-cases, inl, inr, arith,
}
use oclock.Common.Int.{negsuc}
use oclock.Common.Str.{Str}
use oclock.MotionSensor.{get_motion_value}
use oclock.Message.{forever}
use oclock.Message.Timeout.{next_timeout}
use oclock.Display.Message.{Shown, mode_message_move}
use oclock.Display.Steps.{Stepped, mode_message_move-Stepped, mode_message_check_blink-Kept}
use oclock.Display.Thread.{Expired, ticks}
use oclock.Display.Modes.{
  DisplayMode, nothing, basic_clock, message, Internal, Drawing, Sensed, is_message, is_idle,
  change_display_mode, after_message, mode_message_fast, mode_nothing_check_motion,
  mode_basic_clock_fast, check_ht1632,
}
use oclock.Display.Ticks.{
  handler_fast, handler_250ms, handler_500ms, handler_1sec, handler_10sec, tick_500ms,
  display_tick_fast, display_tick_100ms, display_tick_250ms, display_tick_500ms, display_tick_1sec,
  display_tick_5sec, display_tick_10sec, internal_methods,
}
use oclock.Display.Transitions.{
  change_display_mode-curr_mode, tick-curr_mode, tick-timeout, tick-repeats,
}

abbrev Off : {W : Type 0} → Internal W → Type 0
Off s = is_message s.curr_mode ≡ false

-- A message with so many seconds left; if `r`, one that is repeated forever.
abbrev On : {W : Type 0} → Bool → ℕ → Internal W → Type 0
On r t s =
    (s.curr_mode ≡ message)
    × (s.shown.message.timeout ≡ t)
    × (r ≡ true → s.shown.message.repeats ≡ negsuc 0)

-- Where `some` seconds are left the message may be over only if its repeats count.
abbrev State : {W : Type 0} → Bool → Option ℕ → Internal W → Type 0
State r none s = Off s
State r (some t) s = On r t s ⊎ ((r ≡ false) × Off s)

abbrev Quiet : {W : Type 0} → (Internal W → Internal W) → Type 0
Quiet {W} f = (r : Bool) (o : Option ℕ) (s : Internal W) → State r o s → State r o (f s)

is_off :
    (mode other : DisplayMode) → mode ≡ other → is_message other ≡ false → is_message mode ≡ false
is_off mode other e h = ap is_message e ∙ h

not_message : (mode : DisplayMode) → is_message mode ≡ false → mode ≢ message
unfolding is_message
not_message mode h e = let k : is_message mode ≡ true = ap is_message e in cc

quiet :
    {W : Type 0} (f : Internal W → Internal W)
    → ((s : Internal W) → Off s → Off (f s))
    → ((r : Bool) (t : ℕ) (s : Internal W) → On r t s → State r (some t) (f s))
    → Quiet f
quiet f off on r none s h = off s h
quiet f off on r (some t) s (inl h) = on r t s h
quiet f off on r (some t) s (inr h) = inr (h.0, off s h.1)

Quiet-if :
    {W : Type 0} (b : Bool) (f : Internal W → Internal W)
    → Quiet f
    → Quiet (λ s. if b then f s else s)
Quiet-if true f q r o s h = q r o s h
Quiet-if false f q r o s h = h

module _ {W : Type 0} (drawing : Drawing W) where
  changed-Off :
      (mode : DisplayMode) (s : Internal W)
      → is_message mode ≡ false
      → Off (change_display_mode drawing mode s)
  changed-Off mode s h = is_off _ mode (change_display_mode-curr_mode drawing mode s) h

  after_message-State :
      (r : Bool) (t : ℕ) (s : Internal W) (p : Shown × Bool)
      → On r t s
      → Stepped s.shown.message p
      → State r (some t) (after_message drawing s p)
  unfolding after_message is_message
  after_message-State r t s (m, false) h k = inl (h.0, k.0.0 ∙ h.1, λ e. k.0.1 (h.2 e))
  after_message-State r t s (m, true) h k = elim (Bool-cases r) [
    | inl e ↦ let c : true ≡ false = k.1 (h.2 e) in cc
    | inr e ↦ inr (e, changed-Off basic_clock (record s { shown = m }) refl)
  ]

  fast-Off :
      (mode : DisplayMode) (s : Internal W)
      → is_message mode ≡ false
      → Off s
      → Off (handler_fast drawing mode s)
  unfolding handler_fast is_message
  fast-Off nothing s k h = h
  fast-Off basic_clock s k h = h
  fast-Off message s k h = cc

  fast-On :
      (mode : DisplayMode) (r : Bool) (t : ℕ) (s : Internal W)
      → mode ≡ message
      → On r t s
      → State r (some t) (handler_fast drawing mode s)
  unfolding handler_fast mode_message_fast
  fast-On nothing r t s k h = cc
  fast-On basic_clock r t s k h = cc
  fast-On message r t s k h =
      after_message-State r t
        (record s { matrix = drawing.message_frame s.shown s.slots s.tickers s.matrix })
        (mode_message_move drawing.text_width s.shown) h
        (mode_message_move-Stepped drawing.text_width s.shown)

  fast-Quiet : Quiet (display_tick_fast drawing)
  unfolding display_tick_fast
  fast-Quiet =
      quiet (display_tick_fast drawing) (λ s h. fast-Off s.curr_mode _ h h)
        (λ r t s h. fast-On s.curr_mode r t _ h.0 h)

  blink-Off :
      (mode : DisplayMode) (s : Internal W)
      → is_message mode ≡ false
      → Off s
      → Off (handler_250ms drawing mode s)
  unfolding handler_250ms is_message
  blink-Off nothing s k h = h
  blink-Off basic_clock s k h = h
  blink-Off message s k h = cc

  blink-On :
      (mode : DisplayMode) (r : Bool) (t : ℕ) (s : Internal W)
      → mode ≡ message
      → On r t s
      → State r (some t) (handler_250ms drawing mode s)
  unfolding handler_250ms
  blink-On nothing r t s k h = cc
  blink-On basic_clock r t s k h = cc
  blink-On message r t s k h =
      let b = mode_message_check_blink-Kept s.shown.message in
      inl (h.0, b.0 ∙ h.1, λ e. b.1 (h.2 e))

  blink-Quiet : Quiet (display_tick_250ms drawing)
  unfolding display_tick_250ms
  blink-Quiet =
      quiet (display_tick_250ms drawing) (λ s h. blink-Off s.curr_mode _ h h)
        (λ r t s h. blink-On s.curr_mode r t _ h.0 h)

  check-Off : (s : Internal W) → Off s → Off (check_ht1632 drawing s)
  unfolding check_ht1632
  check-Off s h = elim (Bool-cases (ltb (s.check_count + 1) 13 && not (is_message s.curr_mode))) [
    | inl e ↦ rw e h
    | inr e ↦ rw e h
  ]

  check-On :
      (r : Bool) (t : ℕ) (s : Internal W) → On r t s → State r (some t) (check_ht1632 drawing s)
  unfolding check_ht1632
  check-On r t s h =
      elim (Bool-cases (ltb (s.check_count + 1) 13 && not (is_message s.curr_mode))) [
        | inl e ↦ rw e (inl h)
        | inr e ↦ rw e (inl h)
      ]

  clock-Off : (e : Sensed) (s : Internal W) → Off s → Off (mode_basic_clock_fast drawing e s)
  unfolding mode_basic_clock_fast is_message
  clock-Off e s h = elim (Bool-cases (is_idle (get_motion_value e.motion_sensor).1)) [
    | inl k ↦ rw k (changed-Off nothing s refl)
    | inr k ↦ rw k h
  ]

  half-Off :
      (e : Sensed) (mode : DisplayMode) (s : Internal W)
      → is_message mode ≡ false
      → Off s
      → Off (handler_500ms drawing e mode s)
  unfolding handler_500ms is_message
  half-Off e nothing s k h = h
  half-Off e basic_clock s k h = clock-Off e s h
  half-Off e message s k h = cc

  half-On :
      (e : Sensed) (mode : DisplayMode) (r : Bool) (t : ℕ) (s : Internal W)
      → mode ≡ message
      → On r t s
      → State r (some t) (handler_500ms drawing e mode s)
  unfolding handler_500ms
  half-On e nothing r t s k h = cc
  half-On e basic_clock r t s k h = cc
  half-On e message r t s k h = inl h

  half-Quiet : (e : Sensed) → Quiet (display_tick_500ms drawing e)
  unfolding display_tick_500ms tick_500ms
  half-Quiet e r o s h =
      quiet (tick_500ms drawing e) (λ s h. half-Off e s.curr_mode _ h h)
        (λ r t s h. half-On e s.curr_mode r t _ h.0 h) r o (check_ht1632 drawing s)
        (quiet (check_ht1632 drawing) check-Off check-On r o s h)

  ten-Off :
      (mode : DisplayMode) (s : Internal W)
      → is_message mode ≡ false
      → Off s
      → Off (handler_10sec drawing mode s)
  unfolding handler_10sec is_message
  ten-Off nothing s k h = h
  ten-Off basic_clock s k h = h
  ten-Off message s k h = cc

  ten-On :
      (mode : DisplayMode) (r : Bool) (t : ℕ) (s : Internal W)
      → mode ≡ message
      → On r t s
      → State r (some t) (handler_10sec drawing mode s)
  unfolding handler_10sec
  ten-On nothing r t s k h = cc
  ten-On basic_clock r t s k h = cc
  ten-On message r t s k h = inl h

  ten-Quiet : Quiet (display_tick_10sec drawing)
  unfolding display_tick_10sec
  ten-Quiet =
      quiet (display_tick_10sec drawing) (λ s h. ten-Off s.curr_mode _ h h)
        (λ r t s h. ten-On s.curr_mode r t _ h.0 h)

  tenth-Quiet : Quiet (display_tick_100ms drawing)
  unfolding display_tick_100ms
  tenth-Quiet = quiet (display_tick_100ms drawing) (λ s h. h) (λ r t s h. inl h)

  five-Quiet : Quiet (display_tick_5sec drawing)
  unfolding display_tick_5sec
  five-Quiet = quiet (display_tick_5sec drawing) (λ s h. h) (λ r t s h. inl h)

  motion-Off : (e : Sensed) (s : Internal W) → Off s → Off (mode_nothing_check_motion drawing e s)
  unfolding mode_nothing_check_motion is_message
  motion-Off e s h = elim (Bool-cases ((get_motion_value e.motion_sensor).0)) [
    | inl k ↦ rw k (changed-Off basic_clock s refl)
    | inr k ↦ rw k h
  ]

  second-Off :
      (e : Sensed) (mode : DisplayMode) (s : Internal W)
      → is_message mode ≡ false
      → Off s
      → Off (handler_1sec drawing e mode s)
  unfolding handler_1sec is_message
  second-Off e nothing s k h = motion-Off e s h
  second-Off e basic_clock s k h = h
  second-Off e message s k h = cc

  tick-Off : (e : Sensed) (s : Internal W) → Off s → Off (display_tick_1sec drawing e s)
  unfolding display_tick_1sec
  tick-Off e s h = second-Off e s.curr_mode _ h h

-- The seconds left behind a tick by the second.
abbrev next : Option ℕ → Option ℕ
next none = none
next (some t) = if t == 1 then none else some (next_timeout t)

next-last : (t : ℕ) → (t == 1) ≡ true → next (some t) ≡ none
next-last t e = ap (λ (b : Bool). if b then none else some (next_timeout t)) e

next-more : (t : ℕ) → (t == 1) ≡ false → next (some t) ≡ some (next_timeout t)
next-more t e = ap (λ (b : Bool). if b then none else some (next_timeout t)) e

abbrev IsSmall : Option ℕ → Type 0
IsSmall none = Unit
IsSmall (some t) = t < 2 ^ 32

next-IsSmall : (o : Option ℕ) → IsSmall o → IsSmall (next o)
next-IsSmall none h = tt
next-IsSmall (some t) h = elim (Bool-cases (t == 1)) [
  | inl e ↦ subst IsSmall (sym (next-last t e)) tt
  | inr e ↦ subst IsSmall (sym (next-more t e)) (small t h)
]
  where
    small : (t : ℕ) → t < 2 ^ 32 → next_timeout t < 2 ^ 32
    small t h = ground arith

over : {W : Type 0} (r : Bool) (o : Option ℕ) (s : Internal W) → r ≡ false → Off s → State r o s
over r none s e h = h
over r (some t) s e h = inr (e, h)

module _ {W : Type 0} (drawing : Drawing W) where
  second-On :
      (e : Sensed) (r : Bool) (t : ℕ) (s : Internal W)
      → t < 2 ^ 32
      → On r t s
      → State r (next (some t)) (display_tick_1sec drawing e s)
  unfolding is_message
  second-On e r t s l h =
      let small = subst (λ (n : ℕ). n < 2 ^ 32) (sym (h.1)) l in
      let mode = tick-curr_mode drawing e s h.0 small in
      let to = λ (o : Option ℕ). State r o (display_tick_1sec drawing e s) in
      elim (Bool-cases (t == 1)) [
        | inl q ↦
            subst to (sym (next-last t q)) (is_off _ basic_clock (mode ∙ rw (h.1, q) refl) refl)
        | inr q ↦
            let n : (s.shown.message.timeout == 1) ≡ false = ap (λ (x : ℕ). x == 1) (h.1) ∙ q in
            subst to (sym (next-more t q)) (
              inl (
                mode ∙ rw n refl,
                tick-timeout drawing e s h.0 small n ∙ ap next_timeout (h.1),
                λ f. tick-repeats drawing e s h.0 small n ∙ h.2 f,
              ))
      ]

  second-State :
      (e : Sensed) (r : Bool) (o : Option ℕ) (s : Internal W)
      → IsSmall o
      → State r o s
      → State r (next o) (display_tick_1sec drawing e s)
  second-State e r none s l h = tick-Off drawing e s h
  second-State e r (some t) s l (inl h) = second-On e r t s l h
  second-State e r (some t) s l (inr h) =
      over r (next (some t)) (display_tick_1sec drawing e s) h.0 (tick-Off drawing e s h.1)

  second_if :
      (b : Bool) (e : Sensed) (r : Bool) (o : Option ℕ) (s : Internal W)
      → IsSmall o
      → State r o s
      → State r (if b then next o else o) (if b then display_tick_1sec drawing e s else s)
  second_if true e r o s l h = second-State e r o s l h
  second_if false e r o s l h = h

  -- The passes of the loop, each with what it senses and with the timers that expired, while no request comes.
  unfoldable pub loop_passes : (Str → Str) → ℕ → List (Sensed × Expired) → Internal W → Internal W
  unfolding ticks internal_methods
  loop_passes lookup random [] s = s
  loop_passes lookup random ((e, x) ∷ ps) s =
      loop_passes lookup random ps (ticks (internal_methods drawing e lookup random) x s)

  pass-State :
      (lookup : Str → Str) (random : ℕ) (e : Sensed) (x : Expired) (r : Bool) (o : Option ℕ)
      (s : Internal W)
      → IsSmall o
      → State r o s
      → State r
          (if x.after_1sec then next o else o)
          (ticks (internal_methods drawing e lookup random) x s)
  unfolding ticks internal_methods
  pass-State lookup random e x r o s l h =
      let n = if x.after_1sec then next o else o in
      Quiet-if x.after_1min (λ s. s) (λ r o s h. h) r n _
        (Quiet-if x.after_25sec (λ s. s) (λ r o s h. h) r n _
          (Quiet-if x.after_10sec (display_tick_10sec drawing) (ten-Quiet drawing) r n _ (
            Quiet-if x.after_5sec (display_tick_5sec drawing) (five-Quiet drawing) r n _ (
              second_if x.after_1sec e r o _ l (
                Quiet-if x.after_500ms (display_tick_500ms drawing e) (half-Quiet drawing e) r o _ (
                  Quiet-if x.after_250ms (display_tick_250ms drawing) (blink-Quiet drawing) r o _ (
                    Quiet-if x.after_100ms (display_tick_100ms drawing) (tenth-Quiet drawing) r o _
                      (fast-Quiet drawing r o s h))))))))

abbrev left : List (Sensed × Expired) → Option ℕ → Option ℕ
left [] o = o
left ((e, x) ∷ ps) o = left ps (if x.after_1sec then next o else o)

-- How many of the passes had a tick by the second.
unfoldable pub seconds : List (Sensed × Expired) → ℕ
seconds [] = 0
seconds ((e, x) ∷ ps) = let rest = seconds ps in if x.after_1sec then suc rest else rest

-- Whether a timeout is over behind so many seconds; one of 0 wraps around.
abbrev pub is_over : ℕ → ℕ → Bool
is_over timeout k = not (timeout == forever || (timeout == 0 || ltb k timeout))

abbrev is_none : Option ℕ → Bool
is_none none = true
is_none (some n) = false

left-none : (ps : List (Sensed × Expired)) → left ps none ≡ none
left-none [] = refl
left-none ((e, x) ∷ ps) = elim (Bool-cases x.after_1sec) [
  | inl h ↦ rw h (left-none ps)
  | inr h ↦ rw h (left-none ps)
]

over_last : (t k : ℕ) → (t == 1) ≡ true → true ≡ is_over t (suc k)
over_last t k h = ground arith

over_more :
    (t k : ℕ) → t < 2 ^ 32 → (t == 1) ≡ false → is_over (next_timeout t) k ≡ is_over t (suc k)
over_more t k l h = ground arith

over_start : (t : ℕ) → false ≡ is_over t 0
over_start t = ground arith

left-is_over :
    (ps : List (Sensed × Expired)) (t : ℕ)
    → t < 2 ^ 32
    → is_none (left ps (some t)) ≡ is_over t (seconds ps)
unfolding seconds
left-is_over [] t l = over_start t
left-is_over ((e, x) ∷ ps) t l = elim (Bool-cases x.after_1sec) [
  | inr h ↦ rw h (left-is_over ps t l)
  | inl h ↦ elim (Bool-cases (t == 1)) [
    | inl q ↦
        ap (λ (b : Bool). is_none (left ps (if b then next (some t) else some t))) h
        ∙ ap (λ (o : Option ℕ). is_none (left ps o)) (next-last t q)
        ∙ ap is_none (left-none ps)
        ∙ over_last t (seconds ps) q
        ∙ ap (λ (b : Bool). is_over t (if b then suc (seconds ps) else seconds ps)) (sym h)
    | inr q ↦
        ap (λ (b : Bool). is_none (left ps (if b then next (some t) else some t))) h
        ∙ ap (λ (o : Option ℕ). is_none (left ps o)) (next-more t q)
        ∙ left-is_over ps (next_timeout t) (subst IsSmall (next-more t q) (next-IsSmall (some t) l))
        ∙ over_more t (seconds ps) l q
        ∙ ap (λ (b : Bool). is_over t (if b then suc (seconds ps) else seconds ps)) (sym h)
  ]
]

is_over-Off :
    {W : Type 0} (r : Bool) (o : Option ℕ) (s : Internal W)
    → State r o s
    → is_none o ≡ true
    → s.curr_mode ≢ message
is_over-Off r none s h e = not_message s.curr_mode h
is_over-Off r (some t) s h e = cc

is_left-On :
    {W : Type 0} (o : Option ℕ) (s : Internal W)
    → State true o s
    → is_none o ≡ false
    → s.curr_mode ≡ message
is_left-On none s h e = cc
is_left-On (some t) s (inl h) e = h.0
is_left-On (some t) s (inr h) e = let c : true ≡ false = h.0 in cc

IsSmall-if : (b : Bool) (o : Option ℕ) → IsSmall o → IsSmall (if b then next o else o)
IsSmall-if true o h = next-IsSmall o h
IsSmall-if false o h = h

module _ {W : Type 0} (drawing : Drawing W) where
  loop_passes-State :
      (lookup : Str → Str) (random : ℕ) (ps : List (Sensed × Expired)) (r : Bool) (o : Option ℕ)
      (s : Internal W)
      → IsSmall o
      → State r o s
      → State r (left ps o) (loop_passes drawing lookup random ps s)
  unfolding loop_passes
  loop_passes-State lookup random [] r o s l h = h
  loop_passes-State lookup random ((e, x) ∷ ps) r o s l h =
      loop_passes-State lookup random ps r (if x.after_1sec then next o else o) _
        (IsSmall-if x.after_1sec o l) (pass-State drawing lookup random e x r o s l h)

  -- A message with a timeout of n seconds, under any passes of the loop with any ticks and sensors while no request comes:
  -- from the n-th tick by the second on it is not the mode any more, whatever its repeats did; and one
  -- that is repeated forever is the mode at least until then, and for good where the timeout is forever or 0.
  pub loop_passes-curr_mode :
      (lookup : Str → Str) (random : ℕ) (ps : List (Sensed × Expired)) (s : Internal W)
      → s.curr_mode ≡ message
      → s.shown.message.timeout < 2 ^ 32
      → (is_over s.shown.message.timeout (seconds ps) ≡ true
          → (loop_passes drawing lookup random ps s).curr_mode ≢ message)
        × (is_over s.shown.message.timeout (seconds ps) ≡ false
            → s.shown.message.repeats ≡ negsuc 0
            → (loop_passes drawing lookup random ps s).curr_mode ≡ message)
  loop_passes-curr_mode lookup random ps s h l =
      let t = s.shown.message.timeout in
      (
        λ e.
            is_over-Off false (left ps (some t)) _
              (loop_passes-State lookup random ps false (some t) s l
                (inl (h, refl, λ (f : ◌≡◌ {A = Bool} false true). absurd (false_true f))))
              (left-is_over ps t l ∙ e),
        λ e f.
            is_left-On (left ps (some t)) _
              (loop_passes-State lookup random ps true (some t) s l (inl (h, refl, λ g. f)))
              (left-is_over ps t l ∙ e),
      )
    where
      false_true : false ≡ true → ⊥
      false_true e = cc
