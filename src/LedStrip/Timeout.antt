-- ===== src/LedStrip/Timeout.antt =====
-- The timeout of the strip's mode.
use oclock.Common.{
  ℕ, zero, suc, ◌+◌, ◌-◌, ◌≤◌, ◌<◌, ◌≡◌, refl, sym, ap, subst, ◌∙◌, List, [], ◌∷◌, Bool, true,
  false, not, ◌||◌, Option, none, some, get_elem?, All, arith,
}
use oclock.Common.Int.{pos, negsuc}
use oclock.Common.Str.{str_eq}
use oclock.Lpd8806.{Lpd8806}
use oclock.LedStrip.{clear_pixel_colors_and_show}
use oclock.LedStrip.Params.{parse_boolean_value, get_param_value}
use oclock.LedStrip.Modes.{
  LedStripInternalInfo, Handler, Mode, all_modes, mode_manual_init, mode_manual_entry,
}
use oclock.LedStrip.Change.{
  find_mode, is_current, should_clear, timeout_secs, run_handler, clear_if, enter_mode,
  change_led_strip_mode, clear_params, check_if_mode_timed_out, run_tick, fast_tick, tick_1sec,
  tick_10sec, tick_1min,
}
use oclock.LedStrip.Keeps.{Keeps, keeps, AllKeep, KeepsMode, EntryKeeps, all_modes-AllKeep}

-- The ticks that the thread gives the strip.
pub data Tick : Type 0 where
  fast sec ten min : Tick

unfoldable pub tick : Tick → Handler
unfolding fast_tick tick_1sec tick_10sec tick_1min
tick fast s = fast_tick s
tick sec s = tick_1sec s
tick ten s = tick_10sec s
tick min s = tick_1min s

unfoldable pub ticks : List Tick → Handler
unfolding tick
ticks [] s = s
ticks (t ∷ ts) s = ticks ts (tick t s)

unfoldable pub seconds : List Tick → ℕ
seconds [] = 0
seconds (sec ∷ ts) = seconds ts + 1
seconds (t ∷ ts) = seconds ts

or_this : Mode → Option Mode → Mode
or_this x none = x
or_this x (some m) = m

get_elem?-AllKeep :
    (ms : List Mode) (i : ℕ) (m : Mode) → All EntryKeeps ms → get_elem? ms i ≡ some m → AllKeep m
unfolding or_this
get_elem?-AllKeep [] i m a e = cc
get_elem?-AllKeep (x ∷ ms) zero m a e = subst AllKeep (ap (or_this x) e) a.0
get_elem?-AllKeep (x ∷ ms) (suc i) m a e = get_elem?-AllKeep ms i m a.1 e

handled : (select : Mode → Option Handler) (o : Option Mode) → Handler
handled select o s = elim o [ none ↦ s | some m ↦ run_handler (select m) s ]

handled-Keeps :
    (select : Mode → Option Handler)
    → ((m : Mode) → AllKeep m → KeepsMode (run_handler (select m)))
    → (o : Option Mode) → ((m : Mode) → o ≡ some m → AllKeep m)
    → KeepsMode (handled select o)
unfolding handled
handled-Keeps select k none h s = keeps refl refl refl
handled-Keeps select k (some m) h s = k m (h m refl) s

pub run_tick-Keeps :
    (select : Mode → Option Handler)
    → ((m : Mode) → AllKeep m → KeepsMode (run_handler (select m)))
    → KeepsMode (run_tick select)
unfolding run_tick handled
run_tick-Keeps select k s =
    handled-Keeps select k (get_elem? all_modes s.curr_mode_index)
      (λ m. get_elem?-AllKeep all_modes s.curr_mode_index m all_modes-AllKeep) s

-- The strip is in its manual mode for good, and was cleared and shown.
pub record IsManual (s : LedStripInternalInfo) : Type 0 where
  pub mode : s.curr_mode_index ≡ 0
  pub never : s.secs_until_going_to_manual_mode ≡ negsuc 0
  pub before : Lpd8806
  pub cleared : s.lpd8806 ≡ clear_pixel_colors_and_show before

no_handler :
    (select : Mode → Option Handler) (s : LedStripInternalInfo)
    → select mode_manual_entry ≡ none
    → s.curr_mode_index ≡ 0
    → run_tick select s ≡ s
unfolding run_tick run_handler handled
no_handler select s e m =
    ap (λ (i : ℕ). handled select (get_elem? all_modes i) s) m
    ∙ ap (λ (o : Option Handler). run_handler o s) e

no_timeout :
    (s : LedStripInternalInfo)
    → s.secs_until_going_to_manual_mode ≡ negsuc 0
    → check_if_mode_timed_out s ≡ s
unfolding check_if_mode_timed_out
no_timeout s e = rw e refl

-- In manual mode nothing happens any more.
tick_still : (t : Tick) (s : LedStripInternalInfo) → IsManual s → tick t s ≡ s
unfolding tick fast_tick tick_1sec tick_10sec tick_1min
tick_still fast s m = no_handler (λ m. m.handler_tick_fast) s refl m.mode
tick_still sec s m =
    ap check_if_mode_timed_out (no_handler (λ m. m.handler_tick_1sec) s refl m.mode)
    ∙ no_timeout s m.never
tick_still ten s m = no_handler (λ m. m.handler_tick_10sec) s refl m.mode
tick_still min s m = no_handler (λ m. m.handler_tick_1min) s refl m.mode

manual_still : (ts : List Tick) (s : LedStripInternalInfo) → IsManual s → ticks ts s ≡ s
unfolding ticks
manual_still [] s m = refl
manual_still (t ∷ ts) s m = ap (ticks ts) (tick_still t s m) ∙ manual_still ts s m

or_true : (b : Bool) → (b || true) ≡ true
or_true true = refl
or_true false = refl

yes_clears : should_clear clear_params ≡ true
unfolding should_clear get_param_value parse_boolean_value
yes_clears = refl

yes_never : timeout_secs clear_params ≡ negsuc 0
unfolding timeout_secs get_param_value str_eq
yes_never = refl

clears :
    (b : Bool) (s : LedStripInternalInfo)
    → b ≡ true
    → (clear_if b s).lpd8806 ≡ clear_pixel_colors_and_show s.lpd8806
unfolding clear_if
clears b s e = rw e refl

change-IsManual :
    (s : LedStripInternalInfo) → IsManual (change_led_strip_mode (pos 0) clear_params s)
unfolding change_led_strip_mode find_mode enter_mode run_handler mode_manual_init
change-IsManual s = record {
  mode = refl;
  never = yes_never;
  before = s.lpd8806;
  cleared = clears _ s (
      ap (λ (b : Bool). not (is_current (pos 0) s) || b) yes_clears
      ∙ or_true (not (is_current (pos 0) s)));
}

pub times_out :
    (s : LedStripInternalInfo)
    → s.secs_until_going_to_manual_mode ≡ pos 0
    → IsManual (check_if_mode_timed_out s)
unfolding check_if_mode_timed_out
times_out s e =
    rw (check_if_mode_timed_out, e)
      (change-IsManual (record s { secs_until_going_to_manual_mode = negsuc 0 }))

-- What a tick does to a running timeout.
record Counts (i n : ℕ) (s : LedStripInternalInfo) : Type 0 where
  mode : s.curr_mode_index ≡ i
  secs : s.secs_until_going_to_manual_mode ≡ pos n

Counts-Keeps : {i n : ℕ} {s t : LedStripInternalInfo} → Keeps s t → Counts i n s → Counts i n t
Counts-Keeps k c = record { mode = k.mode ∙ c.mode; secs = k.secs ∙ c.secs }

check-Counts :
    {i n : ℕ} (s : LedStripInternalInfo)
    → Counts i (suc n) s
    → Counts i n (check_if_mode_timed_out s)
unfolding check_if_mode_timed_out
check-Counts s c = rw (check_if_mode_timed_out, c.secs) (record { mode = c.mode; secs = refl })

-- As long as the seconds last the mode stays; then it is manual for good.
abbrev pub TimesOut : ℕ → ℕ → ℕ → LedStripInternalInfo → Type 0
TimesOut i n passed t =
    (passed ≤ n → (t.curr_mode_index ≡ i) × (t.secs_until_going_to_manual_mode ≡ pos (n - passed)))
    × (n < passed → IsManual t × ((more : List Tick) → ticks more t ≡ t))

ticks_from :
    (i n : ℕ) (ts : List Tick) (s : LedStripInternalInfo)
    → Counts i n s
    → TimesOut i n (seconds ts) (ticks ts s)
unfolding ticks tick seconds fast_tick tick_1sec tick_10sec tick_1min
ticks_from i n [] s c = (λ h. (c.mode, c.secs ∙ ap pos (omega arith)), λ h. absurd (omega arith))
ticks_from i n (fast ∷ ts) s c =
    ticks_from i n ts _
      (Counts-Keeps (run_tick-Keeps (λ m. m.handler_tick_fast) (λ m a. a.fast) s) c)
ticks_from i n (ten ∷ ts) s c =
    ticks_from i n ts _
      (Counts-Keeps (run_tick-Keeps (λ m. m.handler_tick_10sec) (λ m a. a.ten) s) c)
ticks_from i n (min ∷ ts) s c =
    ticks_from i n ts _
      (Counts-Keeps (run_tick-Keeps (λ m. m.handler_tick_1min) (λ m a. a.min) s) c)
ticks_from i zero (sec ∷ ts) s c =
    let t = run_tick (λ m. m.handler_tick_1sec) s in
    let d = Counts-Keeps (run_tick-Keeps (λ m. m.handler_tick_1sec) (λ m a. a.sec) s) c in
    let m = times_out t d.secs in
    (
      λ h. absurd (omega arith),
      λ h.
          subst (λ u. IsManual u × ((more : List Tick) → ticks more u ≡ u))
            (sym (manual_still ts _ m)) (m, λ more. manual_still more _ m),
    )
ticks_from i (suc n) (sec ∷ ts) s c =
    let t = run_tick (λ m. m.handler_tick_1sec) s in
    let d = Counts-Keeps (run_tick-Keeps (λ m. m.handler_tick_1sec) (λ m a. a.sec) s) c in
    let rest = ticks_from i n ts _ (check-Counts t d) in
    (
      λ h. let r = rest.0 (omega arith) in (r.0, r.1 ∙ ap pos (omega (arith, h))),
      λ h. rest.1 (omega arith),
    )

-- A mode that was given a timeout of n seconds stays, and counts them down, until n seconds have passed,
-- whatever other ticks come between; from the next second on the strip is in its manual mode, was cleared and
-- shown, and no further ticks change anything of it.
pub ticks_time_out :
    (n : ℕ) (ts : List Tick) (s : LedStripInternalInfo)
    → s.secs_until_going_to_manual_mode ≡ pos n
    → TimesOut s.curr_mode_index n (seconds ts) (ticks ts s)
ticks_time_out n ts s e = ticks_from s.curr_mode_index n ts s (record { mode = refl; secs = e })
