-- ===== src/LedStrip/Change.antt =====
-- Changes of the LED strip's mode, by a request or by its timeout, and the ticks: the end of ledStripInternal.cpp.
use oclock.Common.{
  ℕ, zero, suc, ◌+◌, List, [], ◌∷◌, Bool, false, not, ◌||◌, if◌then◌else◌, Option, none, some,
  get_elem?,
}
use oclock.Common.Int.{ℤ, pos, negsuc, eq_ℤ}
use oclock.Common.Str.{Str, str}
use oclock.Common.Stoi.{stoi}
use oclock.Common.AutoBase.{stoi_auto}
use oclock.Lpd8806.{Lpd8806, begin, show}
use oclock.LedStrip.{clear_pixel_colors_and_show}
use oclock.LedStrip.Params.{
  StringMap, parse_boolean_value, get_param_value, param_led_strip_mode, param_timeout,
  param_clear_all_pixels,
}
use oclock.LedStrip.Modes.{LedStripInternalInfo, Handler, Mode, all_modes}

-- The entry of a mode, with its index.
unfoldable pub find_mode : ℤ → ℕ → List Mode → Option (ℕ × Mode)
find_mode wanted i [] = none
find_mode wanted i (m ∷ ms) =
    if eq_ℤ m.led_strip_mode wanted then some (i, m) else find_mode wanted (i + 1) ms

-- Whether the current mode is the wanted one. No index is out of the table's range.
unfoldable pub is_current : ℤ → LedStripInternalInfo → Bool
is_current wanted s = elim (get_elem? all_modes s.curr_mode_index) [
  | none ↦ false
  | some m ↦ eq_ℤ m.led_strip_mode wanted
]

unfoldable pub should_clear : StringMap → Bool
unfolding get_param_value parse_boolean_value
should_clear params = elim (get_param_value params param_clear_all_pixels) [
  | none ↦ false
  | some [] ↦ false
  | some (c ∷ cs) ↦ parse_boolean_value (c ∷ cs)
]

-- The seconds of the timeout: -1 if there is none, and 0 if it is no number.
unfoldable pub timeout_secs : StringMap → ℤ
unfolding get_param_value stoi_auto
timeout_secs params = elim (get_param_value params param_timeout) [
  | none ↦ negsuc 0
  | some [] ↦ negsuc 0
  | some (c ∷ cs) ↦ elim (stoi_auto (c ∷ cs)) [ none ↦ pos 0 | some n ↦ n ]
]

unfoldable pub run_handler : Option Handler → Handler
run_handler none s = s
run_handler (some h) s = h s

unfoldable pub clear_if : Bool → Handler
unfolding clear_pixel_colors_and_show
clear_if b s = if b then record s { lpd8806 = clear_pixel_colors_and_show s.lpd8806 } else s

unfoldable pub enter_mode : ℕ → Mode → StringMap → Handler
unfolding run_handler timeout_secs
enter_mode i m params s = run_handler m.handler_init (record s {
  secs_until_going_to_manual_mode = timeout_secs params;
  curr_mode_index = i;
  params = params;
})

unfoldable pub change_led_strip_mode : ℤ → StringMap → Handler
unfolding find_mode is_current should_clear clear_if enter_mode
change_led_strip_mode wanted params s = elim (find_mode wanted 0 all_modes) [
  | none ↦ s
  | some p ↦
      enter_mode p.0 p.1 params (clear_if (not (is_current wanted s) || should_clear params) s)
]

abbrev pub clear_params : StringMap
clear_params = (param_clear_all_pixels, str "yes") ∷ []

unfoldable pub check_if_mode_timed_out : Handler
unfolding change_led_strip_mode
check_if_mode_timed_out s = elim s.secs_until_going_to_manual_mode [
  | negsuc n ↦ s
  | pos zero ↦
      change_led_strip_mode (pos 0) clear_params
        (record s { secs_until_going_to_manual_mode = negsuc 0 })
  | pos (suc n) ↦ record s { secs_until_going_to_manual_mode = pos n }
]

-- The handler of the current mode.
unfoldable pub run_tick : (Mode → Option Handler) → Handler
unfolding run_handler
run_tick select s = elim (get_elem? all_modes s.curr_mode_index) [
  | none ↦ s
  | some m ↦ run_handler (select m) s
]

unfoldable pub fast_tick : Handler
unfolding run_tick
fast_tick s = run_tick (λ m. m.handler_tick_fast) s

unfoldable pub tick_1sec : Handler
unfolding run_tick check_if_mode_timed_out
tick_1sec s = check_if_mode_timed_out (run_tick (λ m. m.handler_tick_1sec) s)

unfoldable pub tick_10sec : Handler
unfolding run_tick
tick_10sec s = run_tick (λ m. m.handler_tick_10sec) s

unfoldable pub tick_1min : Handler
unfolding run_tick
tick_1min s = run_tick (λ m. m.handler_tick_1min) s

-- The mode that a request names, as a decimal number; none where the request is ignored.
unfoldable pub wanted_mode : StringMap → Option ℤ
unfolding get_param_value stoi
wanted_mode params = elim (get_param_value params param_led_strip_mode) [
  | none ↦ none
  | some [] ↦ none
  | some (c ∷ cs) ↦ stoi (c ∷ cs)
]

unfoldable pub do_handle_mode_post : StringMap → Handler
unfolding wanted_mode change_led_strip_mode
do_handle_mode_post params s = elim (wanted_mode params) [
  | none ↦ s
  | some wanted ↦ change_led_strip_mode wanted params s
]

unfoldable pub get_led_strip_mode_str : LedStripInternalInfo → Str
get_led_strip_mode_str s = elim (get_elem? all_modes s.curr_mode_index) [
  | none ↦ []
  | some m ↦ m.led_strip_mode_str
]

-- The name of a mode; the empty string if there is none.
unfoldable pub mode_str : ℤ → Str
unfolding find_mode
mode_str wanted = elim (find_mode wanted 0 all_modes) [
  | none ↦ []
  | some p ↦ p.1.led_strip_mode_str
]

-- The state that the constructors make, the mode's statics and the random numbers being given.
unfoldable pub new_info : Lpd8806 → (ℕ → ℕ) → LedStripInternalInfo
unfolding begin show
new_info strip draws = record {
  lpd8806 = show (begin strip);
  curr_mode_index = 0;
  secs_until_going_to_manual_mode = negsuc 0;
  params = [];
  pastel_pixel = 0;
  rainbow_j = 0;
  scan_color = 0;
  scan_i = pos 0;
  scan_increment = pos 1;
  current_counter_value = 0;
  draws = draws;
  drawn = 0;
}

abbrev pub initial_params : StringMap
initial_params = (param_timeout, str "3") ∷ []

unfoldable pub new_led_strip_internal : Lpd8806 → (ℕ → ℕ) → LedStripInternalInfo
unfolding new_info change_led_strip_mode
new_led_strip_internal strip draws =
    change_led_strip_mode (pos 3) initial_params (new_info strip draws)
