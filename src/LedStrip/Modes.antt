-- ===== src/LedStrip/Modes.antt =====
-- The modes of the LED strip, and the changes between them: ledStripInternal.cpp. The static variables of the
-- modes and the random numbers drawn are part of the state.
use oclock.Common.{
  ℕ, zero, suc, ◌+◌, ◌%◌, List, [], ◌∷◌, Bool, false, not, ◌&&◌, ◌||◌, ltb, ◌==◌, if◌then◌else◌,
  Option, none, some,
}
use oclock.Common.Int.{ℤ, pos, negsuc}
use oclock.Common.Str.{Str, str}
use oclock.Lpd8806.{Lpd8806, show, set_pixel_color, num_pixels}
use oclock.LedStrip.{mode_rainbow_main, mode_pastel_main, mode_scan_main, mode_binary_counter_main}
use oclock.LedStrip.Params.{
  StringMap, is_param_set, is_param_set_to, param_extra, null_color, get_pixel_color_param,
  fill_bounds, first_counter,
}

-- `draws` are the numbers of the random engine, of which `drawn` have been used.
pub record LedStripInternalInfo : Type 0 where
  pub lpd8806 : Lpd8806
  pub curr_mode_index : ℕ
  pub secs_until_going_to_manual_mode : ℤ
  pub params : StringMap
  pub pastel_pixel : ℕ
  pub rainbow_j : ℕ
  pub scan_color : ℕ
  pub scan_i : ℤ
  pub scan_increment : ℤ
  pub current_counter_value : ℕ
  pub draws : ℕ → ℕ
  pub drawn : ℕ

abbrev pub Handler : Type 0
Handler = LedStripInternalInfo → LedStripInternalInfo

unfoldable pub get_random_number : ℕ → LedStripInternalInfo → ℕ × LedStripInternalInfo
get_random_number upper s =
    if upper == 0 then (0, s) else (s.draws s.drawn % upper, record s { drawn = s.drawn + 1 })

unfoldable pub random_color : LedStripInternalInfo → ℕ × LedStripInternalInfo
unfolding get_random_number
random_color s = let (n, s') = get_random_number 16777214 s in (n + 1, s')

-- The color of the parameters, or a random one.
unfoldable pub wanted_color : LedStripInternalInfo → ℕ × LedStripInternalInfo
unfolding random_color get_pixel_color_param
wanted_color s =
    if get_pixel_color_param s.params == null_color
    then random_color s
    else (get_pixel_color_param s.params, s)

unfoldable pub mode_manual_init : Handler
mode_manual_init s = s

unfoldable pub mode_pastel : Handler
unfolding mode_pastel_main
mode_pastel s =
    let (i, strip) = mode_pastel_main s.pastel_pixel s.lpd8806 in
    record s { pastel_pixel = i; lpd8806 = strip }

unfoldable pub next_fill_color : ℕ → LedStripInternalInfo → ℕ × LedStripInternalInfo
unfolding is_param_set_to random_color
next_fill_color c s =
    if is_param_set_to s.params param_extra (str "randomColor") then random_color s else (c, s)

-- The loop over the `left` pixels from `i` on.
unfoldable pub fill_pixels : ℕ → ℕ → ℕ → ℕ → ℕ → LedStripInternalInfo → LedStripInternalInfo
unfolding next_fill_color set_pixel_color
fill_pixels zero i from to c s = s
fill_pixels (suc left) i from to c s =
    let skipped = fill_pixels left (i + 1) from to c s in
    let colored = next_fill_color c (record s { lpd8806 = set_pixel_color i c s.lpd8806 }) in
    let filled = fill_pixels left (i + 1) from to colored.0 colored.1 in
    if not (from == 0) && ltb (i + 1) from
    then skipped
    else if not (to == 0) && ltb to (i + 1)
    then skipped
    else filled

unfoldable pub mode_fill_init : Handler
unfolding wanted_color fill_bounds fill_pixels show
mode_fill_init s =
    let colored = wanted_color s in
    let bounds = fill_bounds s.params in
    let t = fill_pixels (num_pixels s.lpd8806) 0 bounds.0 bounds.1 colored.0 colored.1 in
    record t { lpd8806 = show t.lpd8806 }

unfoldable pub mode_rainbow : Handler
unfolding mode_rainbow_main
mode_rainbow s =
    let (j, strip) = mode_rainbow_main s.rainbow_j s.lpd8806 in
    record s { rainbow_j = j; lpd8806 = strip }

abbrev pub is_pos_zero : ℤ → Bool
is_pos_zero (pos n) = n == 0
is_pos_zero (negsuc n) = false

unfoldable pub with_scan_color : ℕ × LedStripInternalInfo → LedStripInternalInfo
with_scan_color (c, s) = record s { scan_color = c }

unfoldable pub mode_scan : Handler
unfolding with_scan_color wanted_color mode_scan_main
mode_scan s =
    let t = if is_pos_zero s.scan_i then with_scan_color (wanted_color s) else s in
    let (i, increment, strip) = mode_scan_main t.scan_color t.scan_i t.scan_increment t.lpd8806 in
    record t { scan_i = i; scan_increment = increment; lpd8806 = strip }

unfoldable pub mode_binary_counter : Handler
unfolding wanted_color first_counter mode_binary_counter_main
mode_binary_counter s =
    let (c, t) = wanted_color s in
    let (value, strip) =
      mode_binary_counter_main (first_counter s.params) c t.current_counter_value t.lpd8806 in
    record t { current_counter_value = value; lpd8806 = strip }

-- A handler for a tick, run only if the extra parameter asks for it.
unfoldable pub if_extra : Str → Handler → Handler
unfolding is_param_set_to
if_extra value h s = if is_param_set_to s.params param_extra value then h s else s

unfoldable pub mode_scan_fast : Handler
unfolding is_param_set is_param_set_to
mode_scan_fast s =
    if not (is_param_set s.params param_extra) || is_param_set_to s.params param_extra []
    then mode_scan s
    else s

pub record Mode : Type 0 where
  pub led_strip_mode : ℤ
  pub led_strip_mode_str : Str
  pub handler_init : Option Handler
  pub handler_tick_fast : Option Handler
  pub handler_tick_1sec : Option Handler
  pub handler_tick_10sec : Option Handler
  pub handler_tick_1min : Option Handler

abbrev pub mode_manual_entry : Mode
mode_manual_entry = record {
  led_strip_mode = pos 0;
  led_strip_mode_str = str "manual";
  handler_init = some mode_manual_init;
  handler_tick_fast = none;
  handler_tick_1sec = none;
  handler_tick_10sec = none;
  handler_tick_1min = none;
}

abbrev pub mode_pastel_entry : Mode
mode_pastel_entry = record {
  led_strip_mode = pos 1;
  led_strip_mode_str = str "pastel";
  handler_init = some mode_pastel;
  handler_tick_fast = some (if_extra (str "fast") mode_pastel);
  handler_tick_1sec = some (if_extra (str "1sec") mode_pastel);
  handler_tick_10sec = some (if_extra (str "10sec") mode_pastel);
  handler_tick_1min = some (if_extra (str "1min") mode_pastel);
}

abbrev pub mode_fill_entry : Mode
mode_fill_entry = record {
  led_strip_mode = pos 2;
  led_strip_mode_str = str "fill";
  handler_init = some mode_fill_init;
  handler_tick_fast = none;
  handler_tick_1sec = none;
  handler_tick_10sec = none;
  handler_tick_1min = none;
}

abbrev pub mode_rainbow_entry : Mode
mode_rainbow_entry = record {
  led_strip_mode = pos 3;
  led_strip_mode_str = str "rainbow";
  handler_init = some mode_rainbow;
  handler_tick_fast = some (if_extra (str "fast") mode_rainbow);
  handler_tick_1sec = some (if_extra (str "1sec") mode_rainbow);
  handler_tick_10sec = some (if_extra (str "10sec") mode_rainbow);
  handler_tick_1min = some mode_rainbow;
}

abbrev pub mode_scan_entry : Mode
mode_scan_entry = record {
  led_strip_mode = pos 4;
  led_strip_mode_str = str "scan";
  handler_init = none;
  handler_tick_fast = some mode_scan_fast;
  handler_tick_1sec = some (if_extra (str "1sec") mode_scan);
  handler_tick_10sec = some (if_extra (str "10sec") mode_scan);
  handler_tick_1min = some (if_extra (str "1min") mode_scan);
}

abbrev pub mode_binary_counter_entry : Mode
mode_binary_counter_entry = record {
  led_strip_mode = pos 5;
  led_strip_mode_str = str "binCnt";
  handler_init = none;
  handler_tick_fast = some (if_extra (str "fast") mode_binary_counter);
  handler_tick_1sec = some mode_binary_counter;
  handler_tick_10sec = none;
  handler_tick_1min = none;
}

abbrev pub all_modes : List Mode
all_modes =
    mode_manual_entry ∷ mode_pastel_entry ∷ mode_fill_entry ∷ mode_rainbow_entry ∷ mode_scan_entry
    ∷ mode_binary_counter_entry ∷ []
