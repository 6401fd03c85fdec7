-- ===== src/LedStrip/Keeps.antt =====
-- What the handlers of the modes leave alone: the mode, its timeout and its parameters.
use oclock.Common.{
  ℕ, zero, suc, ◌+◌, ◌≡◌, refl, ◌∙◌, [], Bool, true, false, not, ◌&&◌, ◌||◌, ltb, ◌==◌,
  if◌then◌else◌, none, some, All,
}
use oclock.Common.Str.{Str, str}
use oclock.Lpd8806.{set_pixel_color, num_pixels}
use oclock.LedStrip.Params.{
  is_param_set_to, is_param_set, param_extra, null_color, fill_bounds, get_pixel_color_param,
}
use oclock.LedStrip.Modes.{
  LedStripInternalInfo, Handler, Mode, all_modes, get_random_number, random_color, wanted_color,
  mode_manual_init, mode_pastel, next_fill_color, fill_pixels, mode_fill_init, mode_rainbow,
  with_scan_color, is_pos_zero, mode_scan, mode_binary_counter, if_extra, mode_scan_fast,
  mode_manual_entry, mode_pastel_entry, mode_fill_entry, mode_rainbow_entry, mode_scan_entry,
  mode_binary_counter_entry,
}
use oclock.LedStrip.Change.{run_handler}

-- The mode, its timeout and its parameters are the same.
pub record Keeps (s t : LedStripInternalInfo) : Type 0 where
  pub mode : t.curr_mode_index ≡ s.curr_mode_index
  pub secs : t.secs_until_going_to_manual_mode ≡ s.secs_until_going_to_manual_mode
  pub params : t.params ≡ s.params

pub keeps :
    {s t : LedStripInternalInfo}
    → t.curr_mode_index ≡ s.curr_mode_index
    → t.secs_until_going_to_manual_mode ≡ s.secs_until_going_to_manual_mode
    → t.params ≡ s.params
    → Keeps s t
keeps a b c = record { mode = a; secs = b; params = c }

pub Keeps-trans : {s t u : LedStripInternalInfo} → Keeps s t → Keeps t u → Keeps s u
Keeps-trans k l = keeps (l.mode ∙ k.mode) (l.secs ∙ k.secs) (l.params ∙ k.params)

pub Keeps-if :
    (b : Bool) {s t u : LedStripInternalInfo} → Keeps s t → Keeps s u → Keeps s (if b then t else u)
Keeps-if true p q = p
Keeps-if false p q = q

Keeps-if_pair :
    (b : Bool) {s : LedStripInternalInfo} (p q : ℕ × LedStripInternalInfo)
    → Keeps s p.1
    → Keeps s q.1
    → Keeps s (if b then p else q).1
Keeps-if_pair true p q k l = k
Keeps-if_pair false p q k l = l

random_color-Keeps : (s : LedStripInternalInfo) → Keeps s (random_color s).1
unfolding random_color get_random_number
random_color-Keeps s = keeps refl refl refl

wanted_color-Keeps : (s : LedStripInternalInfo) → Keeps s (wanted_color s).1
unfolding wanted_color
wanted_color-Keeps s =
    Keeps-if_pair (get_pixel_color_param s.params == null_color) (random_color s)
      (get_pixel_color_param s.params, s) (random_color-Keeps s) (keeps refl refl refl)

next_fill_color-Keeps : (c : ℕ) (s : LedStripInternalInfo) → Keeps s (next_fill_color c s).1
unfolding next_fill_color
next_fill_color-Keeps c s =
    Keeps-if_pair (is_param_set_to s.params param_extra (str "randomColor")) (random_color s) (c, s)
      (random_color-Keeps s) (keeps refl refl refl)

fill_pixels-Keeps :
    (left i from to c : ℕ) (s : LedStripInternalInfo) → Keeps s (fill_pixels left i from to c s)
unfolding fill_pixels
fill_pixels-Keeps zero i from to c s = keeps refl refl refl
fill_pixels-Keeps (suc left) i from to c s =
    let t = record s { lpd8806 = set_pixel_color i c s.lpd8806 } in
    let colored = next_fill_color c t in
    let k : Keeps s t = keeps refl refl refl in
    let skipped = fill_pixels-Keeps left (i + 1) from to c s in
    Keeps-if (not (from == 0) && ltb (i + 1) from) skipped (
      Keeps-if (not (to == 0) && ltb to (i + 1)) skipped (
        Keeps-trans (Keeps-trans k (next_fill_color-Keeps c t))
          (fill_pixels-Keeps left (i + 1) from to colored.0 colored.1)))

-- A handler changes the strip and what the modes remember of it, and nothing else.
abbrev pub KeepsMode : Handler → Type 0
KeepsMode h = (s : LedStripInternalInfo) → Keeps s (h s)

mode_pastel-Keeps : KeepsMode mode_pastel
unfolding mode_pastel
mode_pastel-Keeps s = keeps refl refl refl

mode_rainbow-Keeps : KeepsMode mode_rainbow
unfolding mode_rainbow
mode_rainbow-Keeps s = keeps refl refl refl

mode_fill_init-Keeps : KeepsMode mode_fill_init
unfolding mode_fill_init
mode_fill_init-Keeps s =
    let colored = wanted_color s in
    let bounds = fill_bounds s.params in
    let filled = fill_pixels-Keeps (num_pixels s.lpd8806) 0 bounds.0 bounds.1 colored.0 colored.1 in
    Keeps-trans (Keeps-trans (wanted_color-Keeps s) filled) (keeps refl refl refl)

mode_scan-Keeps : KeepsMode mode_scan
unfolding mode_scan
mode_scan-Keeps s =
    Keeps-trans
      (Keeps-if (is_pos_zero s.scan_i)
        (Keeps-trans (wanted_color-Keeps s) (colored (wanted_color s))) (keeps refl refl refl))
      (keeps refl refl refl)
  where
    colored : (p : ℕ × LedStripInternalInfo) → Keeps p.1 (with_scan_color p)
    colored (c, t) = unfold with_scan_color in keeps refl refl refl

mode_binary_counter-Keeps : KeepsMode mode_binary_counter
unfolding mode_binary_counter
mode_binary_counter-Keeps s = Keeps-trans (wanted_color-Keeps s) (keeps refl refl refl)

if_extra-Keeps : (value : Str) (h : Handler) → KeepsMode h → KeepsMode (if_extra value h)
unfolding if_extra
if_extra-Keeps value h k s =
    Keeps-if (is_param_set_to s.params param_extra value) (k s) (keeps refl refl refl)

mode_scan_fast-Keeps : KeepsMode mode_scan_fast
unfolding mode_scan_fast
mode_scan_fast-Keeps s =
    Keeps-if (not (is_param_set s.params param_extra) || is_param_set_to s.params param_extra [])
      (mode_scan-Keeps s) (keeps refl refl refl)

-- All handlers of a mode.
pub record AllKeep (m : Mode) : Type 0 where
  pub init : KeepsMode (run_handler m.handler_init)
  pub fast : KeepsMode (run_handler m.handler_tick_fast)
  pub sec : KeepsMode (run_handler m.handler_tick_1sec)
  pub ten : KeepsMode (run_handler m.handler_tick_10sec)
  pub min : KeepsMode (run_handler m.handler_tick_1min)

none-Keeps : KeepsMode (run_handler none)
unfolding run_handler
none-Keeps s = keeps refl refl refl

some-Keeps : {h : Handler} → KeepsMode h → KeepsMode (run_handler (some h))
unfolding run_handler
some-Keeps k = k

extra-Keeps :
    (value : Str) {h : Handler} → KeepsMode h → KeepsMode (run_handler (some (if_extra value h)))
unfolding run_handler
extra-Keeps value {h = h} k = if_extra-Keeps value h k

manual-AllKeep : AllKeep mode_manual_entry
unfolding run_handler mode_manual_init
manual-AllKeep = record {
  init = λ s. keeps refl refl refl;
  fast = none-Keeps;
  sec = none-Keeps;
  ten = none-Keeps;
  min = none-Keeps;
}

pastel-AllKeep : AllKeep mode_pastel_entry
pastel-AllKeep = record {
  init = some-Keeps mode_pastel-Keeps;
  fast = extra-Keeps (str "fast") mode_pastel-Keeps;
  sec = extra-Keeps (str "1sec") mode_pastel-Keeps;
  ten = extra-Keeps (str "10sec") mode_pastel-Keeps;
  min = extra-Keeps (str "1min") mode_pastel-Keeps;
}

fill-AllKeep : AllKeep mode_fill_entry
fill-AllKeep = record {
  init = some-Keeps mode_fill_init-Keeps;
  fast = none-Keeps;
  sec = none-Keeps;
  ten = none-Keeps;
  min = none-Keeps;
}

rainbow-AllKeep : AllKeep mode_rainbow_entry
rainbow-AllKeep = record {
  init = some-Keeps mode_rainbow-Keeps;
  fast = extra-Keeps (str "fast") mode_rainbow-Keeps;
  sec = extra-Keeps (str "1sec") mode_rainbow-Keeps;
  ten = extra-Keeps (str "10sec") mode_rainbow-Keeps;
  min = some-Keeps mode_rainbow-Keeps;
}

scan-AllKeep : AllKeep mode_scan_entry
scan-AllKeep = record {
  init = none-Keeps;
  fast = some-Keeps mode_scan_fast-Keeps;
  sec = extra-Keeps (str "1sec") mode_scan-Keeps;
  ten = extra-Keeps (str "10sec") mode_scan-Keeps;
  min = extra-Keeps (str "1min") mode_scan-Keeps;
}

binary_counter-AllKeep : AllKeep mode_binary_counter_entry
binary_counter-AllKeep = record {
  init = none-Keeps;
  fast = extra-Keeps (str "fast") mode_binary_counter-Keeps;
  sec = some-Keeps mode_binary_counter-Keeps;
  ten = none-Keeps;
  min = none-Keeps;
}

-- Every entry of the table.
abbrev pub EntryKeeps : Mode → Type 0
EntryKeeps m = AllKeep m

pub all_modes-AllKeep : All EntryKeeps all_modes
all_modes-AllKeep = (
  manual-AllKeep,
  (pastel-AllKeep, (fill-AllKeep, (rainbow-AllKeep, (scan-AllKeep, (binary_counter-AllKeep, tt))))),
)
