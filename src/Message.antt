-- ===== src/Message.antt =====
-- The messages of the matrix: the timeout and the blinking of modeMessage, the animation of backgrounds, the choice of
-- fonts and the day of the month, in displayInternal.cpp. What is drawn of them is not modelled here.
mod Tests
pub mod Timeout
pub mod Fonts
pub mod Background
pub mod Slots
use oclock.Common.{
  ℕ, zero, suc, ◌+◌, ◌-◌, ◌*◌, ◌%◌, ◌^◌, List, [], ◌∷◌, ◌++◌, Bool, true, false, not, ltb, leb,
  ◌==◌, if◌then◌else◌,
}
use oclock.Common.Int.{ℤ, pos, negsuc}
use oclock.Common.Str.{Str, str}
use oclock.Common.Decimal.{decimal}
use oclock.Ht1632.{com_size}

pub data AnimationStep : Type 0 where
  none fast step_100ms step_250ms step_500ms step_1sec step_5sec step_10sec : AnimationStep

pub record Animation : Type 0 where
  pub animation_step : AnimationStep
  pub animation_step_phase : ℕ
  pub animation_step_phase_value : ℕ

-- The tickers, which count modulo 256.
pub record Tickers : Type 0 where
  pub fast : ℕ
  pub t100ms : ℕ
  pub t250ms : ℕ
  pub t500ms : ℕ
  pub t1sec : ℕ
  pub t5sec : ℕ
  pub t10sec : ℕ

unfoldable pub is_in_phase : ℕ → Animation → Bool
is_in_phase ticker a = ticker % a.animation_step_phase == a.animation_step_phase_value

animates : AnimationStep → Tickers → Animation → Bool
unfolding is_in_phase
animates AnimationStep.none t a = true
animates AnimationStep.fast t a = is_in_phase t.fast a
animates AnimationStep.step_100ms t a = is_in_phase t.t100ms a
animates AnimationStep.step_250ms t a = is_in_phase t.t250ms a
animates AnimationStep.step_500ms t a = is_in_phase t.t500ms a
animates AnimationStep.step_1sec t a = is_in_phase t.t1sec a
animates AnimationStep.step_5sec t a = is_in_phase t.t5sec a
animates AnimationStep.step_10sec t a = is_in_phase t.t10sec a

unfoldable pub will_animate : Tickers → Animation → Bool
unfolding animates
will_animate t a = if a.animation_step_phase == 0 then true else animates a.animation_step t a

unfoldable pub get_day_of_month_str : ℕ → Str
unfolding decimal
get_day_of_month_str day =
    if day == 1
    then str "1st"
    else if day == 2
    then str "2nd"
    else if day == 3
    then str "3rd"
    else if day == 21
    then str "21st"
    else if day == 22
    then str "22nd"
    else if day == 23
    then str "23rd"
    else if day == 31
    then str "31st"
    else decimal day ++ str "th"

-- A font is a number; the fonts that have a name are below `font_last`.
abbrev pub font_last : ℕ
font_last = 5

unfoldable pub get_font_height : ℕ → ℕ
get_font_height font =
    if font == 1
    then 8
    else if font == 2
    then 7
    else if font == 3
    then 8
    else if font == 4
    then 16
    else 5

unfoldable pub get_adjusted_text_y : ℕ → ℤ → ℕ
get_adjusted_text_y font (negsuc n) = 0
get_adjusted_text_y font (pos y) =
    if leb com_size (get_font_height font + y) then com_size - get_font_height font else y

unfoldable pub get_next_font : ℕ → ℕ
get_next_font font = if leb font_last (font + 1) then 0 else font + 1

-- `modeMessageData` without its callback, which is always the change to the basic clock. The index stands
-- for one of the texts that come with the program; `mode_msgs_index_last` is none.
pub record ModeMessageData : Type 0 where
  pub msg : Str
  pub mode_msgs_index : ℕ
  pub increment_x : Bool
  pub confetti : ℤ
  pub alternate_font : Bool
  pub display_color : ℕ
  pub blink : Bool
  pub increment_y : ℤ
  pub repeats : ℤ
  pub timeout : ℕ
  pub font : ℕ
  pub curr_x : ℤ
  pub curr_y_factor : ℤ
  pub blink_blank_in_effect : Bool
  pub wd : ℤ

-- `~0`, for a message that stays forever.
abbrev pub forever : ℕ
forever = 2 ^ 32 - 1

abbrev pub mode_msgs_index_last : ℕ
mode_msgs_index_last = 65

abbrev pub display_color_alternate : ℕ
display_color_alternate = 3

-- `currY * INCREMENT_Y_SCALE`.
unfoldable pub scaled : ℤ → ℤ
scaled (pos n) = pos (n * 1000)
scaled (negsuc n) = negsuc ((n + 1) * 1000 - 1)

-- The width is that of the last message until the mode is entered. The counter of the color effect, which
-- the source counts up, is not part of the data.
unfoldable pub init_mode_message_data :
    ℤ → ℤ → Bool → Bool → ℤ → Bool → ℕ → ℕ → ModeMessageData → ModeMessageData
unfolding scaled
init_mode_message_data curr_x curr_y increment_x increment_y confetti blink font timeout m =
    record {
      msg = [];
      mode_msgs_index = mode_msgs_index_last;
      increment_x = increment_x;
      confetti = confetti;
      alternate_font = false;
      display_color = display_color_alternate;
      blink = blink;
      increment_y = if increment_y then pos 800 else pos 0;
      repeats = negsuc 0;
      timeout = timeout;
      font = font;
      curr_x = curr_x;
      curr_y_factor = scaled curr_y;
      blink_blank_in_effect = blink;
      wd = m.wd;
    }

unfoldable pub mode_message_check_blink : ModeMessageData → ModeMessageData
mode_message_check_blink m =
    if m.blink then record m { blink_blank_in_effect = not m.blink_blank_in_effect } else m

-- The data, and whether the callback is called that ends the message. The timeout is unsigned.
unfoldable pub mode_message_check_timeout : ModeMessageData → ModeMessageData × Bool
mode_message_check_timeout m =
    if m.timeout == forever
    then (m, false)
    else if (m.timeout + forever) % 2 ^ 32 == 0
    then (record m { timeout = forever }, true)
    else (record m { timeout = (m.timeout + forever) % 2 ^ 32 }, false)
