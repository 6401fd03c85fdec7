-- ===== src/Message/Tests.antt =====
-- The messages of the matrix at concrete values.
use oclock.Common.{List, [], ◌∷◌, replicate, ℕ, ◌≡◌, refl, Bool, true, false, arith}
use oclock.Common.Int.{pos, negsuc}
use oclock.Common.AutoBase.{strtoul_10}
use oclock.Common.Decimal.{cast_int}
use oclock.Common.Str.{str}
use oclock.Message.{
  ModeMessageData, mode_msgs_index_last, Tickers, Animation, AnimationStep, init_mode_message_data,
  mode_message_check_blink, will_animate, get_next_font,
}
use oclock.LedStrip.Params.{StringMap}
use oclock.Message.Background.{BackgroundImg, zero_img, is_key}
use oclock.Message.Slots.{wanted_slot}
use oclock.Message.Timeout.{checks, expected, checks_lem}

abbrev greeting : ModeMessageData
greeting = record {
  msg = str "hello";
  mode_msgs_index = mode_msgs_index_last;
  increment_x = true;
  confetti = pos 0;
  alternate_font = false;
  display_color = 2;
  blink = false;
  increment_y = pos 0;
  repeats = negsuc 0;
  timeout = 3;
  font = 0;
  curr_x = pos 0;
  curr_y_factor = pos 5000;
  blink_blank_in_effect = false;
  wd = pos 25;
}

-- What a request starts from, with another timeout.
requested : Bool → ℕ → ModeMessageData
unfolding init_mode_message_data
requested blink timeout =
    init_mode_message_data (pos 0) (pos 5) true false (pos 0) blink 0 timeout greeting

checks_lem_example : checks 5 greeting ≡ expected 3 5
checks_lem_example = checks_lem 5 greeting (omega arith)

ended_once : expected 3 5 ≡ 1
ended_once = refl

never_ended : checks 3 (requested false 0) ≡ 0
unfolding checks init_mode_message_data requested
never_ended = refl

abbrev tickers : Tickers
tickers = record { fast = 9; t100ms = 0; t250ms = 0; t500ms = 0; t1sec = 7; t5sec = 0; t10sec = 0 }

abbrev every_fourth : Animation
every_fourth = record {
  animation_step = AnimationStep.step_1sec;
  animation_step_phase = 4;
  animation_step_phase_value = 3;
}

animates_now : will_animate tickers every_fourth ≡ true
unfolding will_animate
animates_now = refl

blinks : (mode_message_check_blink (requested true 60)).blink_blank_in_effect ≡ false
unfolding mode_message_check_blink init_mode_message_data requested
blinks = refl

after_last_font : get_next_font 4 ≡ 0
unfolding get_next_font
after_last_font = refl

abbrev slots : List BackgroundImg
slots = replicate 100 zero_img

abbrev heart : StringMap
heart =
    (str "clearAll", str "yes")
    ∷ (str "enabled", str "1")
    ∷ (str "imgArt", str "8")
    ∷ (str "index", str "7")
    ∷ []

seventh : wanted_slot heart 0 ≡ 7
unfolding wanted_slot is_key strtoul_10 cast_int
seventh = refl
