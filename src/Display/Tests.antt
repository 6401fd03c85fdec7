-- ===== src/Display/Tests.antt =====
-- The display's thread with internals that keep a log of their handlers.
use oclock.Common.{List, [], ◌∷◌, ◌++◌, true, false, some, ◌≡◌, ◌≢◌, refl, ◌+◌, ◌%◌, arith}
use oclock.Common.Str.{str}
use oclock.LedStrip.Params.{StringMap}
use oclock.Common.Int.{pos, negsuc}
use oclock.Dimmer.{new_dimmer}
use oclock.LightSensor.{new_sensor}
use oclock.Message.{ModeMessageData}
use oclock.MotionSensor.{new_motion_info}
use oclock.Display.Modes.{Dot, next_dot, Drawing, Internal, Sensed, message}
use oclock.Display.Transitions.{IsInMatrix, dot_index, next_dot_lem}
use oclock.Display.Lasting.{is_over, seconds, loop_passes, loop_passes-curr_mode}
use oclock.Display.Thread.{
  DisplayInternal, DisplayTodo, msg_mode_post, img_background_post, msg_background_post, Display,
  Expired, Event, enqueues, passes, events,
}
use oclock.Display.Fifo.{events_lem, waiting, replay, actions, handled, enqueued}

abbrev Log : Type 0
Log = List DisplayTodo

abbrev logging : DisplayInternal Log
logging = record {
  do_handle_msg_mode_post = λ p i. msg_mode_post p ∷ i;
  do_handle_img_background_post = λ p i. img_background_post p ∷ i;
  do_handle_msg_background_post = λ p i. msg_background_post p ∷ i;
  get_display_mode_str = λ i. str "clock";
  get_display_dimmed = λ i. false;
  display_tick_fast = λ i. i;
  display_tick_100ms = λ i. i;
  display_tick_250ms = λ i. i;
  display_tick_500ms = λ i. i;
  display_tick_1sec = λ i. i;
  display_tick_5sec = λ i. i;
  display_tick_10sec = λ i. i;
  display_tick_25sec = λ i. i;
  display_tick_1min = λ i. i;
}

abbrev fast_only : Expired
fast_only = record {
  after_100ms = false;
  after_250ms = false;
  after_500ms = false;
  after_1sec = false;
  after_5sec = false;
  after_10sec = false;
  after_25sec = false;
  after_1min = false;
}

abbrev hello : StringMap
hello = (str "msg", str "hello") ∷ []

abbrev two_requests : List Event
two_requests =
    enqueues (msg_mode_post hello) ∷ enqueues (img_background_post []) ∷ passes fast_only ∷ []

abbrev idle : Display Log
idle = record { display_todos = []; internal = some [] }

events_lem_example :
    (events logging two_requests idle ≡ record {
      display_todos = waiting two_requests [];
      internal = some (replay logging (actions two_requests []) []);
    })
    × (handled (actions two_requests []) ++ waiting two_requests [] ≡ [] ++ enqueued two_requests)
events_lem_example = events_lem logging two_requests [] []

abbrev corner : Dot
corner = record { row = 127; col = 15; color = 2 }

corner-IsInMatrix : IsInMatrix corner
corner-IsInMatrix = record {
  row_bound = omega arith;
  col_bound = omega arith;
  color_bound = omega arith;
}

next_dot_lem_example :
    IsInMatrix (next_dot corner) × (dot_index (next_dot corner) ≡ (6143 + 1) % 6144)
next_dot_lem_example = next_dot_lem corner corner-IsInMatrix

abbrev no_drawing : Drawing (Unit {0})
no_drawing = record {
  clear_and_render = λ w. w;
  basic_clock_slow = λ w. w;
  basic_clock_show_seconds = λ w. w;
  basic_clock_up_down = λ w. w;
  update_motion_detected_pixel = λ b w. w;
  message_frame = λ s t u w. w;
  nothing_frame = λ d w. w;
  reinit = λ w. w;
  texts = λ n. [];
  text_width = λ s n. pos 0;
}

abbrev fresh_message : ModeMessageData
fresh_message = record {
  msg = str "hello";
  mode_msgs_index = 65;
  increment_x = true;
  confetti = pos 0;
  alternate_font = false;
  display_color = 2;
  blink = false;
  increment_y = pos 0;
  repeats = negsuc 0;
  timeout = 2;
  font = 0;
  curr_x = pos 0;
  curr_y_factor = pos 5000;
  blink_blank_in_effect = false;
  wd = pos 24;
}

abbrev in_message : Internal (Unit {0})
in_message = record {
  curr_mode = message;
  shown = record { message = fresh_message; color_effect = 0 };
  slots = record { messages = []; imgs = [] };
  tickers = record {
    fast = 0;
    t100ms = 0;
    t250ms = 0;
    t500ms = 0;
    t1sec = 0;
    t5sec = 0;
    t10sec = 0;
  };
  dot = corner;
  check_count = 0;
  dimmer = new_dimmer [];
  matrix = tt;
}

abbrev dark_and_still : Sensed
dark_and_still = record {
  motion_sensor = record { motion_info = new_motion_info; registry = [] };
  light_sensor = new_sensor;
}

abbrev every_second : Expired
every_second = record {
  after_100ms = true;
  after_250ms = true;
  after_500ms = true;
  after_1sec = true;
  after_5sec = false;
  after_10sec = false;
  after_25sec = false;
  after_1min = false;
}

abbrev three_passes : List (Sensed × Expired)
three_passes =
    (dark_and_still, every_second)
    ∷ (dark_and_still, fast_only)
    ∷ (dark_and_still, every_second)
    ∷ []

loop_passes-curr_mode_example :
    (is_over 2 (seconds three_passes) ≡ true
      → (loop_passes no_drawing (λ s. s) 0 three_passes in_message).curr_mode ≢ message)
    × (is_over 2 (seconds three_passes) ≡ false
        → negsuc 0 ≡ negsuc 0
        → (loop_passes no_drawing (λ s. s) 0 three_passes in_message).curr_mode ≡ message)
loop_passes-curr_mode_example =
    loop_passes-curr_mode no_drawing (λ s. s) 0 three_passes in_message refl (omega arith)

two_seconds_over : is_over 2 (seconds three_passes) ≡ true
unfolding seconds
two_seconds_over = refl
