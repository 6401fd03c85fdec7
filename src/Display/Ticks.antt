-- ===== src/Display/Ticks.antt =====
-- The methods of DisplayInternal: the ticks with the handlers of the modes, the requests and the start, in
-- displayInternal.cpp. They fill the interface that the thread uses.
use oclock.Common.{ℕ, ◌+◌, ◌%◌, false, map, List, Option, none, some}
use oclock.Common.Int.{pos}
use oclock.Common.Str.{Str}
use oclock.Dimmer.{update_dim}
use oclock.LedStrip.Params.{StringMap}
use oclock.Message.{Tickers, init_mode_message_data, mode_message_check_blink}
use oclock.Message.Background.{do_handle_img_background_post, init_background_img}
use oclock.Display.Thread.{DisplayInternal}
use oclock.Display.Message.{requested_message}
use oclock.Display.Backgrounds.{do_handle_msg_background_post, init_background_message}
use oclock.Display.Modes.{
  DisplayMode, nothing, basic_clock, message, Internal, Drawing, Sensed, mode_str, draw,
  change_display_mode, mode_message_fast, mode_message_1sec, mode_nothing_check_motion,
  mode_basic_clock_fast, check_ht1632,
}

-- A ticker of eight bits.
abbrev bump : ℕ → ℕ
bump n = (n + 1) % 256

abbrev with_tickers : {W : Type 0} → Tickers → Internal W → Internal W
with_tickers t s = record s { tickers = t }

-- The slots behind a request. A hundred slots have each index that a request can name, so that `none` is not met.
abbrev written : {A : Type 0} → List A → Option (List A) → List A
written before none = before
written before (some after) = after

module _ {W : Type 0} (drawing : Drawing W) where
  -- The handlers of the mode table.
  unfoldable pub handler_fast : DisplayMode → Internal W → Internal W
  unfolding mode_message_fast
  handler_fast message s = mode_message_fast drawing s
  handler_fast basic_clock s = s
  handler_fast nothing s = s

  unfoldable pub handler_250ms : DisplayMode → Internal W → Internal W
  unfolding mode_message_check_blink
  handler_250ms message s = record s {
    shown = record (s.shown) { message = mode_message_check_blink s.shown.message };
  }
  handler_250ms basic_clock s = draw drawing drawing.basic_clock_up_down s
  handler_250ms nothing s = s

  unfoldable pub handler_500ms : Sensed → DisplayMode → Internal W → Internal W
  unfolding mode_basic_clock_fast
  handler_500ms e basic_clock s = mode_basic_clock_fast drawing e s
  handler_500ms e message s = s
  handler_500ms e nothing s = s

  unfoldable pub handler_1sec : Sensed → DisplayMode → Internal W → Internal W
  handler_1sec e message s = mode_message_1sec drawing s
  handler_1sec e nothing s = mode_nothing_check_motion drawing e s
  handler_1sec e basic_clock s = s

  unfoldable pub handler_10sec : DisplayMode → Internal W → Internal W
  handler_10sec basic_clock s = draw drawing drawing.basic_clock_slow s
  handler_10sec message s = s
  handler_10sec nothing s = s

  unfoldable pub display_tick_fast : Internal W → Internal W
  unfolding handler_fast
  display_tick_fast s =
      handler_fast s.curr_mode (with_tickers (record (s.tickers) { fast = bump s.tickers.fast }) s)

  unfoldable pub display_tick_100ms : Internal W → Internal W
  display_tick_100ms s = with_tickers (record (s.tickers) { t100ms = bump s.tickers.t100ms }) s

  unfoldable pub display_tick_250ms : Internal W → Internal W
  unfolding handler_250ms
  display_tick_250ms s =
      handler_250ms s.curr_mode
        (with_tickers (record (s.tickers) { t250ms = bump s.tickers.t250ms }) s)

  unfoldable pub tick_500ms : Sensed → Internal W → Internal W
  unfolding handler_500ms
  tick_500ms e s =
      handler_500ms e s.curr_mode
        (with_tickers (record (s.tickers) { t500ms = bump s.tickers.t500ms }) s)

  unfoldable pub display_tick_500ms : Sensed → Internal W → Internal W
  unfolding tick_500ms check_ht1632
  display_tick_500ms e s = tick_500ms e (check_ht1632 drawing s)

  abbrev pub dim : Sensed → Internal W → Internal W
  dim e s = record s { dimmer = update_dim e.light_sensor s.dimmer }

  unfoldable pub display_tick_1sec : Sensed → Internal W → Internal W
  display_tick_1sec e s = dim e (
      handler_1sec e s.curr_mode
        (with_tickers (record (s.tickers) { t1sec = bump s.tickers.t1sec }) s))

  unfoldable pub display_tick_5sec : Internal W → Internal W
  display_tick_5sec s = with_tickers (record (s.tickers) { t5sec = bump s.tickers.t5sec }) s

  unfoldable pub display_tick_10sec : Internal W → Internal W
  unfolding handler_10sec
  display_tick_10sec s =
      handler_10sec s.curr_mode
        (with_tickers (record (s.tickers) { t10sec = bump s.tickers.t10sec }) s)

  -- `lookup` is what the dictionary answers for a key, and `random` a random number below the count of texts.
  unfoldable pub do_handle_msg_mode_post : (Str → Str) → ℕ → StringMap → Internal W → Internal W
  unfolding requested_message change_display_mode
  do_handle_msg_mode_post lookup random values s = change_display_mode drawing message (record s {
    shown = record {
      message = requested_message lookup random values s.shown.message;
      color_effect = s.shown.color_effect + 1;
    };
  })

  unfoldable pub init_display : Internal W → Internal W
  unfolding init_mode_message_data init_background_message init_background_img change_display_mode
  init_display s = change_display_mode drawing message (record s {
    slots = record {
      messages = map init_background_message s.slots.messages;
      imgs = map init_background_img s.slots.imgs;
    };
    shown = record {
      message =
          record (init_mode_message_data (pos 1) (pos 5) false false (pos 1) false 0 5
            s.shown.message) { mode_msgs_index = 0; display_color = 2 };
      color_effect = s.shown.color_effect + 1;
    };
  })

  -- The interface of the thread, with what a pass senses.
  unfoldable pub internal_methods : Sensed → (Str → Str) → ℕ → DisplayInternal (Internal W)
  unfolding mode_str do_handle_img_background_post do_handle_msg_background_post
      do_handle_msg_mode_post display_tick_fast display_tick_100ms display_tick_250ms
      display_tick_500ms display_tick_1sec display_tick_5sec display_tick_10sec
  internal_methods e lookup random = record {
    do_handle_msg_mode_post = do_handle_msg_mode_post lookup random;
    do_handle_img_background_post = λ p s. record s {
      slots = record (s.slots) {
        imgs = written s.slots.imgs (do_handle_img_background_post p s.slots.imgs);
      };
    };
    do_handle_msg_background_post = λ p s. record s {
      slots = record (s.slots) {
        messages =
            written s.slots.messages (do_handle_msg_background_post lookup p s.slots.messages);
      };
    };
    get_display_mode_str = λ s. mode_str s.curr_mode;
    get_display_dimmed = λ s. s.dimmer.room_is_dark;
    display_tick_fast = display_tick_fast;
    display_tick_100ms = display_tick_100ms;
    display_tick_250ms = display_tick_250ms;
    display_tick_500ms = display_tick_500ms e;
    display_tick_1sec = display_tick_1sec e;
    display_tick_5sec = display_tick_5sec;
    display_tick_10sec = display_tick_10sec;
    display_tick_25sec = λ s. s;
    display_tick_1min = λ s. s;
  }
