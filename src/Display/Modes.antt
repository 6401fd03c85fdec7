-- ===== src/Display/Modes.antt =====
-- The modes of the display and their ticks: the mode table, changeDisplayMode, the handlers of the modes and the methods
-- of DisplayInternal in displayInternal.cpp. The drawing is an interface on the matrix.
use oclock.Common.{ℕ, ◌+◌, List, Bool, true, false, not, ◌&&◌, ◌||◌, ltb, if◌then◌else◌}
use oclock.Common.Int.{ℤ}
use oclock.Common.Str.{Str, str}
use oclock.Dimmer.{Dimmer, thread_id_display}
use oclock.Ht1632.{com_size, out_size}
use oclock.Inbox.{InboxMsgType, broadcast, new_msg}
use oclock.LightSensor.{LightSensor}
use oclock.MotionSensor.{MotionSensor, MotionInfo, get_motion_value}
use oclock.Message.{ModeMessageData, Tickers, mode_message_check_timeout}
use oclock.Message.Background.{BackgroundImg}
use oclock.Display.Message.{Shown, mode_message_init, mode_message_move}
use oclock.Display.Backgrounds.{BackgroundMessage}

pub data DisplayMode : Type 0 where
  nothing basic_clock message : DisplayMode

-- Where the pixel of the mode without a display stands, and its color.
pub record Dot : Type 0 where
  pub row : ℕ
  pub col : ℕ
  pub color : ℕ

pub record Slots : Type 0 where
  pub messages : List BackgroundMessage
  pub imgs : List BackgroundImg

-- What the handlers draw on the matrix `W`, which also keeps the frames of their animations and the random numbers.
pub record Drawing (W : Type 0) : Type 0 where
  pub clear_and_render : W → W
  pub basic_clock_slow : W → W
  pub basic_clock_show_seconds : W → W
  pub basic_clock_up_down : W → W
  pub update_motion_detected_pixel : Bool → W → W
  pub message_frame : Shown → Slots → Tickers → W → W
  pub nothing_frame : Dot → W → W
  pub reinit : W → W
  pub texts : ℕ → Str
  pub text_width : Str → ℕ → ℤ

-- The locals of displayInternal.cpp, with the brightness and the inboxes in the dimmer.
pub record Internal (W : Type 0) : Type 0 where
  pub curr_mode : DisplayMode
  pub shown : Shown
  pub slots : Slots
  pub tickers : Tickers
  pub dot : Dot
  pub check_count : ℕ
  pub dimmer : Dimmer
  pub matrix : W

-- What the handlers read of the other components.
pub record Sensed : Type 0 where
  pub motion_sensor : MotionSensor
  pub light_sensor : LightSensor

unfoldable pub inbox_msg_type : DisplayMode → InboxMsgType
inbox_msg_type nothing = InboxMsgType.display_mode_nothing
inbox_msg_type basic_clock = InboxMsgType.display_mode_basic_clock
inbox_msg_type message = InboxMsgType.display_mode_message

unfoldable pub mode_str : DisplayMode → Str
mode_str nothing = str "nothing"
mode_str basic_clock = str "basicClock"
mode_str message = str "message"

-- The next place and color of the dot.
unfoldable pub next_dot : Dot → Dot
next_dot d =
    if ltb (d.color + 1) 3
    then record d { color = d.color + 1 }
    else if ltb (d.row + 1) out_size
    then record d { color = 0; row = d.row + 1 }
    else record { color = 0; row = 0; col = if ltb (d.col + 1) com_size then d.col + 1 else 0 }

-- No motion for more than fifteen minutes.
unfoldable pub is_idle : MotionInfo → Bool
is_idle i = not i.curr_motion_detected && (ltb 15 i.last_changed_min || ltb 0 i.last_changed_hour)

unfoldable pub is_message : DisplayMode → Bool
is_message nothing = false
is_message basic_clock = false
is_message message = true

module _ {W : Type 0} (drawing : Drawing W) where
  abbrev pub draw : (W → W) → Internal W → Internal W
  draw f s = record s { matrix = f s.matrix }

  abbrev pub announce : InboxMsgType → Internal W → Internal W
  announce t s = record s {
    dimmer = record (s.dimmer) {
      registry = broadcast (new_msg t) thread_id_display s.dimmer.registry;
    };
  }

  -- The handlers at a mode's start.
  unfoldable pub handler_init : DisplayMode → Internal W → Internal W
  unfolding mode_message_init
  handler_init nothing s = s
  handler_init basic_clock s = draw drawing.basic_clock_slow s
  handler_init message s = record s {
    shown = record (s.shown) {
      message = mode_message_init drawing.texts drawing.text_width s.shown.message;
    };
  }

  unfoldable pub change_display_mode : DisplayMode → Internal W → Internal W
  unfolding handler_init inbox_msg_type broadcast new_msg
  change_display_mode mode s =
      announce (inbox_msg_type mode)
        (handler_init mode (draw drawing.clear_and_render (record s { curr_mode = mode })))

  -- A message that is completed calls its callback.
  unfoldable pub after_message : Internal W → Shown × Bool → Internal W
  unfolding change_display_mode
  after_message s (shown, true) = change_display_mode basic_clock (record s { shown = shown })
  after_message s (shown, false) = record s { shown = shown }

  unfoldable pub mode_message_fast : Internal W → Internal W
  unfolding after_message mode_message_move
  mode_message_fast s =
      after_message (draw (drawing.message_frame s.shown s.slots s.tickers) s)
        (mode_message_move drawing.text_width s.shown)

  unfoldable pub after_timeout : Internal W → ModeMessageData × Bool → Internal W
  unfolding after_message
  after_timeout s (m, completed) = after_message s (record (s.shown) { message = m }, completed)

  unfoldable pub mode_message_1sec : Internal W → Internal W
  unfolding after_timeout mode_message_check_timeout
  mode_message_1sec s = after_timeout s (mode_message_check_timeout s.shown.message)

  unfoldable pub mode_nothing_check_motion : Sensed → Internal W → Internal W
  unfolding change_display_mode next_dot get_motion_value
  mode_nothing_check_motion e s =
      if (get_motion_value e.motion_sensor).0
      then change_display_mode basic_clock s
      else record (draw (drawing.nothing_frame s.dot) s) { dot = next_dot s.dot }

  unfoldable pub mode_basic_clock_fast : Sensed → Internal W → Internal W
  unfolding change_display_mode is_idle get_motion_value
  mode_basic_clock_fast e s =
      if is_idle (get_motion_value e.motion_sensor).1
      then change_display_mode nothing s
      else draw (drawing.update_motion_detected_pixel (get_motion_value e.motion_sensor).0)
          (draw drawing.basic_clock_show_seconds s)

  -- `checkHT1632`.
  unfoldable pub check_ht1632 : Internal W → Internal W
  unfolding is_message
  check_ht1632 s =
      if ltb (s.check_count + 1) 13 && not (is_message s.curr_mode)
      then record s { check_count = s.check_count + 1 }
      else record (draw drawing.reinit s) { check_count = 0 }
