-- ===== src/LedStrip/Tests.antt =====
-- The strip's effects on two LEDs.
use oclock.Common.{◌≡◌, refl, [], ◌∷◌, true, arith}
use oclock.Lpd8806.{Lpd8806, allocated, bytes_of}
use oclock.Lpd8806.Pixels.{Wf}
use oclock.Common.{List, some, false}
use oclock.Common.Str.{str, str_eq}
use oclock.LedStrip.Params.{StringMap}
use oclock.LedStrip.Modes.{LedStripInternalInfo}
use oclock.LedStrip.Change.{wanted_mode, timeout_secs, new_led_strip_internal}
use oclock.LedStrip.Timeout.{Tick, fast, sec, ten, min, seconds, ticks, TimesOut, ticks_time_out}
use oclock.LedStrip.Requests.{IsInTable, posts, ticked, happen, happen-new-IsInTable}
use oclock.LedStrip.Thread.{LedStrip, Event, enqueues, passes}
use oclock.Common.Int.{pos}

abbrev two_leds : Lpd8806
two_leds = record {
  has_spi_output = true;
  num_leds = 2;
  largest_changed_led = 1;
  pixels = allocated (128 ∷ 129 ∷ 255 ∷ 128 ∷ 128 ∷ 128 ∷ []);
  clkpin = 0;
  datapin = 0;
  begun = true;
  wire = [];
}

two_leds-Wf : Wf two_leds
unfolding bytes_of
two_leds-Wf = (refl, omega arith, λ h. refl)

abbrev in_rainbow : LedStripInternalInfo
in_rainbow = record {
  lpd8806 = two_leds;
  curr_mode_index = 3;
  secs_until_going_to_manual_mode = pos 1;
  params = [];
  pastel_pixel = 0;
  rainbow_j = 0;
  scan_color = 0;
  scan_i = pos 0;
  scan_increment = pos 1;
  current_counter_value = 0;
  draws = λ n. n;
  drawn = 0;
}

abbrev some_ticks : List Tick
some_ticks = sec ∷ fast ∷ min ∷ sec ∷ ten ∷ []

ticks_time_out_example : TimesOut 3 1 (seconds some_ticks) (ticks some_ticks in_rainbow)
ticks_time_out_example = ticks_time_out 1 some_ticks in_rainbow refl

two_seconds : seconds some_ticks ≡ 2
unfolding seconds
two_seconds = refl

abbrev fill_request : StringMap
fill_request =
    (str "ledStripMode", str "2") ∷ (str "red", str "0x7f") ∷ (str "timeout", str "010") ∷ []

fill_request_read : (wanted_mode fill_request ≡ some (pos 2)) × (timeout_secs fill_request ≡ pos 8)
unfolding wanted_mode timeout_secs str_eq
fill_request_read = (refl, refl)

happen-new-IsInTable_example :
    IsInTable
      (happen (posts fill_request ∷ ticked sec ∷ []) (new_led_strip_internal two_leds (λ n. n)))
happen-new-IsInTable_example =
    happen-new-IsInTable two_leds (λ n. n) (posts fill_request ∷ ticked sec ∷ [])

abbrev thread : LedStrip
thread = record { todos = []; internal = some in_rainbow }

abbrev two_requests : List Event
two_requests =
    enqueues fill_request
    ∷ enqueues []
    ∷ passes (record { one_sec = true; ten_sec = false; one_min = false })
    ∷ []
