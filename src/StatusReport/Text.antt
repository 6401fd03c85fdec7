-- ===== src/StatusReport/Text.antt =====
-- The text page of the status: `renderStatusText` of statusReport.cpp and `renderTextSystem`.
use oclock.Common.{ℕ, List, [], ◌∷◌, ◌++◌, Bool, if◌then◌else◌}
use oclock.Common.Int.{pos}
use oclock.Common.Str.{Str, str}
use oclock.Common.Decimal.{cast_int, decimal}
use oclock.MotionSensor.{MotionInfo}
use oclock.StatusReport.{append_int, append_uint64, append_load}
use oclock.StatusReport.System.{SystemStatus}
use oclock.StatusReport.Render.{StatusSnapshot, concat, is_empty, mem_values}

unfoldable pub render_text_mem : Bool → List (Str × ℕ) → Str
unfolding append_uint64
render_text_mem valid [] = []
render_text_mem valid ((name, value) ∷ rest) = concat (
    name
    ∷ str ": "
    ∷ (if valid then append_uint64 value else str "unavailable")
    ∷ str "\n"
    ∷ render_text_mem valid rest
    ∷ [])

unfoldable pub render_text_load : SystemStatus → Str
unfolding append_load
render_text_load s =
    if s.load_valid
    then concat (
        append_load s.load_avg1_hundredths
        ∷ str " "
        ∷ append_load s.load_avg5_hundredths
        ∷ str " "
        ∷ append_load s.load_avg15_hundredths
        ∷ [])
    else str "unavailable"

unfoldable pub render_text_system : SystemStatus → Str
unfolding render_text_load render_text_mem
render_text_system s = concat (
    str "cpu_load: "
    ∷ render_text_load s
    ∷ str "\n"
    ∷ render_text_mem s.mem_valid (mem_values s)
    ∷ [])

-- A name and its value on a line.
abbrev pub text_line : Str → Str → Str
text_line name value = name ++ (value ++ str "\n")

abbrev pub yes_no : Bool → Str
yes_no b = if b then str "yes" else str "no"

unfoldable pub text_count : Str → ℕ → Str
unfolding append_int cast_int
text_count name n = text_line name (append_int (cast_int n))

unfoldable pub render_text_hits : List (Str × ℕ) → Str
unfolding decimal
render_text_hits [] = []
render_text_hits ((name, hits) ∷ rest) =
    concat
      (str "hitCount: " ∷ name ∷ str " = " ∷ decimal hits ∷ str "\n" ∷ render_text_hits rest ∷ [])

unfoldable pub render_text_motion : MotionInfo → Str
unfolding append_int
render_text_motion m = concat (
    str "motion: "
    ∷ (if m.curr_motion_detected then str "y" else str "n")
    ∷ str "\n"
    ∷ str "motion_last_change: "
    ∷ append_int (pos m.last_changed_hour)
    ∷ str ":"
    ∷ append_int (pos m.last_changed_min)
    ∷ str ":"
    ∷ append_int (pos m.last_changed_sec)
    ∷ str "\n"
    ∷ [])

unfoldable pub render_text_mqtt : StatusSnapshot → Str
unfolding append_int text_count
render_text_mqtt s =
    let i = s.mqtt in
    concat (
      text_line (str "mqttBrokerConnected: ") (yes_no i.mqtt_broker_connected)
      ∷ str "mqttLastLoopRc: "
      ∷ append_int i.last_loop_rc
      ∷ str " ("
      ∷ s.mqtt_last_loop_rc_str
      ∷ str ")"
      ∷ str "\n"
      ∷ text_line (str "mqttBrokerIp: ") s.mqtt_broker_ip
      ∷ text_line (str "mqttBrokerPort: ") (append_int i.mqtt_broker_port)
      ∷ text_line (str "mqttKeepAlive (secs): ") (append_int i.mqtt_keep_alive)
      ∷ text_count (str "mqttConnectAttempts: ") i.connect_attempts
      ∷ text_count (str "mqttConnects: ") i.connects
      ∷ text_count (str "mqttDisconnects: ") i.disconnects
      ∷ text_count (str "mqttPublishes: ") i.publishes
      ∷ text_count (str "mqttPublishedMotions: ") i.published_motions
      ∷ text_count (str "mqttPublishesDropped: ") i.publishes_dropped
      ∷ text_count (str "mqttPublishCallbacks: ") i.publish_callbacks
      ∷ text_count (str "mqttMessages: ") i.messages
      ∷ text_count (str "mqttTicks: ") i.ticks
      ∷ [])

unfoldable pub render_text_entries : List (Str × Str) → Str
render_text_entries [] = []
render_text_entries ((key, value) ∷ rest) =
    concat (str "dict: " ∷ key ∷ str " => " ∷ value ∷ str "\n" ∷ render_text_entries rest ∷ [])

unfoldable pub render_text_dictionary : StatusSnapshot → Str
unfolding text_count render_text_entries
render_text_dictionary s = concat (
    text_count (str "dictSize: ") s.dictionary_size
    ∷ text_count (str "dictTicks: ") s.dictionary_status.ticks
    ∷ text_count (str "dictAdds: ") s.dictionary_status.entries_added
    ∷ text_count (str "dictRemoves: ") s.dictionary_status.entries_removed
    ∷ text_count (str "dictExpires: ") s.dictionary_status.entries_expired
    ∷ (if is_empty s.dictionary_entries
        then []
        else str "\n" ++ render_text_entries s.dictionary_entries)
    ∷ [])

unfoldable pub render_status_text : StatusSnapshot → Str
unfolding render_text_hits render_text_motion text_count render_text_system render_text_mqtt
    render_text_dictionary
render_status_text s = concat (
    str "Stats and status\n\n"
    ∷ (if s.web_handler_available then render_text_hits s.handler_hits ++ str "\n" else [])
    ∷ render_text_motion s.motion
    ∷ text_count (str "light_sensor: ") s.light_value
    ∷ text_line (str "display_mode: ") s.display_mode
    ∷ text_line (str "display_dimmed: ") (yes_no s.display_dimmed)
    ∷ text_line (str "led_strip_mode: ") s.led_strip_mode
    ∷ str "\n"
    ∷ render_text_system s.system
    ∷ str "\n"
    ∷ render_text_mqtt s
    ∷ str "\n"
    ∷ render_text_dictionary s
    ∷ [])
