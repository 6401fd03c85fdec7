-- ===== src/StatusReport/Render.antt =====
-- The JSON document of the status: `renderStatusJson` of statusReport.cpp and the functions that it calls. What
-- is appended to the buffer, in its order, is a list of pieces.
use oclock.Common.{ℕ, List, [], ◌∷◌, ◌++◌, Bool, true, false, not, ◌||◌, if◌then◌else◌}
use oclock.Common.Int.{pos}
use oclock.Common.Str.{Str, str}
use oclock.Common.Decimal.{cast_int}
use oclock.Dictionary.{DictionaryStatus}
use oclock.MotionSensor.{MotionInfo}
use oclock.Mqtt.{MqttClientInfo}
use oclock.StatusReport.{
  append_int, append_uint64, append_load, append_json_bool, append_json_string,
}
use oclock.StatusReport.System.{SystemStatus}

pub record StatusSnapshot : Type 0 where
  pub web_handler_available : Bool
  pub handler_hits : List (Str × ℕ)
  pub motion : MotionInfo
  pub light_value : ℕ
  pub display_mode : Str
  pub display_dimmed : Bool
  pub led_strip_mode : Str
  pub mqtt : MqttClientInfo
  pub mqtt_broker_ip : Str
  pub mqtt_last_loop_rc_str : Str
  pub dictionary_status : DictionaryStatus
  pub dictionary_size : ℕ
  pub dictionary_entries : List (Str × Str)
  pub system : SystemStatus

unfoldable pub concat : List Str → Str
concat [] = []
concat (piece ∷ pieces) = piece ++ concat pieces

abbrev pub is_empty {ℓ} : {A : Type ℓ} → List A → Bool
is_empty [] = true
is_empty (x ∷ xs) = false

-- What stands between an entry and those after it.
unfoldable pub separator {ℓ} : {A : Type ℓ} → List A → Str
separator rest = if is_empty rest then str "\n" else str ",\n"

abbrev pub mem_values : SystemStatus → List (Str × ℕ)
mem_values s =
    (str "mem_free_kb", s.mem_free_kb)
    ∷ (str "mem_available_kb", s.mem_available_kb)
    ∷ (str "mem_total_kb", s.mem_total_kb)
    ∷ []

unfoldable pub render_json_mem : Bool → List (Str × ℕ) → Str
unfolding append_uint64 separator
render_json_mem valid [] = []
render_json_mem valid ((name, value) ∷ rest) = concat (
    str "    \""
    ∷ name
    ∷ str "\": "
    ∷ (if valid then append_uint64 value else str "null")
    ∷ separator rest
    ∷ render_json_mem valid rest
    ∷ [])

unfoldable pub render_json_load : SystemStatus → Str
unfolding append_load
render_json_load s =
    if s.load_valid
    then concat (
        str "{\"1min\": "
        ∷ append_load s.load_avg1_hundredths
        ∷ str ", \"5min\": "
        ∷ append_load s.load_avg5_hundredths
        ∷ str ", \"15min\": "
        ∷ append_load s.load_avg15_hundredths
        ∷ str "}"
        ∷ [])
    else str "null"

unfoldable pub render_json_system : SystemStatus → Str
unfolding render_json_load render_json_mem
render_json_system s = concat (
    str "  \"system\": {\n"
    ∷ str "    \"cpu_load\": "
    ∷ render_json_load s
    ∷ str ",\n"
    ∷ render_json_mem s.mem_valid (mem_values s)
    ∷ str "  },\n"
    ∷ [])

abbrev pub counter_values : MqttClientInfo → List (Str × ℕ)
counter_values i =
    (str "connect_attempts", i.connect_attempts)
    ∷ (str "connects", i.connects)
    ∷ (str "disconnects", i.disconnects)
    ∷ (str "publishes", i.publishes)
    ∷ (str "published_motions", i.published_motions)
    ∷ (str "publishes_dropped", i.publishes_dropped)
    ∷ (str "publish_callbacks", i.publish_callbacks)
    ∷ (str "messages", i.messages)
    ∷ (str "ticks", i.ticks)
    ∷ []

unfoldable pub render_json_counters : List (Str × ℕ) → Str
unfolding append_int cast_int
render_json_counters [] = []
render_json_counters ((name, value) ∷ rest) = concat (
    str ",\n    \""
    ∷ name
    ∷ str "\": "
    ∷ append_int (cast_int value)
    ∷ render_json_counters rest
    ∷ [])

unfoldable pub render_json_mqtt : StatusSnapshot → Str
unfolding append_json_bool append_json_string append_int render_json_counters
render_json_mqtt s = concat (
    str "  \"mqtt\": {\n"
    ∷ str "    \"broker_connected\": "
    ∷ append_json_bool s.mqtt.mqtt_broker_connected
    ∷ str ",\n    \"broker_ip\": "
    ∷ append_json_string s.mqtt_broker_ip
    ∷ str ",\n    \"broker_port\": "
    ∷ append_int s.mqtt.mqtt_broker_port
    ∷ str ",\n    \"keep_alive_secs\": "
    ∷ append_int s.mqtt.mqtt_keep_alive
    ∷ str ",\n    \"last_loop_rc\": "
    ∷ append_int s.mqtt.last_loop_rc
    ∷ str ",\n    \"last_loop_rc_str\": "
    ∷ append_json_string s.mqtt_last_loop_rc_str
    ∷ render_json_counters (counter_values s.mqtt)
    ∷ str "\n  },\n"
    ∷ [])

unfoldable pub render_json_pairs : List (Str × Str) → Str → Str
unfolding append_json_string separator
render_json_pairs [] indent = []
render_json_pairs ((key, value) ∷ rest) indent = concat (
    indent
    ∷ append_json_string key
    ∷ str ": "
    ∷ append_json_string value
    ∷ separator rest
    ∷ render_json_pairs rest indent
    ∷ [])

unfoldable pub render_json_motion : MotionInfo → Str
unfolding append_json_bool append_int
render_json_motion m = concat (
    str "  \"motion\": {\n"
    ∷ str "    \"detected\": "
    ∷ append_json_bool m.curr_motion_detected
    ∷ str ",\n    \"last_change_hour\": "
    ∷ append_int (pos m.last_changed_hour)
    ∷ str ",\n    \"last_change_min\": "
    ∷ append_int (pos m.last_changed_min)
    ∷ str ",\n    \"last_change_sec\": "
    ∷ append_int (pos m.last_changed_sec)
    ∷ str "\n  },\n"
    ∷ [])

unfoldable pub render_json_dictionary : StatusSnapshot → Str
unfolding append_int cast_int render_json_pairs
render_json_dictionary s = concat (
    str "  \"dictionary\": {\n"
    ∷ str "    \"size\": "
    ∷ append_int (cast_int s.dictionary_size)
    ∷ str ",\n    \"ticks\": "
    ∷ append_int (cast_int s.dictionary_status.ticks)
    ∷ str ",\n    \"adds\": "
    ∷ append_int (cast_int s.dictionary_status.entries_added)
    ∷ str ",\n    \"removes\": "
    ∷ append_int (cast_int s.dictionary_status.entries_removed)
    ∷ str ",\n    \"expires\": "
    ∷ append_int (cast_int s.dictionary_status.entries_expired)
    ∷ str ",\n    \"entries\": {"
    ∷ (if is_empty s.dictionary_entries
        then str "}\n"
        else str "\n" ++ (render_json_pairs s.dictionary_entries (str "      ") ++ str "    }\n"))
    ∷ str "  },\n"
    ∷ [])

unfoldable pub render_json_hits : List (Str × ℕ) → Str
unfolding append_json_string append_int cast_int separator
render_json_hits [] = []
render_json_hits ((name, hits) ∷ rest) = concat (
    str "    "
    ∷ append_json_string name
    ∷ str ": "
    ∷ append_int (cast_int hits)
    ∷ separator rest
    ∷ render_json_hits rest
    ∷ [])

unfoldable pub render_json_handlers : StatusSnapshot → Str
unfolding render_json_hits
render_json_handlers s =
    str "  \"handlers\": {\"hits\": {"
    ++ (if not s.web_handler_available || is_empty s.handler_hits
        then str "}}\n"
        else str "\n" ++ (render_json_hits s.handler_hits ++ str "  }}\n"))

abbrev pub status_json_version : ℕ
status_json_version = 1

unfoldable pub render_status_json : StatusSnapshot → Str
unfolding append_int cast_int append_json_bool append_json_string render_json_system
    render_json_motion render_json_mqtt render_json_dictionary render_json_handlers
render_status_json s = concat (
    str "{\n"
    ∷ str "  \"version\": "
    ∷ append_int (pos status_json_version)
    ∷ str ",\n"
    ∷ render_json_system s.system
    ∷ render_json_motion s.motion
    ∷ str "  \"light_sensor\": "
    ∷ append_int (cast_int s.light_value)
    ∷ str ",\n"
    ∷ str "  \"display\": {\"mode\": "
    ∷ append_json_string s.display_mode
    ∷ str ", \"dimmed\": "
    ∷ append_json_bool s.display_dimmed
    ∷ str "},\n"
    ∷ str "  \"led_strip\": {\"mode\": "
    ∷ append_json_string s.led_strip_mode
    ∷ str "},\n"
    ∷ render_json_mqtt s
    ∷ render_json_dictionary s
    ∷ render_json_handlers s
    ∷ str "}\n"
    ∷ [])
