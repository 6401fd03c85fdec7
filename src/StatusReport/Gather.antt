-- ===== src/StatusReport/Gather.antt =====
-- The gathering of a snapshot from the running components: statusReportGather.cpp.
use oclock.Common.{ℕ, ◌≡◌, refl, sym, subst, List, [], Bool, true, false, Option, none, some}
use oclock.Common.Int.{ℤ}
use oclock.Common.Str.{Str, str_lt}
use oclock.Common.SortedMap.{find, Sorted}
use oclock.TimerTick.{Result, ok}
use oclock.Dictionary.{Dictionary, and_then, pure, size}
use oclock.Dictionary.Sound.{IsSound, view}
use oclock.Dictionary.Visit.{visit_all, get_dictionary_status}
use oclock.Dictionary.Next.{IsSame, and_then_ok}
use oclock.Dictionary.Visiting.{visit_all_lem}
use oclock.LedStrip.Thread.{LedStrip, get_internal_led_strip_mode}
use oclock.LightSensor.{LightSensor, get_light_value}
use oclock.MotionSensor.{MotionSensor, get_motion_value}
use oclock.Mqtt.{MqttClientInfo}
use oclock.StatusReport.Render.{StatusSnapshot}
use oclock.StatusReport.System.{read_system_status}

-- The components that are read, with the two files. What the web handler and the display answer is given, and
-- `str_error` is the mosquitto library's text of a result.
pub record Components : Type 0 where
  pub web_handler_hits : Option (List (Str × ℕ))
  pub motion_sensor : MotionSensor
  pub light_sensor : LightSensor
  pub display_mode : Str
  pub display_dimmed : Bool
  pub led_strip : LedStrip
  pub mqtt_client_info : MqttClientInfo
  pub str_error : ℤ → Str
  pub loadavg : Option Str
  pub meminfo : Option Str

abbrev pub is_there {ℓ} : {A : Type ℓ} → Option A → Bool
is_there none = false
is_there (some x) = true

abbrev pub or_empty {ℓ} : {A : Type ℓ} → Option (List A) → List A
or_empty none = []
or_empty (some xs) = xs

unfoldable pub snapshot_of : Components → Dictionary → List (Str × Str) → StatusSnapshot
unfolding get_motion_value get_light_value get_internal_led_strip_mode get_dictionary_status size
    read_system_status
snapshot_of c d entries = record {
  web_handler_available = is_there c.web_handler_hits;
  handler_hits = or_empty c.web_handler_hits;
  motion = (get_motion_value c.motion_sensor).1;
  light_value = get_light_value c.light_sensor;
  display_mode = c.display_mode;
  display_dimmed = c.display_dimmed;
  led_strip_mode = get_internal_led_strip_mode c.led_strip;
  mqtt = c.mqtt_client_info;
  mqtt_broker_ip = or_empty c.mqtt_client_info.mqtt_broker_ip;
  mqtt_last_loop_rc_str = c.str_error c.mqtt_client_info.last_loop_rc;
  dictionary_status = get_dictionary_status d;
  dictionary_size = size d;
  dictionary_entries = entries;
  system = (read_system_status c.loadavg c.meminfo).0;
}

-- The counters and the size are read before the entries are visited. none is the end of the visit's fuel.
unfoldable pub gather_status_snapshot :
    Components → Dictionary → Dictionary × Result (Option StatusSnapshot)
unfolding visit_all snapshot_of
gather_status_snapshot c d = and_then (visit_all d) (λ found. elim found [
  | none ↦ pure none
  | some entries ↦ pure (some (snapshot_of c d entries))
])

-- A snapshot and its dictionary.
pub record IsGathered (c : Components) (d : Dictionary)
    (r : Dictionary × Result (Option StatusSnapshot)) : Type 0 where
  pub snapshot : StatusSnapshot
  pub result : r.1 ≡ ok (some snapshot)
  pub same : IsSame d r.0
  pub in_order : Sorted snapshot.dictionary_entries
  pub lists : (i : Str) → str_lt [] i ≡ true → find i snapshot.dictionary_entries ≡ view d i

-- On a sound dictionary gathering ends without fault; the entries of the snapshot stand in the order of their
-- keys and give each key that is not empty exactly the value that a reader sees, and no reader of the
-- dictionary can tell that they were gathered.
pub gather_status_snapshot_lem :
    (c : Components) (d : Dictionary) → IsSound d → IsGathered c d (gather_status_snapshot c d)
unfolding gather_status_snapshot
gather_status_snapshot_lem c d s =
    let v = visit_all_lem d s in
    subst (IsGathered c d)
      (sym (
        and_then_ok (visit_all d) (some v.found)
          (λ found. elim found [
            | none ↦ pure none
            | some entries ↦ pure (some (snapshot_of c d entries))
          ])
          v.result))
      (record {
        snapshot = snapshot_of c d v.found;
        result = refl;
        same = v.same;
        in_order = v.sorted;
        lists = v.lists;
      })
