-- ===== src/MotionSensor.antt =====
-- The motion sensor: motionSensor.cpp, with readMotionDetected of motionInput.cpp. The level of
-- the pin is an argument. The counters are `Int8U`.
mod Tests
pub mod Elapsed
use oclock.Common.{
  ℕ, zero, ◌+◌, ◌%◌, ◌^◌, List, [], ◌∷◌, ◌++◌, Bool, true, false, ltb, if◌then◌else◌, replicate,
}
use oclock.Inbox.{InboxMsg, InboxMsgType, Registry, broadcast}

abbrev pub thread_id_motion_sensor : ℕ
thread_id_motion_sensor = 3

pub record MotionInfo : Type 0 where
  pub curr_motion_detected : Bool
  pub last_changed_sec : ℕ
  pub last_changed_min : ℕ
  pub last_changed_hour : ℕ

-- The sensor, with the registry of inboxes that it notifies.
pub record MotionSensor : Type 0 where
  pub motion_info : MotionInfo
  pub registry : Registry

unfoldable pub new_motion_info : MotionInfo
new_motion_info = record {
  curr_motion_detected = false;
  last_changed_sec = 0;
  last_changed_min = 0;
  last_changed_hour = 0;
}

unfoldable pub get_motion_value : MotionSensor → Bool × MotionInfo
get_motion_value s = (s.motion_info.curr_motion_detected, s.motion_info)

-- The bytes of the structure, at the front of a cleared payload.
unfoldable pub motion_payload : MotionInfo → List ℕ
motion_payload i =
    (if i.curr_motion_detected then 1 else 0)
    ∷ i.last_changed_sec
    ∷ i.last_changed_min
    ∷ i.last_changed_hour
    ∷ replicate 60 0

unfoldable pub motion_msg : MotionInfo → InboxMsg
unfolding motion_payload
motion_msg i = record {
  inbox_msg_type =
      if i.curr_motion_detected then InboxMsgType.motion_on else InboxMsgType.motion_off;
  payload = motion_payload i;
}

notify_motion_sensor_change : MotionSensor → MotionSensor
unfolding motion_msg broadcast
notify_motion_sensor_change s = record s {
  registry = broadcast (motion_msg s.motion_info) thread_id_motion_sensor s.registry;
}

-- The counters when nothing has changed.
count_hour : MotionInfo → MotionInfo
count_hour i =
    if ltb i.last_changed_hour 254
    then record i { last_changed_hour = (i.last_changed_hour + 1) % 2 ^ 8 }
    else i

count_min : MotionInfo → MotionInfo
unfolding count_hour
count_min i =
    let min' = (i.last_changed_min + 1) % 2 ^ 8 in
    if ltb 59 min'
    then count_hour (record i { last_changed_min = 0 })
    else record i { last_changed_min = min' }

unfoldable pub count_sec : MotionInfo → MotionInfo
unfolding count_min
count_sec i =
    let sec' = (i.last_changed_sec + 1) % 2 ^ 8 in
    if ltb 59 sec'
    then count_min (record i { last_changed_sec = 0 })
    else record i { last_changed_sec = sec' }

unfoldable pub same_level : Bool → Bool → Bool
same_level true b = b
same_level false true = false
same_level false false = true

reset_counters : MotionSensor → MotionSensor
reset_counters s = record s {
  motion_info = record (s.motion_info) {
    last_changed_sec = 0;
    last_changed_min = 0;
    last_changed_hour = 0;
  };
}

-- One reading of the pin. The notice goes out with the counters as they were.
unfoldable pub check_motion_sensor : Bool → MotionSensor → MotionSensor × Bool
unfolding notify_motion_sensor_change count_sec same_level reset_counters
check_motion_sensor level s =
    if same_level s.motion_info.curr_motion_detected level
    then (record s { motion_info = count_sec s.motion_info }, false)
    else (
      reset_counters (
          notify_motion_sensor_change
            (record s { motion_info = record (s.motion_info) { curr_motion_detected = level } })),
      true,
    )
