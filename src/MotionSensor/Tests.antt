-- ===== src/MotionSensor/Tests.antt =====
-- The motion sensor at concrete counters.
use oclock.Common.{◌+◌, ◌*◌, ◌≡◌, [], true, false, arith, ltb, if◌then◌else◌}
use oclock.MotionSensor.{MotionSensor, check_motion_sensor}
use oclock.MotionSensor.Elapsed.{InRange, elapsed, check_unchanged}

abbrev almost_two : MotionSensor
almost_two = record {
  motion_info = record {
    curr_motion_detected = true;
    last_changed_sec = 59;
    last_changed_min = 59;
    last_changed_hour = 1;
  };
  registry = [];
}

almost_two-InRange : InRange almost_two.motion_info
almost_two-InRange = record { sec = omega arith; min = omega arith; hour = omega arith }

check_unchanged_example :
    let (t, changed) = check_motion_sensor true almost_two in
    (changed ≡ false)
    × (t.registry ≡ almost_two.registry)
    × (t.motion_info.curr_motion_detected ≡ true)
    × (elapsed t.motion_info ≡ (
        if ltb (elapsed almost_two.motion_info + 1) (255 * 3600)
        then elapsed almost_two.motion_info + 1
        else 254 * 3600))
check_unchanged_example = check_unchanged almost_two almost_two-InRange
