-- ===== src/MotionSensor/Elapsed.antt =====
-- What the counters of the motion sensor mean, and when the other threads hear of a change.
use oclock.Common.{
  ℕ, ◌+◌, ◌*◌, ◌≤◌, ◌≡◌, ◌≢◌, refl, sym, Bool, true, false, arith, ltb, if◌then◌else◌, Bool-cases,
  inl, inr,
}
use oclock.Inbox.{broadcast}
use oclock.MotionSensor.{
  MotionInfo, MotionSensor, check_motion_sensor, count_sec, motion_msg, same_level,
  thread_id_motion_sensor,
}

-- The ranges of the counters.
pub record InRange (i : MotionInfo) : Type 0 where
  pub sec : i.last_changed_sec ≤ 59
  pub min : i.last_changed_min ≤ 59
  pub hour : i.last_changed_hour ≤ 254

-- The seconds that the counters stand for.
unfoldable pub elapsed : MotionInfo → ℕ
elapsed i = i.last_changed_hour * 3600 + i.last_changed_min * 60 + i.last_changed_sec

count_sec-InRange : (i : MotionInfo) → InRange i → InRange (count_sec i)
unfolding count_sec
count_sec-InRange i r = ground arith

-- Every reading keeps the counters in range: seconds and minutes up to 59, hours up to 254, so
-- that no counter ever wraps.
pub check-InRange :
    (level : Bool) (s : MotionSensor)
    → InRange s.motion_info
    → InRange (check_motion_sensor level s).0.motion_info
unfolding check_motion_sensor
check-InRange level s r = elim (Bool-cases (same_level s.motion_info.curr_motion_detected level)) [
  | inl e ↦ rw e (count_sec-InRange s.motion_info r)
  | inr e ↦ rw e (omega arith)
]

same_level_refl : (b : Bool) → same_level b b ≡ true
unfolding same_level
same_level_refl true = refl
same_level_refl false = refl

same_level_ne : (a b : Bool) → a ≢ b → same_level a b ≡ false
unfolding same_level
same_level_ne true true n = absurd (n refl)
same_level_ne true false n = refl
same_level_ne false true n = refl
same_level_ne false false n = absurd (n refl)

count_sec-level : (i : MotionInfo) → (count_sec i).curr_motion_detected ≡ i.curr_motion_detected
unfolding count_sec
count_sec-level i = ground arith

count_sec-elapsed :
    (i : MotionInfo)
    → InRange i
    → elapsed (count_sec i)
      ≡ (if ltb (elapsed i + 1) (255 * 3600) then elapsed i + 1 else 254 * 3600)
unfolding count_sec elapsed
count_sec-elapsed i r = ground arith

-- A reading at the same level adds one second, tells no one and reports no change, until the
-- counters reach 254:59:59; then the hour stays and the minutes start again.
pub check_unchanged :
    (s : MotionSensor)
    → InRange s.motion_info
    → let (t, changed) = check_motion_sensor s.motion_info.curr_motion_detected s in
      (changed ≡ false)
      × (t.registry ≡ s.registry)
      × (t.motion_info.curr_motion_detected ≡ s.motion_info.curr_motion_detected)
      × (elapsed t.motion_info ≡ (
          if ltb (elapsed s.motion_info + 1) (255 * 3600)
          then elapsed s.motion_info + 1
          else 254 * 3600))
unfolding check_motion_sensor
check_unchanged s r =
    rw (same_level_refl s.motion_info.curr_motion_detected)
      (refl, refl, count_sec-level s.motion_info, count_sec-elapsed s.motion_info r)

-- A reading at the other level is reported, starts the counters again, and is broadcast to every
-- other thread with the counters as they stood before it.
pub check_changed :
    (level : Bool) (s : MotionSensor)
    → level ≢ s.motion_info.curr_motion_detected
    → let (t, changed) = check_motion_sensor level s in
      (changed ≡ true)
      × (elapsed t.motion_info ≡ 0)
      × (t.motion_info.curr_motion_detected ≡ level)
      × (t.registry
          ≡ broadcast
              (motion_msg (record (s.motion_info) { curr_motion_detected = level }))
              thread_id_motion_sensor
              s.registry)
unfolding check_motion_sensor elapsed
check_changed level s n =
    rw (same_level_ne s.motion_info.curr_motion_detected level (λ e. n (sym e)))
      (refl, refl, refl, refl)
