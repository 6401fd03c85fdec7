-- ===== src/Dimmer.antt =====
-- The brightness of the matrix: updateDim of displayInternal.cpp, with the brightness that
-- HT1632Class::setBrightness stores. The light value is that of the light sensor.
mod Tests
pub mod Hysteresis
use oclock.Common.{ℕ, List, [], ◌∷◌, Bool, true, false, ltb, leb, ◌&&◌, ◌||◌, if◌then◌else◌}
use oclock.Inbox.{InboxMsgType, Registry, broadcast, new_msg}
use oclock.LightSensor.{
  LightSensor, get_light_value, dark_room_threshold_low_water_mark,
  dark_room_threshold_high_water_mark,
}

abbrev pub thread_id_display : ℕ
thread_id_display = 0

pub record Dimmer : Type 0 where
  pub room_is_dark : Bool
  pub brightness : ℕ
  pub registry : Registry

-- What `setBrightness` stores; out of range it does nothing.
unfoldable pub set_brightness : ℕ → Dimmer → Dimmer
set_brightness b d = if ltb b 1 || ltb 16 b then d else record d { brightness = b }

-- The darkness that a light value means, given the last one.
unfoldable pub is_dark_at : Bool → ℕ → Bool
is_dark_at true light = ltb light dark_room_threshold_high_water_mark
is_dark_at false light = ltb light dark_room_threshold_low_water_mark

unfoldable pub same_flag : Bool → Bool → Bool
same_flag true b = b
same_flag false true = false
same_flag false false = true

change_dim : Bool → Dimmer → Dimmer
unfolding set_brightness broadcast new_msg
change_dim dark d =
    let d' = record (set_brightness (if dark then 1 else 16) d) { room_is_dark = dark } in
    record d' {
      registry =
          broadcast
            (new_msg
              (if dark then InboxMsgType.display_bright_low else InboxMsgType.display_bright_high))
            thread_id_display d'.registry;
    }

unfoldable pub update_dim : LightSensor → Dimmer → Dimmer
unfolding change_dim is_dark_at same_flag get_light_value
update_dim sensor d =
    let dark = is_dark_at d.room_is_dark (get_light_value sensor) in
    if same_flag d.room_is_dark dark then d else change_dim dark d

unfoldable pub update_dims : List LightSensor → Dimmer → Dimmer
unfolding update_dim
update_dims [] d = d
update_dims (s ∷ ss) d = update_dims ss (update_dim s d)

-- As the program starts: the matrix comes up bright.
unfoldable pub new_dimmer : Registry → Dimmer
new_dimmer r = record { room_is_dark = false; brightness = 16; registry = r }
