-- ===== src/LightSensor.antt =====
-- The light sensor: lightSensor.cpp. The samples of the analog input are arguments; the thread's
-- loop adds one reading for each expiry of its timer.
mod Tests
pub mod Window
pub mod Average
use oclock.Common.{
  ℕ, ◌+◌, ◌/◌, List, [], ◌∷◌, ◌++◌, Bool, true, false, ◌||◌, leb, ◌==◌, if◌then◌else◌, length,
}
use oclock.Common.Int.{ℤ, pos, negsuc}

abbrev pub max_light_values_size : ℕ
max_light_values_size = 10

abbrev pub dark_room_threshold_low_water_mark : ℕ
dark_room_threshold_low_water_mark = 460

abbrev pub dark_room_threshold_high_water_mark : ℕ
dark_room_threshold_high_water_mark = 600

pub record LightSensor : Type 0 where
  pub light_values : List ℕ

-- The first value is the oldest.
unfoldable pub new_sensor : LightSensor
new_sensor = record { light_values = [] }

-- `while (size >= max) pop_front()`.
unfoldable pub trim : List ℕ → List ℕ
trim [] = []
trim (x ∷ xs) = if leb max_light_values_size (length (x ∷ xs)) then trim xs else x ∷ xs

pub data SensorResult : Type 0 where
  done : LightSensor → SensorResult
  read_failed : SensorResult

-- The samples of channels 0 and 1; a negative one is an error, which throws.
unfoldable pub do_sensor_read : ℤ → ℤ → LightSensor → SensorResult
unfolding trim
do_sensor_read (negsuc _) r1 s = read_failed
do_sensor_read (pos a) (negsuc _) s = read_failed
do_sensor_read (pos a) (pos b) s =
    done (record s { light_values = trim s.light_values ++ (a + b) / 2 ∷ [] })

-- The loop of `getLightValue`: the entries and the sum so far.
sum_values : ℕ → ℕ → List ℕ → ℕ × ℕ
sum_values entries sum [] = (entries, sum)
sum_values entries sum (x ∷ xs) = sum_values (entries + 1) (sum + x) xs

unfoldable pub get_light_value : LightSensor → ℕ
unfolding sum_values
get_light_value s =
    let (entries, sum) = sum_values 0 0 s.light_values in if entries == 0 then 0 else sum / entries
