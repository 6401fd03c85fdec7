-- ===== src/Dimmer/Tests.antt =====
-- The brightness at concrete light values.
use oclock.Common.{ℕ, ◌≡◌, List, [], ◌∷◌, false, map}
use oclock.LightSensor.{LightSensor, get_light_value}
use oclock.Dimmer.{update_dims, new_dimmer}
use oclock.Dimmer.Hysteresis.{decided, brightness_of, update_dims_lem}

abbrev at_light : ℕ → LightSensor
at_light v = record { light_values = v ∷ [] }

abbrev evening : List LightSensor
evening = at_light 700 ∷ at_light 500 ∷ at_light 400 ∷ at_light 550 ∷ []

update_dims_lem_example :
    let d = update_dims evening (new_dimmer []) in
    (d.room_is_dark ≡ decided false (map get_light_value evening))
    × (d.brightness ≡ brightness_of d.room_is_dark)
update_dims_lem_example = update_dims_lem evening []
