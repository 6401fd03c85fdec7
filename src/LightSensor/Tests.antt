-- ===== src/LightSensor/Tests.antt =====
-- The light sensor at concrete samples.
use oclock.Common.{ℕ, List, [], ◌∷◌}
use oclock.LightSensor.{LightSensor}

abbrev two_reads : List (ℕ × ℕ)
two_reads = (400, 500) ∷ (610, 590) ∷ []

abbrev two_values : LightSensor
two_values = record { light_values = 450 ∷ 600 ∷ [] }
