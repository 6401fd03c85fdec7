-- ===== src/LightSensor/Window.antt =====
-- The sensor keeps the last ten readings.
use oclock.Common.{
  ℕ, suc, ◌+◌, ◌/◌, ◌≤◌, ◌≡◌, refl, ap, ◌∙◌, List, [], ◌∷◌, ◌++◌, arith, length, length-append, leb,
  Bool-cases, inl, inr, append-nil, append_assoc, if◌then◌else◌, map,
}
use oclock.Common.Int.{pos}
use oclock.LightSensor.{
  LightSensor, SensorResult, done, do_sensor_read, trim, new_sensor, max_light_values_size,
  read_failed,
}

-- The last `n` of a list.
unfoldable pub last_values : ℕ → List ℕ → List ℕ
last_values n [] = []
last_values n (x ∷ xs) = if leb (length (x ∷ xs)) n then x ∷ xs else last_values n xs

trim-last : (xs : List ℕ) → trim xs ≡ last_values 9 xs
unfolding trim last_values
trim-last [] = refl
trim-last (x ∷ xs) = ground (arith, trim-last xs)

length_last : (n : ℕ) (xs : List ℕ) → length (last_values n xs) ≤ n
unfolding last_values
length_last n [] = omega arith
length_last n (x ∷ xs) = ground (arith, length_last n xs)

last_short : (n : ℕ) (xs : List ℕ) → length xs ≤ n → last_values n xs ≡ xs
unfolding last_values
last_short n [] h = refl
last_short n (x ∷ xs) h = ground arith

-- Dropping from a window of `n + 1` before a value is added gives the window of the longer list.
last_append :
    (n : ℕ) (xs : List ℕ) (y : ℕ)
    → last_values n (last_values (suc n) xs) ++ y ∷ [] ≡ last_values (suc n) (xs ++ y ∷ [])
unfolding last_values
last_append n [] y = ground arith
last_append n (x ∷ xs) y = elim (Bool-cases (leb (length (x ∷ xs)) (suc n))) [
  | inl short ↦ rw short (elim (Bool-cases (leb (length (x ∷ xs)) n)) [
    | inl e ↦ ground (arith, e, length-append xs (y ∷ []))
    | inr e ↦ ground (
      arith,
      e,
      short,
      length-append xs (y ∷ []),
      last_short n xs,
      last_short (suc n) (xs ++ y ∷ []),
    )
  ])
  | inr long ↦ rw long (ground (arith, last_append n xs y, length-append xs (y ∷ [])))
]

-- A run of good readings, oldest first.
unfoldable pub read_all : List (ℕ × ℕ) → LightSensor → SensorResult
read_all [] s = done s
read_all ((a, b) ∷ rs) s = elim (do_sensor_read (pos a) (pos b) s) [
  | done s' ↦ read_all rs s'
  | read_failed ↦ read_failed
]

abbrev pub reading : ℕ × ℕ → ℕ
reading r = (r.0 + r.1) / 2

read_all_from :
    (rs : List (ℕ × ℕ)) (h : List ℕ) (s : LightSensor)
    → s.light_values ≡ last_values max_light_values_size h
    → (t : LightSensor) × (read_all rs s ≡ done t)
      × (t.light_values ≡ last_values max_light_values_size (h ++ map reading rs))
unfolding read_all do_sensor_read
read_all_from [] h s e = (s, refl, rw (append-nil h) e)
read_all_from ((a, b) ∷ rs) h s e =
    let s1 : LightSensor = record s { light_values = trim s.light_values ++ (a + b) / 2 ∷ [] } in
    let w : s1.light_values ≡ last_values max_light_values_size (h ++ (a + b) / 2 ∷ []) =
      rw (e, trim-last (last_values 10 h), last_append 9 h ((a + b) / 2)) refl in
    let r = read_all_from rs (h ++ (a + b) / 2 ∷ []) s1 w in
    (
      r.0,
      r.1,
      r.2
          ∙ ap (last_values max_light_values_size)
              (append_assoc h ((a + b) / 2 ∷ []) (map reading rs)),
    )

-- After any number of good readings the sensor holds the last ten of them, oldest first.
pub read_all-window :
    (rs : List (ℕ × ℕ))
    → (t : LightSensor) × (read_all rs new_sensor ≡ done t)
      × (t.light_values ≡ last_values max_light_values_size (map reading rs))
unfolding new_sensor
read_all-window rs = read_all_from rs [] new_sensor (unfold last_values in refl)
