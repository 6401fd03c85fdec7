-- ===== src/Dimmer/Hysteresis.antt =====
-- The two thresholds of the dimmer as a hysteresis, over any history of light values.
use oclock.Common.{
  ℕ, ◌≡◌, refl, sym, ◌∙◌, ap, List, [], ◌∷◌, Bool, true, false, ltb, leb, if◌then◌else◌, arith,
  Bool-cases, inl, inr, map,
}
use oclock.Inbox.{InboxMsgType, Registry, broadcast, new_msg}
use oclock.LightSensor.{LightSensor, get_light_value}
use oclock.Dimmer.{
  Dimmer, update_dim, update_dims, new_dimmer, is_dark_at, same_flag, set_brightness, change_dim,
  thread_id_display,
}

-- The room's darkness as the history of light values says it: the last value below 460 or from
-- 600 on decides, and the values in between say nothing.
unfoldable pub decided : Bool → List ℕ → Bool
decided dark [] = dark
decided dark (v ∷ vs) = decided (if ltb v 460 then true else if leb 600 v then false else dark) vs

is_dark_at-eq :
    (dark : Bool) (v : ℕ)
    → is_dark_at dark v ≡ (if ltb v 460 then true else if leb 600 v then false else dark)
unfolding is_dark_at
is_dark_at-eq true v = ground arith
is_dark_at-eq false v = ground arith

abbrev pub brightness_of : Bool → ℕ
brightness_of dark = if dark then 1 else 16

-- The matrix is at level 1 in a dark room and at level 16 in a bright one.
abbrev pub IsInStep : Dimmer → Type 0
IsInStep d = d.brightness ≡ brightness_of d.room_is_dark

same_flag-eq : (a b : Bool) → same_flag a b ≡ true → a ≡ b
unfolding same_flag
same_flag-eq true b h = sym h
same_flag-eq false true h = h
same_flag-eq false false h = refl

same_flag_refl : (a : Bool) → same_flag a a ≡ true
unfolding same_flag
same_flag_refl true = refl
same_flag_refl false = refl

-- What the registry of inboxes is when the darkness goes from one value to another.
unfoldable pub told : Bool → Bool → Registry → Registry
told before after r =
    if same_flag before after
    then r
    else broadcast
        (new_msg
          (if after then InboxMsgType.display_bright_low else InboxMsgType.display_bright_high))
        thread_id_display r

change_dim-fields :
    (dark : Bool) (d : Dimmer)
    → ((change_dim dark d).room_is_dark ≡ dark)
      × ((change_dim dark d).brightness ≡ brightness_of dark)
unfolding change_dim
change_dim-fields true d = ground arith
change_dim-fields false d = ground arith

update_dim-dark :
    (s : LightSensor) (d : Dimmer)
    → (update_dim s d).room_is_dark ≡ is_dark_at d.room_is_dark (get_light_value s)
unfolding update_dim
update_dim-dark s d =
    elim (Bool-cases (same_flag d.room_is_dark (is_dark_at d.room_is_dark (get_light_value s)))) [
      | inl e ↦ rw (update_dim, e) (same_flag-eq _ _ e)
      | inr e ↦ rw (update_dim, e) (change_dim-fields _ d).0
    ]

update_dim-IsInStep : (s : LightSensor) (d : Dimmer) → IsInStep d → IsInStep (update_dim s d)
unfolding update_dim
update_dim-IsInStep s d h =
    elim (Bool-cases (same_flag d.room_is_dark (is_dark_at d.room_is_dark (get_light_value s)))) [
      | inl e ↦ rw (update_dim, e) h
      | inr e ↦
          rw (update_dim, e)
            ((change_dim-fields _ d).1 ∙ ap brightness_of (sym (change_dim-fields _ d).0))
    ]

update_dims_from :
    (ss : List LightSensor) (d : Dimmer)
    → IsInStep d
    → ((update_dims ss d).room_is_dark ≡ decided d.room_is_dark (map get_light_value ss))
      × IsInStep (update_dims ss d)
unfolding update_dims decided
update_dims_from [] d h = (refl, h)
update_dims_from (s ∷ ss) d h =
    let r = update_dims_from ss (update_dim s d) (update_dim-IsInStep s d h) in
    (
      r.0
          ∙ ap (λ b. decided b (map get_light_value ss))
              (update_dim-dark s d ∙ is_dark_at-eq d.room_is_dark (get_light_value s)),
      r.1,
    )

-- From the start and after any number of updates the room counts as dark as the history of the
-- reported light values decides it, and the brightness is 1 in a dark room and 16 in a bright one.
pub update_dims_lem :
    (ss : List LightSensor) (r : Registry)
    → let d = update_dims ss (new_dimmer r) in
      (d.room_is_dark ≡ decided false (map get_light_value ss))
      × (d.brightness ≡ brightness_of d.room_is_dark)
unfolding new_dimmer
update_dims_lem ss r = update_dims_from ss (new_dimmer r) refl

change_dim-told :
    (dark : Bool) (d : Dimmer)
    → (change_dim dark d).registry
      ≡ broadcast
          (new_msg
            (if dark then InboxMsgType.display_bright_low else InboxMsgType.display_bright_high))
          thread_id_display
          d.registry
unfolding change_dim set_brightness
change_dim-told true d = refl
change_dim-told false d = refl

change_dim-registry :
    (s : LightSensor) (d : Dimmer)
    → same_flag d.room_is_dark (is_dark_at d.room_is_dark (get_light_value s)) ≡ false
    → (update_dim s d).registry ≡ told d.room_is_dark (update_dim s d).room_is_dark d.registry
unfolding told update_dim change_dim
change_dim-registry s d e =
    rw (update_dim-dark s d, told, e)
      (change_dim-told (is_dark_at d.room_is_dark (get_light_value s)) d)

-- An update tells the other threads exactly when the darkness changes, with the message that
-- belongs to the new state.
pub update_dim-registry :
    (s : LightSensor) (d : Dimmer)
    → (update_dim s d).registry ≡ told d.room_is_dark (update_dim s d).room_is_dark d.registry
unfolding update_dim told
update_dim-registry s d =
    elim (Bool-cases (same_flag d.room_is_dark (is_dark_at d.room_is_dark (get_light_value s)))) [
      | inl e ↦ rw (update_dim, e, same_flag_refl d.room_is_dark) refl
      | inr e ↦ change_dim-registry s d e
    ]
