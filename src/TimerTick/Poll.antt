-- ===== src/TimerTick/Poll.antt =====
-- How the owners of services learn of an expiry: `getAndResetExpired` of TimerTickServiceBool and `wait` of
-- TimerTickServiceCv, in timerTick.h.
use oclock.Common.{
  ℕ, ◌-◌, ◌≡◌, refl, ap, ◌∙◌, Bool, true, false, ◌||◌, ◌&&◌, ltb, Option, none, some, ◌==◌,
  Bool-cases, inl, inr, arith,
}
use oclock.TimerTick.{
  Service, Trigger, tick_object, restart, set_expired, start_service, get_is_registered,
}

-- The method is one of TimerTickServiceBool: the other kinds of service are left as they are.
unfoldable pub get_and_reset_expired : Service → Bool × Service
get_and_reset_expired o = elim o.trigger [
  | Trigger.flag expired ↦ (expired, record o { trigger = Trigger.flag false })
  | Trigger.cv expired ↦ (false, o)
  | Trigger.message t f ↦ (false, o)
]

-- `none` while the wait blocks, and for the other kinds of service, which have no such method.
unfoldable pub wait : Service → Option Service
wait o = elim o.trigger [
  | Trigger.cv true ↦ some (record o { trigger = Trigger.cv false })
  | other ↦ none
]

restart-trigger : (o : Service) → (restart o).trigger ≡ o.trigger
unfolding restart start_service
restart-trigger o = elim (Bool-cases (o.periodic && get_is_registered o)) [
  | inl e ↦ rw e refl
  | inr e ↦ rw e refl
]

or_true : (b : Bool) → (b || true) ≡ true
or_true true = refl
or_true false = refl

or_false : (b : Bool) → (b || false) ≡ b
or_false true = refl
or_false false = refl

-- A tick sets the flag of a service exactly if its last tick is left, and takes no flag away.
pub tick-trigger :
    (o : Service) (b : Bool)
    → o.trigger ≡ Trigger.flag b
    → (tick_object o).trigger ≡ Trigger.flag (b || o.ticks_left == 1)
unfolding tick_object set_expired
tick-trigger o b e = elim (Bool-cases (ltb 0 o.ticks_left)) [
  | inl h ↦ elim (Bool-cases (o.ticks_left - 1 == 0)) [
    | inl k ↦
        rw (h, k, last o.ticks_left h k, or_true b)
          (restart-trigger (record o { ticks_left = 0; trigger = set_expired o.trigger })
            ∙ ap set_expired e)
    | inr k ↦ rw (h, k, not_last o.ticks_left k, or_false b) e
  ]
  | inr h ↦ rw (h, none_left o.ticks_left h, or_false b) e
]
  where
    last : (n : ℕ) → ltb 0 n ≡ true → (n - 1 == 0) ≡ true → (n == 1) ≡ true
    last n h k = ground arith

    not_last : (n : ℕ) → (n - 1 == 0) ≡ false → (n == 1) ≡ false
    not_last n k = ground arith

    none_left : (n : ℕ) → ltb 0 n ≡ false → (n == 1) ≡ false
    none_left n h = ground arith

-- A poll after a tick finds the flag exactly if it was set before or the tick was the last one, and clears it.
pub get_and_reset_expired-tick :
    (o : Service) (b : Bool)
    → o.trigger ≡ Trigger.flag b
    → ((get_and_reset_expired (tick_object o)).0 ≡ (b || o.ticks_left == 1))
      × ((get_and_reset_expired (tick_object o)).1.trigger ≡ Trigger.flag false)
unfolding get_and_reset_expired
get_and_reset_expired-tick o b e = rw (tick-trigger o b e) (refl, refl)
