-- ===== src/TimerTick/Tests.antt =====
-- The tick service at one concrete service object, of 30 milliseconds.
use oclock.Common.{
  ℕ, ◌≡◌, refl, Bool-cases, inl, inr, subst, [], Bool, true, false, none, some, arith, ◌==◌,
  if◌then◌else◌,
}
use oclock.Common.Int.{pos}
use oclock.TimerTick.{
  Machine, Service, Trigger, Result, register_timer_tick_service, tick, tick_object,
}
use oclock.TimerTick.Wf.{Wf, cookie_at}
use oclock.TimerTick.Register.{registered, register-Wf, register_fresh}
use oclock.TimerTick.Tick.{ticked_heap, tick_lem}

abbrev idle_service : Bool → Service
idle_service p = record {
  interval = pos 30;
  periodic = p;
  cookie = 0;
  ticks_left = 0;
  trigger = Trigger.flag false;
}

abbrev idle : Bool → Machine
idle p = record {
  heap = λ a. if 5 == a then some (idle_service p) else none;
  next_id = 1;
  services = [];
  registry = [];
  cond_function = λ n. true;
}

idle_cookies : (p : Bool) (a : ℕ) → cookie_at (idle p).heap a ≡ 0
unfolding cookie_at
idle_cookies p a = elim (Bool-cases (5 == a)) [
  | inl e ↦ rw (cookie_at, e) refl
  | inr e ↦ rw (cookie_at, e) refl
]

idle-Wf : (p : Bool) → Wf (idle p)
idle-Wf p = record {
  linked = tt;
  distinct = tt;
  backed = λ a h. absurd (h (idle_cookies p a));
  issued = tt;
  started = omega arith;
}

abbrev running : Bool → Machine
running p = registered 5 (idle_service p) true (idle p)

running-Wf : (p : Bool) → Wf (running p)
running-Wf p =
    subst (λ (r : Machine × Result ℕ). Wf r.0)
      (register_fresh 5 (idle_service p) true (idle p) (idle-Wf p) refl refl)
      (register-Wf 5 true (idle p) (idle-Wf p) (omega arith))

abbrev running_service : Bool → Service
running_service p = record {
  interval = pos 30;
  periodic = p;
  cookie = 1;
  ticks_left = 3;
  trigger = Trigger.flag false;
}

register-Wf_example : Wf (register_timer_tick_service 5 true (idle true)).0
register-Wf_example = register-Wf 5 true (idle true) (idle-Wf true) (omega arith)

tick_lem_example :
    (t : Machine) × (tick (running true) ≡ some t)
    × Wf t
    × (t.services ≡ (running true).services)
    × ((a : ℕ) → t.heap a ≡ ticked_heap tick_object (running true).heap a)
tick_lem_example = tick_lem (running true) (running-Wf true)
