-- ===== src/TimerTick/Period.antt =====
-- When a started service expires: after how many passes of the loop, and how often.
use mathlib.Core.Option
use oclock.Common.{
  zero, suc, ℕ, ◌+◌, ◌-◌, ◌*◌, ◌%◌, ◌≤◌, ◌<◌, ◌≡◌, refl, ◌∙◌, Bool, true, false, Option, none, some,
  arith, ◌==◌, if◌then◌else◌, ltb,
}
use oclock.Common.Int.{ℤ, pos, negsuc}
use oclock.TimerTick.{
  Service, Machine, tick_object, ticks, start_ticks, get_is_registered, millis_per_tick,
  set_expired,
}
use oclock.TimerTick.Wf.{Wf, cookie_at}
use oclock.TimerTick.Tick.{tick_lem, ticked_heap_twice, ticked_heap, iterate, tick_object-cookie}

pub start_ticks_pos : (i : ℤ) → 0 < start_ticks i
unfolding start_ticks
start_ticks_pos (pos n) = omega arith
start_ticks_pos (negsuc n) = omega arith

-- A service that `start` has just given its ticks.
pub record IsStarted (o : Service) : Type 0 where
  pub registered : get_is_registered o ≡ true
  pub full : o.ticks_left ≡ start_ticks o.interval

-- The object `o` after `n` passes.
record Periodic (o : Service) (n : ℕ) (q : Service) : Type 0 where
  interval : q.interval ≡ o.interval
  periodic : q.periodic ≡ true
  cookie : q.cookie ≡ o.cookie
  left : q.ticks_left ≡ start_ticks o.interval - n % start_ticks o.interval
  fired : q.trigger ≡ (if ltb n (start_ticks o.interval) then o.trigger else set_expired o.trigger)

-- A one-shot service counts down and stops at 0.
record OneShot (o : Service) (n : ℕ) (q : Service) : Type 0 where
  interval : q.interval ≡ o.interval
  periodic : q.periodic ≡ false
  left : q.ticks_left ≡ start_ticks o.interval - n
  fired : q.trigger ≡ (if ltb n (start_ticks o.interval) then o.trigger else set_expired o.trigger)

-- `n` passes of the loop over an agreeing table succeed, keep the agreement, and apply `n` object
-- ticks to each registered object.
pub ticks_lem :
    (n : ℕ) (s : Machine)
    → Wf s
    → (t : Machine) × (ticks n s ≡ some t)
      × Wf t
      × ((a : ℕ) → t.heap a ≡ ticked_heap (iterate n tick_object) s.heap a)
unfolding ticks iterate
ticks_lem zero s w = (s, refl, w, λ a. same (cookie_at s.heap a == 0) (s.heap a))
  where
    same : (b : Bool) (x : Option Service) → x ≡ (if b then x else Option.map (λ o. o) x)
    same true x = refl
    same false none = refl
    same false (some o) = refl
ticks_lem (suc n) s w =
    let k = tick_lem s w in
    let r = ticks_lem n k.0 k.2 in
    (
      r.0,
      rw (ticks, k.1) r.1,
      r.2,
      λ a.
          r.3 a
          ∙ ticked_heap_twice tick_object (iterate n tick_object) tick_object-cookie s.heap
              (k.0).heap k.4 a,
    )

-- The ticks of an interval last longer than the interval, by one tick at most.
pub start_ticks_bounds :
    (n : ℕ)
    → (n < start_ticks (pos n) * millis_per_tick)
      × (start_ticks (pos n) * millis_per_tick ≤ n + millis_per_tick)
unfolding start_ticks
start_ticks_bounds n = omega arith
