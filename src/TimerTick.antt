-- ===== src/TimerTick.antt =====
-- The tick service: timerTick.h and timerTick.cpp. Service objects live in a memory, since their
-- owners and the table of registered services share them; every method holds `instanceMutex`, so
-- it is one step. Ids are `unsigned long long`.
mod Tests
pub mod Wf
pub mod Register
pub mod Tick
pub mod Poll
pub mod Period
use oclock.Common.{
  ℕ, zero, suc, ◌+◌, ◌-◌, ◌/◌, ◌%◌, ◌^◌, List, [], ◌∷◌, Bool, true, false, not, ◌&&◌, Option, none,
  some, ltb, ◌==◌, if◌then◌else◌,
}
use oclock.Common.Assoc.{lookup, insert, erase, update}
use oclock.Common.Int.{ℤ, pos, negsuc}
use oclock.Inbox.{
  Registry, InboxMsg, InboxMsgType, tick_message, add_message_to, get_inbox, get_message, Inbox,
}

abbrev pub millis_per_tick : ℕ
millis_per_tick = 12

abbrev pub null_cookie : ℕ
null_cookie = 0

-- The classes that implement `expireTrigger`: a flag that is polled, a flag that is waited for,
-- and a message to a thread's inbox, which a function may forbid.
pub data Trigger : Type 0 where
  flag : Bool → Trigger
  cv : Bool → Trigger
  message : ℕ → Option ℕ → Trigger

pub record Service : Type 0 where
  pub interval : ℤ
  pub periodic : Bool
  pub cookie : ℕ
  pub ticks_left : ℕ
  pub trigger : Trigger

-- `cond_function` is what a message service's function gives for its argument now.
pub record Machine : Type 0 where
  pub heap : ℕ → Option Service
  pub next_id : ℕ
  pub services : List (ℕ × ℕ)
  pub registry : Registry
  pub cond_function : ℕ → Bool

pub data Error : Type 0 where
  double_register too_many_services could_not_insert dangling : Error

pub data Result {ℓ} (A : Type ℓ) : Type ℓ where
  ok : A → Result A
  throws : Error → Result A

unfoldable pub new_service : ℤ → Bool → Trigger → Service
new_service i p t = record {
  interval = i;
  periodic = p;
  cookie = null_cookie;
  ticks_left = 0;
  trigger = t;
}

unfoldable pub get_is_registered : Service → Bool
get_is_registered o = not (o.cookie == null_cookie)

unfoldable pub get_is_expired : Service → Bool
get_is_expired o = o.ticks_left == 0

-- The ticks that an interval in milliseconds stands for.
unfoldable pub start_ticks : ℤ → ℕ
start_ticks (pos n) = 1 + n / millis_per_tick
start_ticks (negsuc n) = 1

-- `_startTimerTickService2` on the object.
unfoldable pub start_service : Service → Service
unfolding start_ticks
start_service o = record o { ticks_left = start_ticks o.interval }

unfoldable pub write : ℕ → Service → Machine → Machine
unfolding update
write a o s = record s { heap = update a (some o) s.heap }

insert_service : ℕ → Service → Bool → ℕ → Machine → Machine × Result ℕ
unfolding write insert start_service lookup
insert_service a o start c s = elim (lookup c s.services) [
  | some _ ↦ (s, throws could_not_insert)
  | none ↦ (
    write a (if start then start_service o else o) (record s { services = insert c a s.services }),
    ok c,
  )
]

register_object : ℕ → Service → Bool → Machine → Machine × Result ℕ
unfolding insert_service get_is_registered
register_object a o start s =
    let c = s.next_id in
    let o' : Service = record o { cookie = c } in
    let s' = write a o' (record s { next_id = (c + 1) % 2 ^ 64 }) in
    if get_is_registered o
    then (s, throws double_register)
    else if c == null_cookie
    then (s', throws too_many_services)
    else insert_service a o' start c s'

-- The service at an address gets the next id; `throws` leaves the state as the exception does.
unfoldable pub register_timer_tick_service : ℕ → Bool → Machine → Machine × Result ℕ
unfolding register_object
register_timer_tick_service a start s = elim (s.heap a) [
  | none ↦ (s, throws dangling)
  | some o ↦ register_object a o start s
]

unfoldable pub start_timer_tick_service : ℕ → Machine → Machine × Result Bool
unfolding write start_service lookup
start_timer_tick_service c s = elim (lookup c s.services) [
  | none ↦ (s, ok false)
  | some a ↦ elim (s.heap a) [
    | none ↦ (s, throws dangling)
    | some o ↦ (write a (start_service o) s, ok true)
  ]
]

unfoldable pub unregister_timer_tick_service : ℕ → Machine → Machine × Result (Unit {0})
unfolding write erase lookup
unregister_timer_tick_service c s = elim (lookup c s.services) [
  | none ↦ (s, ok tt)
  | some a ↦ elim (s.heap a) [
    | none ↦ (s, throws dangling)
    | some o ↦ (
      write a (record o { cookie = null_cookie; ticks_left = 0 })
          (record s { services = erase c s.services }),
      ok tt,
    )
  ]
]

-- What `expireTrigger` does to the object, and to the inboxes.
unfoldable pub set_expired : Trigger → Trigger
set_expired (flag _) = flag true
set_expired (cv _) = cv true
set_expired (message t f) = message t f

unfoldable pub is_allowed : Option ℕ → (ℕ → Bool) → Bool
is_allowed none ready = true
is_allowed (some arg) ready = ready arg

unfoldable pub send_expired : Trigger → (ℕ → Bool) → Registry → Registry
unfolding is_allowed
send_expired (flag _) ready r = r
send_expired (cv _) ready r = r
send_expired (message t f) ready r =
    if is_allowed f ready then add_message_to t tick_message r else r

-- One round of the loop over the table, for one object.
restart : Service → Service
unfolding start_service get_is_registered
restart o = if o.periodic && get_is_registered o then start_service o else o

unfoldable pub tick_object : Service → Service
unfolding restart set_expired
tick_object o =
    if ltb 0 o.ticks_left
    then if o.ticks_left - 1 == 0
      then restart (record o { ticks_left = 0; trigger = set_expired o.trigger })
      else record o { ticks_left = o.ticks_left - 1 }
    else o

unfoldable pub tick_registry : Service → (ℕ → Bool) → Registry → Registry
unfolding send_expired
tick_registry o ready r =
    if ltb 0 o.ticks_left && (o.ticks_left - 1 == 0) then send_expired o.trigger ready r else r

-- `none` is a read through a dangling pointer.
tick_service : ℕ → Machine → Option Machine
unfolding update tick_object tick_registry
tick_service a s = elim (s.heap a) [
  | none ↦ none
  | some o ↦ some (record s {
    heap = update a (some (tick_object o)) s.heap;
    registry = tick_registry o s.cond_function s.registry;
  })
]

tick_loop : List (ℕ × ℕ) → Machine → Option Machine
unfolding tick_service
tick_loop [] s = some s
tick_loop ((c, a) ∷ es) s = elim (tick_service a s) [ none ↦ none | some s' ↦ tick_loop es s' ]

-- One pass of `runThreadLoop` over the table, after the sleep of a tick.
unfoldable pub tick : Machine → Option Machine
unfolding tick_loop
tick s = tick_loop s.services s

unfoldable pub ticks : ℕ → Machine → Option Machine
unfolding tick
ticks zero s = some s
ticks (suc n) s = elim (tick s) [ none ↦ none | some s' ↦ ticks n s' ]
