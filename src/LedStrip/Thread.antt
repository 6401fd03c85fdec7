-- ===== src/LedStrip/Thread.antt =====
-- The thread of the LED strip and its queue of requests: ledStrip.cpp. A method under the mutex is one step; the
-- timers' flags are arguments of a pass of the loop.
use oclock.Common.{
  ◌≡◌, refl, sym, ap, ◌∙◌, List, [], ◌∷◌, ◌++◌, append_assoc, append-nil, Bool, true, false,
  if◌then◌else◌, Option, none, some,
}
use oclock.Common.Int.{eq_ℤ, ℤ, pos}
use oclock.Common.Str.{Str, str}
use oclock.LedStrip.Params.{StringMap}
use oclock.LedStrip.Modes.{LedStripInternalInfo}
use oclock.LedStrip.Change.{
  do_handle_mode_post, fast_tick, tick_1sec, tick_10sec, tick_1min, get_led_strip_mode_str,
  mode_str,
}

-- The strip is there once the thread has made it.
pub record LedStrip : Type 0 where
  pub todos : List StringMap
  pub internal : Option LedStripInternalInfo

unfoldable pub enqueue_msg_mode_post : StringMap → LedStrip → LedStrip
enqueue_msg_mode_post p s = record s { todos = s.todos ++ (p ∷ []) }

unfoldable pub get_internal_led_strip_mode : LedStrip → Str
unfolding get_led_strip_mode_str
get_internal_led_strip_mode s = elim s.internal [
  | none ↦ str "starting"
  | some i ↦ get_led_strip_mode_str i
]

unfoldable pub get_mode_str : ℤ → LedStrip → Str
unfolding mode_str
get_mode_str mode s = elim s.internal [
  | none ↦ if eq_ℤ mode (pos 0) then str "manual" else []
  | some i ↦ mode_str mode
]

first_todo : List StringMap → Option StringMap
first_todo [] = none
first_todo (p ∷ ps) = some p

later_todos : List StringMap → List StringMap
later_todos [] = []
later_todos (p ∷ ps) = ps

unfoldable pub dequeue_led_strip_todo : LedStrip → Option StringMap × LedStrip
unfolding first_todo later_todos
dequeue_led_strip_todo s = (first_todo s.todos, record s { todos = later_todos s.todos })

-- A handler on the strip, which is there.
abbrev pub on_internal : (LedStripInternalInfo → LedStripInternalInfo) → LedStrip → LedStrip
on_internal f s = record s { internal = elim s.internal [ none ↦ none | some i ↦ some (f i) ] }

handle_todo : Option StringMap × LedStrip → LedStrip
unfolding do_handle_mode_post
handle_todo (none, s) = s
handle_todo (some p, s) = on_internal (do_handle_mode_post p) s

unfoldable pub check_todo_list : LedStrip → LedStrip
unfolding dequeue_led_strip_todo handle_todo
check_todo_list s = handle_todo (dequeue_led_strip_todo s)

-- What the three slower timers of the loop say.
pub record Expired : Type 0 where
  pub one_sec : Bool
  pub ten_sec : Bool
  pub one_min : Bool

abbrev pub when : Bool → (LedStripInternalInfo → LedStripInternalInfo) → LedStrip → LedStrip
when b f s = if b then on_internal f s else s

-- One pass of the loop behind the fast tick.
unfoldable pub loop_pass : Expired → LedStrip → LedStrip
unfolding check_todo_list fast_tick tick_1sec tick_10sec tick_1min
loop_pass e s = when e.one_min tick_1min (
    when e.ten_sec tick_10sec
      (when e.one_sec tick_1sec (on_internal fast_tick (check_todo_list s))))

-- What may happen to the thread, in any order: other threads enqueue, and the loop passes.
pub data Event : Type 0 where
  enqueues : StringMap → Event
  passes : Expired → Event

unfoldable pub event : Event → LedStrip → LedStrip
unfolding enqueue_msg_mode_post loop_pass
event (enqueues p) s = enqueue_msg_mode_post p s
event (passes e) s = loop_pass e s

unfoldable pub events : List Event → LedStrip → LedStrip
unfolding event
events [] s = s
events (e ∷ es) s = events es (event e s)

unfoldable pub enqueued : List Event → List StringMap
enqueued [] = []
enqueued (enqueues p ∷ es) = p ∷ enqueued es
enqueued (passes e ∷ es) = enqueued es

to_list : Option StringMap → List StringMap
to_list none = []
to_list (some p) = p ∷ []

-- The requests that the passes hand to the strip.
unfoldable pub handled : List Event → LedStrip → List StringMap
unfolding event to_list dequeue_led_strip_todo
handled [] s = []
handled (enqueues p ∷ es) s = handled es (event (enqueues p) s)
handled (passes e ∷ es) s = to_list (dequeue_led_strip_todo s).0 ++ handled es (event (passes e) s)

when-todos :
    (b : Bool) (f : LedStripInternalInfo → LedStripInternalInfo) (s : LedStrip)
    → (when b f s).todos ≡ s.todos
when-todos true f s = refl
when-todos false f s = refl

check_todo_list-todos :
    (s : LedStrip) → to_list (dequeue_led_strip_todo s).0 ++ (check_todo_list s).todos ≡ s.todos
unfolding check_todo_list dequeue_led_strip_todo handle_todo first_todo later_todos to_list
check_todo_list-todos s = by_todos s.todos s.internal
  where
    by_todos :
        (ps : List StringMap) (i : Option LedStripInternalInfo)
        → to_list (first_todo ps)
            ++ (handle_todo (first_todo ps, record { todos = later_todos ps; internal = i })).todos
          ≡ ps
    by_todos [] i = refl
    by_todos (p ∷ ps) i = refl

loop_pass-todos : (e : Expired) (s : LedStrip) → (loop_pass e s).todos ≡ (check_todo_list s).todos
unfolding loop_pass
loop_pass-todos e s =
    when-todos e.one_min tick_1min _
    ∙ when-todos e.ten_sec tick_10sec _
    ∙ when-todos e.one_sec tick_1sec _

-- Under any interleaving of requests by other threads and passes of the loop no request is lost, handled
-- twice or overtaken: those that were handled, then those that wait, are those that waited at the start,
-- then those that were enqueued.
pub handled-append-todos :
    (es : List Event) (s : LedStrip) → handled es s ++ (events es s).todos ≡ s.todos ++ enqueued es
unfolding handled events enqueued event
handled-append-todos [] s = sym (append-nil s.todos)
handled-append-todos (enqueues p ∷ es) s =
    handled-append-todos es (enqueue_msg_mode_post p s)
    ∙ append_assoc s.todos (p ∷ []) (enqueued es)
handled-append-todos (passes e ∷ es) s =
    append_assoc (to_list (dequeue_led_strip_todo s).0) (handled es (loop_pass e s))
      (events es (loop_pass e s)).todos
    ∙ ap (λ (ps : List StringMap). to_list (dequeue_led_strip_todo s).0 ++ ps)
        (handled-append-todos es (loop_pass e s)
          ∙ ap (λ (ps : List StringMap). ps ++ enqueued es) (loop_pass-todos e s))
    ∙ sym (
        append_assoc (to_list (dequeue_led_strip_todo s).0) (check_todo_list s).todos (enqueued es))
    ∙ ap (λ (ps : List StringMap). ps ++ enqueued es) (check_todo_list-todos s)
