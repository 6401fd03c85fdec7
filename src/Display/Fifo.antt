-- ===== src/Display/Fifo.antt =====
-- The order in which the display's thread handles the requests.
use oclock.Common.{
  List, [], ◌∷◌, ◌++◌, append-nil, append_assoc, some, ◌≡◌, refl, sym, ap, ◌∙◌, Bool, true,
  if◌then◌else◌,
}
use oclock.Display.Thread.{
  DisplayInternal, DisplayTodo, msg_mode_post, img_background_post, msg_background_post, Expired,
  Event, enqueues, passes, events, event, enqueue_display_todo, loop_pass, check_todo_list,
  dequeue_display_todo, first_todo, later_todos, handle_todo, handler, ticks,
}

-- What the thread does to the internals.
pub data Action : Type 0 where
  handles : DisplayTodo → Action
  ticks_by : Expired → Action

-- A pass takes one request, if any waits, and then ticks.
unfoldable pub actions : List Event → List DisplayTodo → List Action
actions [] q = []
actions (enqueues t ∷ es) q = actions es (q ++ (t ∷ []))
actions (passes e ∷ es) [] = ticks_by e ∷ actions es []
actions (passes e ∷ es) (t ∷ q) = handles t ∷ (ticks_by e ∷ actions es q)

unfoldable pub waiting : List Event → List DisplayTodo → List DisplayTodo
waiting [] q = q
waiting (enqueues t ∷ es) q = waiting es (q ++ (t ∷ []))
waiting (passes e ∷ es) [] = waiting es []
waiting (passes e ∷ es) (t ∷ q) = waiting es q

unfoldable pub handled : List Action → List DisplayTodo
handled [] = []
handled (handles t ∷ actions) = t ∷ handled actions
handled (ticks_by e ∷ actions) = handled actions

unfoldable pub enqueued : List Event → List DisplayTodo
enqueued [] = []
enqueued (enqueues t ∷ es) = t ∷ enqueued es
enqueued (passes e ∷ es) = enqueued es

handled-append-waiting :
    (es : List Event) (q : List DisplayTodo)
    → handled (actions es q) ++ waiting es q ≡ q ++ enqueued es
unfolding handled actions waiting enqueued
handled-append-waiting [] q = sym (append-nil q)
handled-append-waiting (enqueues t ∷ es) q =
    handled-append-waiting es (q ++ (t ∷ [])) ∙ append_assoc q (t ∷ []) (enqueued es)
handled-append-waiting (passes e ∷ es) [] = handled-append-waiting es []
handled-append-waiting (passes e ∷ es) (t ∷ q) =
    ap (λ (ts : List DisplayTodo). t ∷ ts) (handled-append-waiting es q)

module _ {I : Type 0} (methods : DisplayInternal I) where
  -- The ticks of a pass in their order, each with its flag; the fast one is not asked for.
  abbrev pub schedule : Expired → List (Bool × (I → I))
  schedule e =
      (true, methods.display_tick_fast)
      ∷ (e.after_100ms, methods.display_tick_100ms)
      ∷ (e.after_250ms, methods.display_tick_250ms)
      ∷ (e.after_500ms, methods.display_tick_500ms)
      ∷ (e.after_1sec, methods.display_tick_1sec)
      ∷ (e.after_5sec, methods.display_tick_5sec)
      ∷ (e.after_10sec, methods.display_tick_10sec)
      ∷ (e.after_25sec, methods.display_tick_25sec)
      ∷ (e.after_1min, methods.display_tick_1min)
      ∷ []

  abbrev pub run_schedule : List (Bool × (I → I)) → I → I
  run_schedule [] i = i
  run_schedule ((b, f) ∷ rest) i = run_schedule rest (if b then f i else i)

  unfoldable pub act : Action → I → I
  act (handles (msg_mode_post p)) i = methods.do_handle_msg_mode_post p i
  act (handles (img_background_post p)) i = methods.do_handle_img_background_post p i
  act (handles (msg_background_post p)) i = methods.do_handle_msg_background_post p i
  act (ticks_by e) i = run_schedule (schedule e) i

  act-handler : (t : DisplayTodo) (i : I) → act (handles t) i ≡ handler methods t i
  unfolding act handler
  act-handler (msg_mode_post p) i = refl
  act-handler (img_background_post p) i = refl
  act-handler (msg_background_post p) i = refl

  act-ticks : (e : Expired) (i : I) → act (ticks_by e) i ≡ ticks methods e i
  unfolding act ticks
  act-ticks e i = refl

  unfoldable pub replay : List Action → I → I
  unfolding act
  replay [] i = i
  replay (a ∷ actions) i = replay actions (act a i)

  pub events-replay :
      (es : List Event) (q : List DisplayTodo) (i : I)
      → events methods es (record { display_todos = q; internal = some i })
        ≡ record { display_todos = waiting es q; internal = some (replay (actions es q) i) }
  unfolding events event enqueue_display_todo loop_pass check_todo_list dequeue_display_todo
      first_todo later_todos handle_todo actions waiting replay
  events-replay [] q i = refl
  events-replay (enqueues t ∷ es) q i = events-replay es (q ++ (t ∷ [])) i
  events-replay (passes e ∷ es) [] i =
      events-replay es [] (ticks methods e i) ∙ rw (act-ticks e i) refl
  events-replay (passes e ∷ es) (t ∷ q) i =
      events-replay es q (ticks methods e (handler methods t i))
      ∙ rw (act-handler t i, act-ticks e (handler methods t i)) refl

  -- Once the thread has made the internals, any interleaving of requests by other threads and passes of the loop does to
  -- the internals exactly what a run of its actions does one after another: each pass handles the request that has
  -- waited longest, if one waits, by the method for its kind, and then calls the fast tick and, in the order of their
  -- times, the ticks whose timers expired. No request is lost, handled
  -- twice or overtaken: the handled ones, then those that wait, are those that waited at first, then those enqueued.
  pub events_lem :
      (es : List Event) (q : List DisplayTodo) (i : I)
      → (events methods es (record { display_todos = q; internal = some i })
          ≡ record { display_todos = waiting es q; internal = some (replay (actions es q) i) })
        × (handled (actions es q) ++ waiting es q ≡ q ++ enqueued es)
  events_lem es q i = (events-replay es q i, handled-append-waiting es q)
