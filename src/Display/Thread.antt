-- ===== src/Display/Thread.antt =====
-- The queue of the display and its thread: display.cpp. The timers' flags are arguments of a pass of the loop.
use oclock.Common.{List, [], ◌∷◌, ◌++◌, Bool, false, if◌then◌else◌, Option, none, some}
use oclock.Common.Str.{Str, str}
use oclock.LedStrip.Params.{StringMap}

-- The methods of `DisplayInternal` on its state.
pub record DisplayInternal (I : Type 0) : Type 0 where
  pub do_handle_msg_mode_post : StringMap → I → I
  pub do_handle_img_background_post : StringMap → I → I
  pub do_handle_msg_background_post : StringMap → I → I
  pub get_display_mode_str : I → Str
  pub get_display_dimmed : I → Bool
  pub display_tick_fast : I → I
  pub display_tick_100ms : I → I
  pub display_tick_250ms : I → I
  pub display_tick_500ms : I → I
  pub display_tick_1sec : I → I
  pub display_tick_5sec : I → I
  pub display_tick_10sec : I → I
  pub display_tick_25sec : I → I
  pub display_tick_1min : I → I

-- `DisplayTodo`, with its type.
pub data DisplayTodo : Type 0 where
  msg_mode_post : StringMap → DisplayTodo
  img_background_post : StringMap → DisplayTodo
  msg_background_post : StringMap → DisplayTodo

-- The internals are there once the thread has made them.
pub record Display (I : Type 0) : Type 0 where
  pub display_todos : List DisplayTodo
  pub internal : Option I

-- What the slower timers of the loop say.
pub record Expired : Type 0 where
  pub after_100ms : Bool
  pub after_250ms : Bool
  pub after_500ms : Bool
  pub after_1sec : Bool
  pub after_5sec : Bool
  pub after_10sec : Bool
  pub after_25sec : Bool
  pub after_1min : Bool

-- What may happen to the thread, in any order: other threads enqueue, and the loop passes.
pub data Event : Type 0 where
  enqueues : DisplayTodo → Event
  passes : Expired → Event

unfoldable pub first_todo : List DisplayTodo → Option DisplayTodo
first_todo [] = none
first_todo (t ∷ ts) = some t

unfoldable pub later_todos : List DisplayTodo → List DisplayTodo
later_todos [] = []
later_todos (t ∷ ts) = ts

module _ {I : Type 0} where
  unfoldable pub enqueue_display_todo : DisplayTodo → Display I → Display I
  enqueue_display_todo t d = record d { display_todos = d.display_todos ++ (t ∷ []) }

  unfoldable pub enqueue_msg_mode_post : StringMap → Display I → Display I
  unfolding enqueue_display_todo
  enqueue_msg_mode_post p = enqueue_display_todo (msg_mode_post p)

  unfoldable pub enqueue_img_background_post : StringMap → Display I → Display I
  unfolding enqueue_display_todo
  enqueue_img_background_post p = enqueue_display_todo (img_background_post p)

  unfoldable pub enqueue_msg_background_post : StringMap → Display I → Display I
  unfolding enqueue_display_todo
  enqueue_msg_background_post p = enqueue_display_todo (msg_background_post p)

  unfoldable pub dequeue_display_todo : Display I → Option DisplayTodo × Display I
  unfolding first_todo later_todos
  dequeue_display_todo d =
      (first_todo d.display_todos, record d { display_todos = later_todos d.display_todos })

module _ {I : Type 0} (methods : DisplayInternal I) where
  unfoldable pub get_internal_display_mode : Display I → Str
  get_internal_display_mode d = elim d.internal [
    | none ↦ str "starting"
    | some i ↦ methods.get_display_mode_str i
  ]

  unfoldable pub get_internal_display_dimmed : Display I → Bool
  get_internal_display_dimmed d = elim d.internal [
    | none ↦ false
    | some i ↦ methods.get_display_dimmed i
  ]

  -- The handler of a todo's type.
  unfoldable pub handler : DisplayTodo → I → I
  handler (msg_mode_post p) = methods.do_handle_msg_mode_post p
  handler (img_background_post p) = methods.do_handle_img_background_post p
  handler (msg_background_post p) = methods.do_handle_msg_background_post p

  abbrev pub on_internal : (I → I) → Display I → Display I
  on_internal f d = record d { internal = elim d.internal [ none ↦ none | some i ↦ some (f i) ] }

  unfoldable pub handle_todo : Option DisplayTodo × Display I → Display I
  unfolding handler
  handle_todo (none, d) = d
  handle_todo (some t, d) = on_internal (handler t) d

  unfoldable pub check_todo_list : Display I → Display I
  unfolding dequeue_display_todo handle_todo
  check_todo_list d = handle_todo (dequeue_display_todo d)

  abbrev pub when : Bool → (I → I) → I → I
  when b f i = if b then f i else i

  -- The ticks of one pass, the fast one first.
  unfoldable pub ticks : Expired → I → I
  ticks e i = when e.after_1min methods.display_tick_1min (
      when e.after_25sec methods.display_tick_25sec (
        when e.after_10sec methods.display_tick_10sec (
          when e.after_5sec methods.display_tick_5sec (
            when e.after_1sec methods.display_tick_1sec (
              when e.after_500ms methods.display_tick_500ms (
                when e.after_250ms methods.display_tick_250ms (
                  when e.after_100ms methods.display_tick_100ms (methods.display_tick_fast i))))))))

  -- One pass of the loop behind the fast tick.
  unfoldable pub loop_pass : Expired → Display I → Display I
  unfolding check_todo_list ticks
  loop_pass e d = on_internal (ticks e) (check_todo_list d)

  unfoldable pub event : Event → Display I → Display I
  unfolding enqueue_display_todo loop_pass
  event (enqueues t) d = enqueue_display_todo t d
  event (passes e) d = loop_pass e d

  unfoldable pub events : List Event → Display I → Display I
  unfolding event
  events [] d = d
  events (e ∷ es) d = events es (event e d)
