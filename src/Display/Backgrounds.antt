-- ===== src/Display/Backgrounds.antt =====
-- The background messages: their slots and the request that fills one, in displayInternal.cpp.
use oclock.Common.{ℕ, ◌%◌, ◌^◌, List, [], ◌∷◌, map, Bool, false, Option, if◌then◌else◌}
use oclock.Common.Int.{ℤ, pos}
use oclock.Common.Str.{Str, str, until_nul}
use oclock.Common.Decimal.{cast_int}
use oclock.Common.AutoBase.{strtoul_10}
use oclock.LedStrip.Params.{StringMap, parse_boolean_value}
use oclock.Message.{Animation, AnimationStep}
use oclock.Message.Background.{is_key, index_of, animation_step_of, write_slot}
use oclock.Display.Message.{text_of, cut_to}

pub record BackgroundMessage : Type 0 where
  pub enabled : Bool
  pub font : ℕ
  pub display_color : ℕ
  pub msg : Str
  pub x : ℤ
  pub y : ℤ
  pub animation : Animation

-- A slot that is cleared keeps its animation.
unfoldable pub init_background_message : BackgroundMessage → BackgroundMessage
init_background_message m = record m {
  enabled = false;
  font = 0;
  display_color = 2;
  msg = [];
  x = pos 0;
  y = pos 0;
}

-- The message of `memset`.
abbrev pub zero_message : BackgroundMessage
zero_message = record {
  enabled = false;
  font = 0;
  display_color = 0;
  msg = [];
  x = pos 0;
  y = pos 0;
  animation = record {
    animation_step = AnimationStep.none;
    animation_step_phase = 0;
    animation_step_phase_value = 0;
  };
}

-- What the loop over the request has so far.
pub record MsgPost : Type 0 where
  pub msg_index : ℕ
  pub message : BackgroundMessage
  pub slots : List BackgroundMessage

set_animation : Str → Str → BackgroundMessage → BackgroundMessage
unfolding is_key animation_step_of
set_animation key value m =
    let n = strtoul_10 value in
    if is_key key (str "animationStep")
    then record m {
      animation = record (m.animation) { animation_step = animation_step_of (n % 2 ^ 32) };
    }
    else if is_key key (str "animationPhase")
    then record m { animation = record (m.animation) { animation_step_phase = n % 256 } }
    else if is_key key (str "animationPhaseValue")
    then record m { animation = record (m.animation) { animation_step_phase_value = n % 256 } }
    else m

-- One value of the request.
unfoldable pub set_msg_value : (Str → Str) → Str → Str → MsgPost → MsgPost
unfolding is_key index_of text_of cut_to parse_boolean_value init_background_message set_animation
set_msg_value lookup key value p =
    let n = strtoul_10 value in
    if is_key key (str "index")
    then record p { msg_index = index_of (cast_int n) }
    else if is_key key (str "msg")
    then record p {
      message = record (p.message) { msg = cut_to 120 (text_of lookup (until_nul value)) };
    }
    else if is_key key (str "enabled")
    then record p { message = record (p.message) { enabled = parse_boolean_value value } }
    else if is_key key (str "clearAll")
    then (if parse_boolean_value value
        then record p { slots = map init_background_message p.slots }
        else p)
    else if is_key key (str "font")
    then record p { message = record (p.message) { font = n % 2 ^ 32 } }
    else if is_key key (str "x")
    then record p { message = record (p.message) { x = cast_int n } }
    else if is_key key (str "y")
    then record p { message = record (p.message) { y = cast_int n } }
    else if is_key key (str "color")
    then record p { message = record (p.message) { display_color = n % 2 ^ 32 } }
    else record p { message = set_animation key value p.message }

unfoldable pub set_msg_values : (Str → Str) → StringMap → MsgPost → MsgPost
unfolding set_msg_value
set_msg_values lookup [] p = p
set_msg_values lookup ((key, value) ∷ rest) p =
    set_msg_values lookup rest (set_msg_value lookup key value p)

unfoldable pub do_handle_msg_background_post :
    (Str → Str) → StringMap → List BackgroundMessage → Option (List BackgroundMessage)
unfolding set_msg_values write_slot
do_handle_msg_background_post lookup values slots =
    let p =
      set_msg_values lookup values
        (record { msg_index = 0; message = zero_message; slots = slots }) in
    write_slot p.msg_index p.message p.slots
