-- ===== src/Display/Message.antt =====
-- The steps of a message on the matrix and the requests that start one: modeMessage, doHandleMsgModePost and the
-- background messages of displayInternal.cpp, without the drawing.
use oclock.Common.{
  ℕ, zero, suc, ◌+◌, ◌-◌, ◌*◌, ◌%◌, ◌^◌, [], ◌∷◌, Bool, true, false, not, ◌&&◌, ltb, ◌==◌,
  if◌then◌else◌,
}
use oclock.Common.Int.{ℤ, pos, negsuc, ◌+ℤ◌, ◌-ℤ◌, ltb_ℤ, leb_ℤ, is_negative, eq_ℤ}
use oclock.Common.Str.{Str, str, until_nul}
use oclock.Common.Decimal.{cast_int}
use oclock.Common.AutoBase.{strtoul_10}
use oclock.Ht1632.{com_size, out_size}
use oclock.LedStrip.Params.{StringMap, parse_boolean_value}
use oclock.Message.{
  ModeMessageData, get_font_height, get_next_font, init_mode_message_data, mode_msgs_index_last,
}
use oclock.Message.Background.{is_key}

abbrev pub increment_y_scale : ℕ
increment_y_scale = 1000

-- A message and the counter of its color effect.
pub record Shown : Type 0 where
  pub message : ModeMessageData
  pub color_effect : ℕ

-- The text of a message at its start: `param` is none in the code, and a text of the program stands for an index.
unfoldable pub mode_message_init : (ℕ → Str) → (Str → ℕ → ℤ) → ModeMessageData → ModeMessageData
mode_message_init texts text_width m =
    let msg =
      if ltb m.mode_msgs_index mode_msgs_index_last then texts m.mode_msgs_index else m.msg in
    record m { msg = msg; wd = text_width msg m.font }

unfoldable pub alternate : (Str → ℕ → ℤ) → ModeMessageData → ModeMessageData
unfolding get_next_font
alternate text_width m =
    if m.alternate_font
    then record m { font = get_next_font m.font; wd = text_width m.msg (get_next_font m.font) }
    else m

-- `--repeats < 0`, unless the message is repeated forever: whether it is completed.
unfoldable pub count_repeats : ModeMessageData → ModeMessageData × Bool
count_repeats m =
    if eq_ℤ m.repeats (negsuc 0)
    then (m, false)
    else if is_negative (m.repeats -ℤ pos 1)
    then (record m { repeats = negsuc 0 }, true)
    else (record m { repeats = m.repeats -ℤ pos 1 }, false)

unfoldable pub with_effect : ℕ → ModeMessageData × Bool → Shown × Bool
with_effect effect (m, completed) = (record { message = m; color_effect = effect }, completed)

-- The wrap of the text behind a frame: whether the message is completed.
unfoldable pub text_wrap : (Str → ℕ → ℤ) → Shown → Shown × Bool
unfolding alternate count_repeats with_effect
text_wrap text_width s =
    let m = s.message in
    let next = m.curr_x +ℤ pos 1 in
    if not m.increment_x
    then (s, false)
    else if ltb_ℤ next (m.wd +ℤ pos out_size)
    then (record s { message = record m { curr_x = next } }, false)
    else with_effect (s.color_effect + 1)
        (count_repeats (alternate text_width (record m { curr_x = pos 0 })))

-- The bounce behind a frame that does not complete the message.
unfoldable pub bounce : Shown → Shown
unfolding get_next_font get_font_height
bounce s =
    let m = s.message in
    let y = m.curr_y_factor +ℤ m.increment_y in
    let moved = record m { curr_y_factor = y } in
    let back = record moved { increment_y = pos 0 -ℤ m.increment_y } in
    if eq_ℤ m.increment_y (pos 0)
    then s
    else if ltb_ℤ m.increment_y (pos 0) && ltb_ℤ y (pos 0)
    then record s { message = back }
    else if ltb_ℤ (pos 0) m.increment_y
        && leb_ℤ (pos ((com_size - get_font_height m.font) * increment_y_scale)) y
    then (if m.increment_x then record s { message = back } else record {
      message = if m.alternate_font then record back { font = get_next_font m.font } else back;
      color_effect = s.color_effect + 1;
    })
    else record s { message = moved }

unfoldable pub after_wrap : Shown × Bool → Shown × Bool
unfolding bounce
after_wrap (s, true) = (s, true)
after_wrap (s, false) = (bounce s, false)

-- What modeMessageFast does behind its drawing: whether it completed the message.
unfoldable pub mode_message_move : (Str → ℕ → ℤ) → Shown → Shown × Bool
unfolding text_wrap after_wrap
mode_message_move text_width s = after_wrap (text_wrap text_width s)

-- `snprintf` of a text into so many bytes.
unfoldable pub cut_to : ℕ → Str → Str
cut_to zero s = []
cut_to (suc zero) s = []
cut_to (suc (suc n)) [] = []
cut_to (suc (suc n)) (c ∷ s) = c ∷ cut_to (suc n) s

unfoldable pub drop : ℕ → Str → Str
drop zero s = s
drop (suc n) [] = []
drop (suc n) (c ∷ s) = drop n s

abbrev is_empty : Str → Bool
is_empty [] = true
is_empty (c ∷ s) = false

-- The text of a value: `#dict_` and a key give what the dictionary has there.
unfoldable pub text_of : (Str → Str) → Str → Str
unfolding is_key drop until_nul
text_of lookup value =
    if is_key (str "#dict_") value && not (is_empty (drop 6 value))
    then until_nul (lookup (drop 6 value))
    else value

-- `#cookie` and a number name a text of the program, and `#cookie` alone any of them; never the first.
unfoldable pub cookie_index : ℕ → Str → ℕ
unfolding drop
cookie_index random value =
    let n = if is_empty (drop 7 value) then random else strtoul_10 (drop 7 value) % 2 ^ 32 in
    if n == 0 then 1 else n

unfoldable pub set_msg : (Str → Str) → ℕ → Str → ModeMessageData → ModeMessageData
unfolding cookie_index text_of cut_to
set_msg lookup random value m =
    if is_key (str "#cookie") value
    then record m { mode_msgs_index = cookie_index random value }
    else record m { msg = cut_to 4096 (text_of lookup value) }

-- One value of a request for a message.
unfoldable pub set_message_value : (Str → Str) → ℕ → Str → Str → ModeMessageData → ModeMessageData
unfolding is_key set_msg parse_boolean_value
set_message_value lookup random key value m =
    let n = strtoul_10 value in
    if is_key key (str "msg")
    then set_msg lookup random (until_nul value) m
    else if is_key key (str "x")
    then record m { curr_x = cast_int n }
    else if is_key key (str "y")
    then record m { curr_y_factor = cast_int (n * increment_y_scale) }
    else if is_key key (str "font")
    then record m { font = n % 2 ^ 32 }
    else if is_key key (str "alternateFont")
    then record m { alternate_font = parse_boolean_value value }
    else if is_key key (str "confetti")
    then record m { confetti = cast_int n }
    else if is_key key (str "bounce")
    then record m { increment_y = if parse_boolean_value value then pos 800 else pos 0 }
    else if is_key key (str "noScroll")
    then record m { increment_x = not (parse_boolean_value value) }
    else if is_key key (str "blink")
    then record m { blink = parse_boolean_value value }
    else if is_key key (str "color")
    then record m { display_color = n % 2 ^ 32 }
    else if is_key key (str "repeats")
    then record m { repeats = cast_int n }
    else if is_key key (str "timeout")
    then record m { timeout = n % 2 ^ 32 }
    else m

unfoldable pub set_message_values : (Str → Str) → ℕ → StringMap → ModeMessageData → ModeMessageData
unfolding set_message_value
set_message_values lookup random [] m = m
set_message_values lookup random ((key, value) ∷ rest) m =
    set_message_values lookup random rest (set_message_value lookup random key value m)

-- The data of the message that a request asks for.
unfoldable pub requested_message : (Str → Str) → ℕ → StringMap → ModeMessageData → ModeMessageData
unfolding init_mode_message_data set_message_values
requested_message lookup random values m =
    set_message_values lookup random values
      (init_mode_message_data (pos 0) (pos 5) true false (pos 0) false 0 60 m)
