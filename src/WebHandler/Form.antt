-- ===== src/WebHandler/Form.antt =====
-- The body of a `POST` request: `parsePost` of webHandlerInternal.cpp. `tmpBuffer` is the array that it writes keys
-- and values to; an access outside it is no step.
use oclock.Common.{
  ℕ, zero, suc, ◌+◌, ◌*◌, ◌-◌, [], ◌∷◌, Bool, true, false, ◌&&◌, ◌||◌, Option, none, some, leb,
  ◌==◌, if◌then◌else◌, length, replicate, get_elem?,
}
use oclock.Common.Str.{Str}
use oclock.Common.SortedMap.{assign}
use oclock.LedStrip.Params.{StringMap}

-- What a walk over the body comes to.
pub data Scan (S : Type 0) : Type 0 where
  overrun : Scan S
  invalid_percent_encoding : Scan S
  scanned : S → Scan S

abbrev pub scan_on : {S : Type 0} → Option S → (S → Scan S) → Scan S
scan_on none k = overrun
scan_on (some s) k = k s

-- The digit that `isxdigit` accepts and `strtoul` reads in base 16.
unfoldable pub hex_value : ℕ → Option ℕ
hex_value c =
    if leb b'0' c && leb c b'9'
    then some (c - b'0')
    else if leb b'A' c && leb c b'F'
    then some (c - b'A' + 10)
    else if leb b'a' c && leb c b'f'
    then some (c - b'a' + 10)
    else none

abbrev pub hex_byte : Option ℕ → Option ℕ → Option ℕ
hex_byte (some a) (some b) = some (a * 16 + b)
hex_byte _ _ = none

-- The loop, over what it does at a `=`, a `&` and a character, and where a `%` is too close to the end.
module _ {S : Type 0} (equals ampersand cut : S → Option S) (append : ℕ → S → Option S) where
  unfoldable pub on_char : ℕ → S → Option S
  on_char c s =
      if c == b'+'
      then append b' ' s
      else if c == b'='
      then equals s
      else if c == b'&'
      then ampersand s
      else append c s

  unfoldable pub on_byte : Option ℕ → S → (S → Scan S) → Scan S
  on_byte none s k = invalid_percent_encoding
  on_byte (some c) s k = scan_on (append c s) k

  unfoldable pub on_percent : ℕ → ℕ → S → (S → Scan S) → Scan S
  on_percent a b s k = on_byte (hex_byte (hex_value a) (hex_value b)) s k

  unfoldable pub scan : Str → S → Scan S
  scan [] s = scanned s
  scan (c ∷ []) s = elim (c == b'%') [
    | true ↦ scan_on (cut s) scanned
    | false ↦ scan_on (on_char c s) scanned
  ]
  scan (c ∷ a ∷ []) s = elim (c == b'%') [
    | true ↦ scan_on (cut s) scanned
    | false ↦ scan_on (on_char c s) (scan (a ∷ []))
  ]
  scan (c ∷ a ∷ b ∷ rest) s = elim (c == b'%') [
    | true ↦ on_percent a b s (scan rest)
    | false ↦ scan_on (on_char c s) (scan (a ∷ b ∷ rest))
  ]

-- `curr_value` is the offset in the buffer, or `none` for the literal "".
pub record PostState : Type 0 where
  pub tmp_buffer : Str
  pub tmp_buffer_offset : ℕ
  pub curr_value : Option ℕ
  pub getting_value_portion : Bool
  pub post_values : StringMap

unfoldable pub write : ℕ → ℕ → Str → Option Str
write i v [] = none
write zero v (x ∷ xs) = some (v ∷ xs)
write (suc i) v (x ∷ xs) = elim (write i v xs) [ none ↦ none | some ys ↦ some (x ∷ ys) ]

-- The C string at an address of the array, which has to end before the array does.
unfoldable pub c_string : Str → ℕ → Option Str
c_string [] i = none
c_string (x ∷ xs) (suc i) = c_string xs i
c_string (x ∷ xs) zero =
    if x == 0 then some [] else elim (c_string xs 0) [ none ↦ none | some s ↦ some (x ∷ s) ]

abbrev pub value_at : Str → Option ℕ → Option Str
value_at buffer none = some []
value_at buffer (some i) = c_string buffer i

abbrev with_buffer : PostState → Option Str → Option PostState
with_buffer s none = none
with_buffer s (some b) = some (record s { tmp_buffer = b })

abbrev and_step : Option PostState → (PostState → Option PostState) → Option PostState
and_step none f = none
and_step (some s) f = f s

-- `tmpBuffer[tmpBufferOffset] = v`.
unfoldable pub put : ℕ → PostState → Option PostState
unfolding write
put v s = with_buffer s (write s.tmp_buffer_offset v s.tmp_buffer)

unfoldable pub advance : PostState → PostState
advance s = record s { tmp_buffer_offset = s.tmp_buffer_offset + 1 }

unfoldable pub buffer_append : ℕ → PostState → Option PostState
buffer_append c s = and_step (put c s) (λ t. some (advance t))

unfoldable pub value_portion : PostState → PostState
value_portion s = record s { curr_value = some s.tmp_buffer_offset; getting_value_portion = true }

unfoldable pub buffer_equals : PostState → Option PostState
buffer_equals s = and_step (put 0 s) (λ t. put 0 (value_portion (advance t)))

unfoldable pub add_to : PostState → Option Str → Option Str → Option PostState
unfolding assign
add_to s (some key) (some value) = some (record s { post_values = assign key value s.post_values })
add_to s _ _ = none

-- The value that is assembled, if it has a key.
unfoldable pub add_value : PostState → Option PostState
add_value s =
    if s.getting_value_portion
    then elim (get_elem? s.tmp_buffer 0) [
      | none ↦ none
      | some k ↦
          if k == 0
          then some s
          else and_step (put 0 s)
              (λ t. add_to t (c_string t.tmp_buffer 0) (value_at t.tmp_buffer t.curr_value))
    ]
    else some s

unfoldable pub restart : PostState → PostState
restart s = record s { curr_value = none; tmp_buffer_offset = 0; getting_value_portion = false }

unfoldable pub buffer_ampersand : PostState → Option PostState
buffer_ampersand s = and_step (add_value s) (λ t. put 0 (restart t))

unfoldable pub start_state : ℕ → PostState
start_state n = record {
  tmp_buffer = replicate (suc n) 0;
  tmp_buffer_offset = 0;
  curr_value = none;
  getting_value_portion = false;
  post_values = [];
}

abbrev max_post_body_len : ℕ
max_post_body_len = 4096

-- What `parsePost` makes of the body: `unreadable` is an access outside the array.
pub data Parsed : Type 0 where
  unreadable : Parsed
  no_body : Parsed
  bad_length : ℕ → Parsed
  bad_percent : Parsed
  parsed : StringMap → Parsed

unfoldable pub values_result : Option PostState → Parsed
values_result none = Parsed.unreadable
values_result (some s) = Parsed.parsed s.post_values

unfoldable pub final_value : Scan PostState → Parsed
final_value overrun = Parsed.unreadable
final_value invalid_percent_encoding = Parsed.bad_percent
final_value (scanned s) = values_result (add_value s)

unfoldable pub parse_data : Str → Parsed
unfolding scan buffer_equals buffer_ampersand put buffer_append start_state final_value
parse_data body =
    final_value
      (scan buffer_equals buffer_ampersand (put 0) buffer_append body (start_state (length body)))

unfoldable pub parse_post : Option Str → Parsed
unfolding parse_data
parse_post none = no_body
parse_post (some body) =
    if leb max_post_body_len (length body) || length body == 0
    then bad_length (length body)
    else parse_data body
