-- ===== src/WebHandler/Buffer.antt =====
-- The buffer of `parsePost`, against a walk that has the key and the value as texts of their own.
use oclock.Common.{
  ℕ, suc, ◌+◌, ◌<◌, [], ◌∷◌, ◌++◌, Bool, true, false, ◌≡◌, Option, none, some, length,
}
use oclock.Common.Str.{Str, until_nul}
use oclock.Common.SortedMap.{assign}
use oclock.LedStrip.Params.{StringMap}
use oclock.WebHandler.Form.{
  Scan, overrun, invalid_percent_encoding, scanned, scan, PostState, Parsed,
}

-- A key, the value behind a `=` if there was one, and the values before them.
pub record Text : Type 0 where
  pub key : Str
  pub value : Option Str
  pub values : StringMap

unfoldable pub text_append : ℕ → Text → Option Text
text_append c t = elim t.value [
  | none ↦ some (record t { key = t.key ++ (c ∷ []) })
  | some v ↦ some (record t { value = some (v ++ (c ∷ [])) })
]

unfoldable pub text_equals : Text → Option Text
text_equals t = some (record t { value = some [] })

unfoldable pub assign_key : Str → Str → StringMap → StringMap
unfolding assign
assign_key [] v m = m
assign_key (c ∷ k) v m = assign (c ∷ k) v m

-- A pair with an empty key is dropped; both are C strings.
unfoldable pub assign_text : Str → Str → StringMap → StringMap
assign_text k v m = assign_key (until_nul k) (until_nul v) m

unfoldable pub all_values : Text → StringMap
unfolding assign_text
all_values t = elim t.value [ none ↦ t.values | some v ↦ assign_text t.key v t.values ]

unfoldable pub text_ampersand : Text → Option Text
unfolding all_values
text_ampersand t = some (record { key = []; value = none; values = all_values t })

unfoldable pub text_scan : Str → Text → Scan Text
unfolding text_equals text_ampersand text_append scan
text_scan = scan text_equals text_ampersand some text_append

unfoldable pub empty_text : Text
empty_text = record { key = []; value = none; values = [] }

unfoldable pub text_result : Scan Text → Parsed
unfolding all_values
text_result overrun = Parsed.unreadable
text_result invalid_percent_encoding = Parsed.bad_percent
text_result (scanned t) = Parsed.parsed (all_values t)

-- What the buffer has before the offset; `mid` are values that a later `=` has given up.
abbrev pub layout : Str → Option Str → Str → Str
layout key none mid = key
layout key (some v) mid = key ++ (0 ∷ (mid ++ v))

abbrev pub offset_of : Str → Option Str → Str → Option ℕ
offset_of key none mid = none
offset_of key (some v) mid = some (length key + suc (length mid))

abbrev pub is_value : Option Str → Bool
is_value none = false
is_value (some v) = true

-- A buffer that is written up to the offset, with `rest` behind it.
abbrev pub written : Str → Str → Option ℕ → Bool → StringMap → PostState
written w rest v g values = record {
  tmp_buffer = w ++ rest;
  tmp_buffer_offset = length w;
  curr_value = v;
  getting_value_portion = g;
  post_values = values;
}

-- The state of the buffer for a text.
abbrev pub state_of : Str → Option Str → StringMap → Str → Str → PostState
state_of key value values mid rest =
    written (layout key value mid) rest (offset_of key value mid) (is_value value) values

-- The buffer holds the text, with more room behind the offset than is left of the body.
pub record Holds (left : ℕ) (s : PostState) (t : Text) : Type 0 where
  pub mid : Str
  pub rest : Str
  pub room : left < length rest
  pub state : s ≡ state_of t.key t.value t.values mid rest
