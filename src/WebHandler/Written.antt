-- ===== src/WebHandler/Written.antt =====
-- The steps of `parsePost` on a buffer that is written up to the offset.
use oclock.Common.{
  ℕ, suc, ◌+◌, ◌<◌, [], ◌∷◌, ◌++◌, append_assoc, append-nil, Bool, true, false, ◌≡◌, refl, sym, ap,
  ◌∙◌, Option, none, some, ◌==◌, Bool-cases, inl, inr, length, length-append, arith,
}
use oclock.Common.Str.{Str, until_nul}
use oclock.LedStrip.Params.{StringMap}
use oclock.WebHandler.Form.{
  PostState, write, c_string, put, advance, value_portion, buffer_append, buffer_equals,
}
use oclock.WebHandler.Buffer.{
  Text, text_append, text_equals, layout, offset_of, is_value, written, state_of, Holds,
}

write-append :
    (w : Str) (v x : ℕ) (r : Str) → write (length w) v (w ++ (x ∷ r)) ≡ some (w ++ (v ∷ r))
unfolding write
write-append [] v x r = refl
write-append (y ∷ w) v x r = rw (write-append w v x r) refl

pub c_string-until_nul : (k r : Str) → c_string (k ++ (0 ∷ r)) 0 ≡ some (until_nul k)
unfolding c_string until_nul
c_string-until_nul [] r = refl
c_string-until_nul (x ∷ k) r = elim (Bool-cases (x == 0)) [
  | inl e ↦ rw e refl
  | inr e ↦ rw (e, c_string-until_nul k r) refl
]

pub c_string-behind : (w r : Str) → c_string (w ++ r) (length w) ≡ c_string r 0
unfolding c_string
c_string-behind [] r = refl
c_string-behind (x ∷ w) r = c_string-behind w r

pub put-written :
    (c x : ℕ) (w r : Str) (v : Option ℕ) (g : Bool) (m : StringMap)
    → put c (written w (x ∷ r) v g m) ≡ some (written w (c ∷ r) v g m)
unfolding put
put-written c x w r v g m = rw (write-append w c x r) refl

advance-written :
    (c : ℕ) (w r : Str) (v : Option ℕ) (g : Bool) (m : StringMap)
    → advance (written w (c ∷ r) v g m) ≡ written (w ++ (c ∷ [])) r v g m
unfolding advance
advance-written c w r v g m = rw (append_assoc w (c ∷ []) r, length-append w (c ∷ [])) refl

buffer_append-written :
    (c x : ℕ) (w r : Str) (v : Option ℕ) (g : Bool) (m : StringMap)
    → buffer_append c (written w (x ∷ r) v g m) ≡ some (written (w ++ (c ∷ [])) r v g m)
unfolding buffer_append
buffer_append-written c x w r v g m =
    rw (put-written c x w r v g m) (ap some (advance-written c w r v g m))

value_portion-written :
    (w r : Str) (v : Option ℕ) (g : Bool) (m : StringMap)
    → value_portion (written w r v g m) ≡ written w r (some (length w)) true m
unfolding value_portion
value_portion-written w r v g m = refl

buffer_equals-written :
    (x y : ℕ) (w r : Str) (v : Option ℕ) (g : Bool) (m : StringMap)
    → buffer_equals (written w (x ∷ (y ∷ r)) v g m)
      ≡ some (written (w ++ (0 ∷ [])) (0 ∷ r) (some (length (w ++ (0 ∷ [])))) true m)
unfolding buffer_equals
buffer_equals-written x y w r v g m =
    rw
      (
        put-written 0 x w (y ∷ r) v g m,
        advance-written 0 w (y ∷ r) v g m,
        value_portion-written (w ++ (0 ∷ [])) (y ∷ r) v g m,
      )
      (put-written 0 y (w ++ (0 ∷ [])) r (some (length (w ++ (0 ∷ [])))) true m)

append_value :
    (key v mid : Str) (c : ℕ)
    → layout key (some v) mid ++ (c ∷ []) ≡ layout key (some (v ++ (c ∷ []))) mid
append_value key v mid c =
    append_assoc key _ (c ∷ []) ∙ ap (λ (x : Str). key ++ (0 ∷ x)) (append_assoc mid v (c ∷ []))

-- What each step of the walk is to the buffer.
abbrev pub Step : ℕ → Option PostState → Option Text → Type 0
Step left none t = ⊥
Step left (some s) none = ⊥
Step left (some s) (some t) = Holds left s t

pub buffer_append-Step :
    (left c : ℕ) (key : Str) (value : Option Str) (m : StringMap) (mid rest : Str)
    → suc left < length rest
    → Step left
        (buffer_append c (state_of key value m mid rest))
        (text_append c (record { key = key; value = value; values = m }))
unfolding text_append
buffer_append-Step left c key value m mid [] l = absurd (omega arith)
buffer_append-Step left c key none m mid (x ∷ rest) l =
    rw (buffer_append-written c x key rest none false m)
      record { mid = mid; rest = rest; room = omega arith; state = refl }
buffer_append-Step left c key (some v) m mid (x ∷ rest) l =
    rw
      (buffer_append-written c x (layout key (some v) mid) rest (offset_of key (some v) mid) true m)
      record {
        mid = mid;
        rest = rest;
        room = omega arith;
        state =
            ap (λ (w : Str). written w rest (offset_of key (some v) mid) true m)
              (append_value key v mid c);
      }

-- The values that a further `=` leaves behind.
abbrev passed : Option Str → Str → Str
passed none mid = []
passed (some v) mid = (mid ++ v) ++ (0 ∷ [])

passed-layout :
    (key : Str) (value : Option Str) (mid : Str)
    → layout key value mid ++ (0 ∷ []) ≡ layout key (some []) (passed value mid)
passed-layout key none mid = refl
passed-layout key (some v) mid =
    append_assoc key _ (0 ∷ []) ∙ ap (λ (x : Str). key ++ (0 ∷ x)) (sym (append-nil _))

layout-length : (key mid : Str) → length (layout key (some []) mid) ≡ length key + suc (length mid)
layout-length key mid = rw (append-nil mid) (length-append key (0 ∷ mid))

pub buffer_equals-Step :
    (left : ℕ) (key : Str) (value : Option Str) (m : StringMap) (mid rest : Str)
    → suc left < length rest
    → Step left
        (buffer_equals (state_of key value m mid rest))
        (text_equals (record { key = key; value = value; values = m }))
unfolding text_equals
buffer_equals-Step left key value m mid [] l = absurd (omega arith)
buffer_equals-Step left key value m mid (x ∷ []) l = absurd (omega arith)
buffer_equals-Step left key value m mid (x ∷ (y ∷ rest)) l =
    rw
      (buffer_equals-written x y (layout key value mid) rest (offset_of key value mid)
        (is_value value) m)
      record {
        mid = passed value mid;
        rest = 0 ∷ rest;
        room = omega arith;
        state = rw (passed-layout key value mid) (
            ap
              (λ (n : ℕ).
                written (layout key (some []) (passed value mid)) (0 ∷ rest) (some n) true m)
              (layout-length key (passed value mid)));
      }
