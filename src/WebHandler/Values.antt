-- ===== src/WebHandler/Values.antt =====
-- The pair that `parsePost` reads from its buffer at a `&` and at the end.
use oclock.Common.{
  ℕ, suc, ◌+◌, ◌<◌, [], ◌∷◌, ◌++◌, append_assoc, true, false, ◌≡◌, refl, sym, ap, ◌∙◌, Option, none,
  some, ◌==◌, Bool-cases, inl, inr, length, length-append, arith,
}
use oclock.Common.Str.{Str, until_nul}
use oclock.Common.SortedMap.{assign}
use oclock.LedStrip.Params.{StringMap}
use oclock.WebHandler.Form.{
  on_char, PostState, c_string, put, buffer_append, buffer_equals, add_to, add_value, restart,
  buffer_ampersand,
}
use oclock.WebHandler.Buffer.{
  text_append, text_equals, assign_key, assign_text, all_values, text_ampersand, layout, offset_of,
  is_value, written, state_of,
}
use oclock.WebHandler.Written.{
  c_string-until_nul, c_string-behind, put-written, Step, buffer_append-Step, buffer_equals-Step,
}

value_at-until_nul :
    (key mid v rest : Str)
    → c_string (layout key (some v) mid ++ (0 ∷ rest)) (length key + suc (length mid))
      ≡ some (until_nul v)
value_at-until_nul key mid v rest =
    rw (split, sym (length-append key (0 ∷ mid)))
      (c_string-behind (key ++ (0 ∷ mid)) (v ++ (0 ∷ rest)) ∙ c_string-until_nul v rest)
  where
    split : layout key (some v) mid ++ (0 ∷ rest) ≡ (key ++ (0 ∷ mid)) ++ (v ++ (0 ∷ rest))
    split =
        append_assoc key _ (0 ∷ rest)
        ∙ ap (λ (x : Str). key ++ (0 ∷ x)) (append_assoc mid v (0 ∷ rest))
        ∙ sym (append_assoc key (0 ∷ mid) (v ++ (0 ∷ rest)))

key_at-until_nul :
    (key mid v rest : Str)
    → c_string (layout key (some v) mid ++ (0 ∷ rest)) 0 ≡ some (until_nul key)
key_at-until_nul key mid v rest =
    rw (append_assoc key (0 ∷ (mid ++ v)) (0 ∷ rest)) (c_string-until_nul key _)

add_to-written :
    (key v mid rest : Str) (m : StringMap)
    → add_to
        (written (layout key (some v) mid) (0 ∷ rest) (offset_of key (some v) mid) true m)
        (some (until_nul key))
        (some (until_nul v))
      ≡ some (state_of key (some v) (assign (until_nul key) (until_nul v) m) mid (0 ∷ rest))
unfolding add_to
add_to-written key v mid rest m = refl

until_nul-nul : (k : ℕ) (key : Str) → (k == 0) ≡ true → until_nul (k ∷ key) ≡ []
unfolding until_nul
until_nul-nul k key e = rw e refl

until_nul-cons : (k : ℕ) (key : Str) → (k == 0) ≡ false → until_nul (k ∷ key) ≡ k ∷ until_nul key
unfolding until_nul
until_nul-cons k key e = rw e refl

assign_text-empty : (v : Str) (m : StringMap) → assign_text [] v m ≡ m
unfolding assign_text assign_key until_nul
assign_text-empty v m = refl

assign_text-nul :
    (k : ℕ) (key v : Str) (m : StringMap) → (k == 0) ≡ true → assign_text (k ∷ key) v m ≡ m
unfolding assign_text assign_key
assign_text-nul k key v m e = rw (until_nul-nul k key e) refl

assign_text-key :
    (k : ℕ) (key v : Str) (m : StringMap)
    → (k == 0) ≡ false
    → assign_text (k ∷ key) v m ≡ assign (until_nul (k ∷ key)) (until_nul v) m
unfolding assign_text assign_key
assign_text-key k key v m e = rw (until_nul-cons k key e) refl

pub add_value-state_of :
    (key : Str) (value : Option Str) (m : StringMap) (mid : Str) (x : ℕ) (rest : Str)
    → (y : ℕ) × (add_value (state_of key value m mid (x ∷ rest))
        ≡ some (
            state_of key value
              (all_values (record { key = key; value = value; values = m }))
              mid
              (y ∷ rest)))
unfolding add_value all_values
add_value-state_of key none m mid x rest = (x, refl)
add_value-state_of [] (some v) m mid x rest = (x, rw (assign_text-empty v m) refl)
add_value-state_of (k ∷ key) (some v) m mid x rest = elim (Bool-cases (k == 0)) [
  | inl e ↦ (x, rw (e, assign_text-nul k key v m e) refl)
  | inr e ↦ (
    0,
    rw
        (
          e,
          put-written 0 x (layout (k ∷ key) (some v) mid) rest (offset_of (k ∷ key) (some v) mid)
              true m,
          key_at-until_nul (k ∷ key) mid v rest,
          value_at-until_nul (k ∷ key) mid v rest,
        )
        (rw (assign_text-key k key v m e) (add_to-written (k ∷ key) v mid rest m)),
  )
]

restart-written :
    (b left : ℕ) (bs : Str) (s : PostState)
    → s.tmp_buffer ≡ b ∷ bs
    → left < suc (length bs)
    → Step left
        (put 0 (restart s))
        (some (record { key = []; value = none; values = s.post_values }))
unfolding put restart
restart-written b left bs s e l = rw e record { mid = []; rest = 0 ∷ bs; room = l; state = refl }

nonempty : (w : Str) (y : ℕ) (r : Str) → (b : ℕ) × (bs : Str) × (w ++ (y ∷ r) ≡ b ∷ bs)
nonempty [] y r = (y, r, refl)
nonempty (b ∷ w) y r = (b, w ++ (y ∷ r), refl)

buffer_ampersand-Step :
    (left : ℕ) (key : Str) (value : Option Str) (m : StringMap) (mid rest : Str)
    → left < length rest
    → Step left
        (buffer_ampersand (state_of key value m mid rest))
        (text_ampersand (record { key = key; value = value; values = m }))
unfolding buffer_ampersand text_ampersand
buffer_ampersand-Step left key value m mid [] l = absurd (omega arith)
buffer_ampersand-Step left key value m mid (x ∷ rest) l =
    let (y, e) = add_value-state_of key value m mid x rest in
    let (b, bs, f) = nonempty (layout key value mid) y rest in
    rw e (
      restart-written b left bs
        (state_of key value (all_values (record { key = key; value = value; values = m })) mid
          (y ∷ rest))
        f (omega (arith, ap length f, length-append (layout key value mid) (y ∷ rest))))

pub put-Step :
    (left : ℕ) (key : Str) (value : Option Str) (m : StringMap) (mid rest : Str)
    → left < length rest
    → Step left
        (put 0 (state_of key value m mid rest))
        (some (record { key = key; value = value; values = m }))
put-Step left key value m mid [] l = absurd (omega arith)
put-Step left key value m mid (x ∷ rest) l =
    rw (put-written 0 x (layout key value mid) rest (offset_of key value mid) (is_value value) m)
      record { mid = mid; rest = 0 ∷ rest; room = l; state = refl }

pub on_char-Step :
    (left c : ℕ) (key : Str) (value : Option Str) (m : StringMap) (mid rest : Str)
    → suc left < length rest
    → Step left
        (on_char buffer_equals buffer_ampersand
          (put 0)
          buffer_append
          c
          (state_of key value m mid rest))
        (on_char text_equals text_ampersand some text_append c
          (record { key = key; value = value; values = m }))
unfolding on_char
on_char-Step left c key value m mid rest l = elim (Bool-cases (c == b'+')) [
  | inl e ↦ rw e (buffer_append-Step left b' ' key value m mid rest l)
  | inr e ↦ rw e (elim (Bool-cases (c == b'=')) [
    | inl f ↦ rw f (buffer_equals-Step left key value m mid rest l)
    | inr f ↦ rw f (elim (Bool-cases (c == b'&')) [
      | inl g ↦ rw g (buffer_ampersand-Step left key value m mid rest (omega arith))
      | inr g ↦ rw g (buffer_append-Step left c key value m mid rest l)
    ])
  ])
]
