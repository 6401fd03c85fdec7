-- ===== src/WebHandler/Walk.antt =====
-- The walk of `parsePost` over the body, against the walk with texts of their own.
use oclock.Common.{
  ℕ, suc, ◌≤◌, ◌<◌, [], ◌∷◌, Bool, true, false, ◌≡◌, ◌≢◌, refl, sym, subst, ap, ◌∙◌, Option, none,
  some, ◌==◌, length, replicate, length-replicate, arith,
}
use oclock.Common.Str.{Str}
use oclock.WebHandler.Form.{
  Scan, overrun, invalid_percent_encoding, scanned, scan_on, scan, on_char, on_percent, on_byte,
  hex_byte, hex_value, PostState, put, buffer_append, buffer_equals, add_value, buffer_ampersand,
  start_state, values_result, final_value, parse_data, Parsed,
}
use oclock.WebHandler.Buffer.{
  Text, text_append, text_equals, all_values, text_ampersand, text_scan, empty_text, text_result,
  state_of, Holds,
}
use oclock.WebHandler.Written.{Step, buffer_append-Step}
use oclock.WebHandler.Values.{add_value-state_of, put-Step, on_char-Step}

-- What the two walks come to.
abbrev Agrees : Scan PostState → Scan Text → Type 0
Agrees overrun t = ⊥
Agrees invalid_percent_encoding overrun = ⊥
Agrees invalid_percent_encoding invalid_percent_encoding = Unit {0}
Agrees invalid_percent_encoding (scanned t) = ⊥
Agrees (scanned s) overrun = ⊥
Agrees (scanned s) invalid_percent_encoding = ⊥
Agrees (scanned s) (scanned t) = Holds 0 s t

abbrev buffer_scan : Str → PostState → Scan PostState
buffer_scan = scan buffer_equals buffer_ampersand (put 0) buffer_append

Step-Agrees :
    (left : ℕ) (o : Option PostState) (p : Option Text) (j : PostState → Scan PostState)
    (k : Text → Scan Text)
    → Step left o p
    → ((s : PostState) (t : Text) → Holds left s t → Agrees (j s) (k t))
    → Agrees (scan_on o j) (scan_on p k)
Step-Agrees left none p j k h f = absurd h
Step-Agrees left (some s) none j k h f = absurd h
Step-Agrees left (some s) (some t) j k h f = f s t h

on_char-Holds :
    (left c : ℕ) (s : PostState) (t : Text)
    → Holds (suc left) s t
    → Step left
        (on_char buffer_equals buffer_ampersand (put 0) buffer_append c s)
        (on_char text_equals text_ampersand some text_append c t)
on_char-Holds left c s t h =
    subst
      (λ s.
        Step left (on_char buffer_equals buffer_ampersand (put 0) buffer_append c s)
          (on_char text_equals text_ampersand some text_append c t))
      (sym h.state) (on_char-Step left c t.key t.value t.values h.mid h.rest h.room)

buffer_append-Holds :
    (left c : ℕ) (s : PostState) (t : Text)
    → Holds (suc left) s t
    → Step left (buffer_append c s) (text_append c t)
buffer_append-Holds left c s t h =
    subst (λ s. Step left (buffer_append c s) (text_append c t)) (sym h.state)
      (buffer_append-Step left c t.key t.value t.values h.mid h.rest h.room)

put-Holds : (left : ℕ) (s : PostState) (t : Text) → Holds left s t → Step 0 (put 0 s) (some t)
put-Holds left s t h =
    subst (λ s. Step 0 (put 0 s) (some t)) (sym h.state)
      (put-Step 0 t.key t.value t.values h.mid h.rest (omega (arith, h.room)))

Holds-fewer : (n m : ℕ) (s : PostState) (t : Text) → n ≤ m → Holds m s t → Holds n s t
Holds-fewer n m s t l h = record {
  mid = h.mid;
  rest = h.rest;
  room = omega (arith, h.room);
  state = h.state;
}

percent-Agrees :
    (left : ℕ) (o : Option ℕ) (s : PostState) (t : Text) (j : PostState → Scan PostState)
    (k : Text → Scan Text)
    → Holds (suc left) s t
    → ((s : PostState) (t : Text) → Holds left s t → Agrees (j s) (k t))
    → Agrees
        (on_byte buffer_equals buffer_ampersand (put 0) buffer_append o s j)
        (on_byte text_equals text_ampersand some text_append o t k)
unfolding on_byte
percent-Agrees left none s t j k h f = tt
percent-Agrees left (some c) s t j k h f =
    Step-Agrees left _ _ j k (buffer_append-Holds left c s t h) f

elim-Agrees :
    (b : Bool) (o o' : Scan PostState) (p p' : Scan Text)
    → Agrees o p
    → Agrees o' p'
    → Agrees (elim b [ true ↦ o | false ↦ o' ]) (elim b [ true ↦ p | false ↦ p' ])
elim-Agrees true o o' p p' h k = h
elim-Agrees false o o' p p' h k = k

scan-Agrees :
    (body : Str) (s : PostState) (t : Text)
    → Holds (length body) s t
    → Agrees (buffer_scan body s) (text_scan body t)
unfolding scan text_scan on_percent
scan-Agrees [] s t h = h
scan-Agrees (c ∷ []) s t h =
    elim-Agrees (c == b'%') _ _ _ _
      (Step-Agrees 0 (put 0 s) (some t) scanned scanned (put-Holds 1 s t h) (λ s t h. h))
      (Step-Agrees 0 _ _ scanned scanned (on_char-Holds 0 c s t h) (λ s t h. h))
scan-Agrees (c ∷ (a ∷ [])) s t h =
    elim-Agrees (c == b'%') _ _ _ _
      (Step-Agrees 0 (put 0 s) (some t) scanned scanned (put-Holds 2 s t h) (λ s t h. h))
      (Step-Agrees 1 _ _ _ _ (on_char-Holds 1 c s t h) (scan-Agrees (a ∷ [])))
scan-Agrees (c ∷ (a ∷ (b ∷ rest))) s t h =
    elim-Agrees (c == b'%') _ _ _ _
      (percent-Agrees (length rest) (hex_byte (hex_value a) (hex_value b)) s t _ _
        (Holds-fewer (suc (length rest)) (suc (suc (suc (length rest)))) s t (omega arith) h)
        (scan-Agrees rest))
      (Step-Agrees (suc (suc (length rest))) _ _ _ _ (on_char-Holds _ c s t h)
        (scan-Agrees (a ∷ (b ∷ rest))))

start_state-Holds : (n : ℕ) → Holds n (start_state n) empty_text
unfolding start_state empty_text
start_state-Holds n = record {
  mid = [];
  rest = replicate (suc n) 0;
  room = omega (arith, length-replicate {A = ℕ} (suc n) 0);
  state = refl;
}

add_value-values :
    (t : Text) (mid rest : Str)
    → 0 < length rest
    → values_result (add_value (state_of t.key t.value t.values mid rest))
      ≡ Parsed.parsed (all_values t)
unfolding values_result
add_value-values t mid [] l = absurd (omega arith)
add_value-values t mid (x ∷ rest) l =
    rw ((add_value-state_of t.key t.value t.values mid x rest).1) refl

final_value-Agrees :
    (o : Scan PostState) (p : Scan Text)
    → Agrees o p
    → (final_value o ≡ text_result p) × (final_value o ≢ Parsed.unreadable)
unfolding final_value text_result
final_value-Agrees overrun p h = absurd h
final_value-Agrees invalid_percent_encoding overrun h = absurd h
final_value-Agrees invalid_percent_encoding invalid_percent_encoding h = (refl, cc)
final_value-Agrees invalid_percent_encoding (scanned t) h = absurd h
final_value-Agrees (scanned s) overrun h = absurd h
final_value-Agrees (scanned s) invalid_percent_encoding h = absurd h
final_value-Agrees (scanned s) (scanned t) h =
    let e =
      ap (λ (s : PostState). values_result (add_value s)) h.state
      ∙ add_value-values t h.mid h.rest h.room in
    rw e (refl, cc)

-- The walk over the buffer never reads or writes outside it, and it comes to exactly what the walk with texts
-- of their own comes to: keys and values cut at a NUL, the pair of an empty key dropped, a later pair of a
-- key replacing an earlier one.
pub parse_data-text :
    (body : Str)
    → (parse_data body ≡ text_result (text_scan body empty_text))
      × (parse_data body ≢ Parsed.unreadable)
unfolding parse_data
parse_data-text body =
    final_value-Agrees _ _
      (scan-Agrees body (start_state (length body)) empty_text (start_state-Holds (length body)))
