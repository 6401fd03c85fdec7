-- ===== src/WebHandler/Encoding.antt =====
-- The encoding of a form by a browser, `application/x-www-form-urlencoded`, and how `parsePost` reads it back.
use oclock.Common.{
  ℕ, ◌+◌, ◌*◌, ◌/◌, ◌%◌, ◌<◌, List, [], ◌∷◌, ◌++◌, append_assoc, append-nil, Bool, true, false,
  ◌&&◌, ◌||◌, ◌≡◌, refl, sym, ap, ◌∙◌, none, some, leb, ◌==◌, if◌then◌else◌, Bool-cases, inl, inr,
  All, arith, ==→eq,
}
use oclock.Common.Str.{Str, until_nul}
use oclock.Common.SortedMap.{assign}
use oclock.Common.Assign.{assign_all}
use oclock.LedStrip.Params.{StringMap}
use oclock.WebHandler.Form.{Scan, scan_on, scan, on_char, on_percent, on_byte, hex_value, Parsed}
use oclock.WebHandler.Buffer.{
  Text, text_append, text_equals, assign_text, assign_key, all_values, text_ampersand, text_scan,
  text_result,
}

-- Digits, letters and `*-._` are sent as they are.
unfoldable pub is_unreserved : ℕ → Bool
is_unreserved c =
    leb b'0' c && leb c b'9'
    || (leb b'A' c && leb c b'Z'
        || (leb b'a' c && leb c b'z' || (c == b'*' || (c == b'-' || (c == b'.' || c == b'_')))))

unfoldable pub hex_digit : ℕ → ℕ
hex_digit n = if leb n 9 then b'0' + n else 55 + n

unfoldable pub encode_char : ℕ → Str
unfolding is_unreserved hex_digit
encode_char c =
    if is_unreserved c
    then c ∷ []
    else if c == b' '
    then b'+' ∷ []
    else b'%' ∷ (hex_digit (c / 16) ∷ (hex_digit (c % 16) ∷ []))

unfoldable pub encode : Str → Str
unfolding encode_char
encode [] = []
encode (c ∷ cs) = encode_char c ++ encode cs

unfoldable pub encode_pair : Str × Str → Str
unfolding encode
encode_pair (key, value) = encode key ++ (b'=' ∷ encode value)

unfoldable pub encode_pairs : Str × Str → List (Str × Str) → Str
unfolding encode_pair
encode_pairs p [] = encode_pair p
encode_pairs p (q ∷ rest) = encode_pair p ++ (b'&' ∷ encode_pairs q rest)

-- A byte of a text without a NUL.
abbrev pub IsByte : ℕ → Type 0
IsByte c = (0 < c) × (c < 256)

abbrev pub IsKey : Str → Type 0
IsKey [] = ⊥
IsKey (c ∷ cs) = IsByte c × All IsByte cs

abbrev pub IsPair : Str × Str → Type 0
IsPair (key, value) = IsKey key × All IsByte value

hex_value-hex_digit : (n : ℕ) → n < 16 → hex_value (hex_digit n) ≡ some n
unfolding hex_value hex_digit
hex_value-hex_digit n l = ground arith

on_percent-hex_digit :
    (c : ℕ) (t : Text) (k : Text → Scan Text)
    → c < 256
    → on_percent text_equals text_ampersand some text_append
        (hex_digit (c / 16))
        (hex_digit (c % 16))
        t
        k
      ≡ scan_on (text_append c t) k
unfolding on_percent on_byte
on_percent-hex_digit c t k l =
    rw
      (
        hex_value-hex_digit (c / 16) (omega arith),
        hex_value-hex_digit (c % 16) (omega arith),
        whole,
      )
      refl
  where
    whole : c / 16 * 16 + c % 16 ≡ c
    whole = omega arith

elim_false : (b : Bool) (x y : Scan Text) → b ≡ false → elim b [ true ↦ x | false ↦ y ] ≡ y
elim_false true x y e = cc
elim_false false x y e = refl

text_scan-char :
    (c : ℕ) (rest : Str) (t : Text)
    → (c == b'%') ≡ false
    → text_scan (c ∷ rest) t
      ≡ scan_on (on_char text_equals text_ampersand some text_append c t) (text_scan rest)
unfolding text_scan scan
text_scan-char c [] t e = elim_false (c == b'%') _ _ e
text_scan-char c (a ∷ []) t e = elim_false (c == b'%') _ _ e
text_scan-char c (a ∷ (b ∷ rest)) t e = elim_false (c == b'%') _ _ e

text_scan-percent :
    (a b : ℕ) (rest : Str) (t : Text)
    → text_scan (b'%' ∷ (a ∷ (b ∷ rest))) t
      ≡ on_percent text_equals text_ampersand some text_append a b t (text_scan rest)
unfolding text_scan scan
text_scan-percent a b rest t = refl

unreserved-char :
    (c : ℕ)
    → is_unreserved c ≡ true
    → ((c == b'%') ≡ false) × ((c == b'+') ≡ false) × ((c == b'=') ≡ false) × ((c == b'&') ≡ false)
unfolding is_unreserved
unreserved-char c h = (ground arith, ground arith, ground arith, ground arith)

text_scan-encode_char :
    (c : ℕ) (rest : Str) (t : Text)
    → c < 256
    → text_scan (encode_char c ++ rest) t ≡ scan_on (text_append c t) (text_scan rest)
unfolding encode_char on_char
text_scan-encode_char c rest t l = elim (Bool-cases (is_unreserved c)) [
  | inl e ↦ let u = unreserved-char c e in rw (e, text_scan-char c rest t u.0, u.1, u.2, u.3) refl
  | inr e ↦ rw e (elim (Bool-cases (c == b' ')) [
    | inl f ↦ rw (f, text_scan-char b'+' rest t refl, ==→eq c b' ' f) refl
    | inr f ↦
        rw (f, text_scan-percent (hex_digit (c / 16)) (hex_digit (c % 16)) rest t)
          (on_percent-hex_digit c t (text_scan rest) l)
  ])
]

below_256 : (c : ℕ) → IsByte c → c < 256
below_256 c h = h.1

pub text_scan-encode_key :
    (s k rest : Str) (m : StringMap)
    → All IsByte s
    → text_scan (encode s ++ rest) (record { key = k; value = none; values = m })
      ≡ text_scan rest (record { key = k ++ s; value = none; values = m })
unfolding encode text_append
text_scan-encode_key [] k rest m h = rw (append-nil k) refl
text_scan-encode_key (c ∷ s) k rest m h = rw (append_assoc (encode_char c) (encode s) rest) (
    text_scan-encode_char c (encode s ++ rest) (record { key = k; value = none; values = m })
      (below_256 c h.0)
    ∙ text_scan-encode_key s (k ++ (c ∷ [])) rest m h.1
    ∙ rw (append_assoc k (c ∷ []) s) refl)

text_scan-encode_value :
    (s k v rest : Str) (m : StringMap)
    → All IsByte s
    → text_scan (encode s ++ rest) (record { key = k; value = some v; values = m })
      ≡ text_scan rest (record { key = k; value = some (v ++ s); values = m })
unfolding encode text_append
text_scan-encode_value [] k v rest m h = rw (append-nil v) refl
text_scan-encode_value (c ∷ s) k v rest m h = rw (append_assoc (encode_char c) (encode s) rest) (
    text_scan-encode_char c (encode s ++ rest) (record { key = k; value = some v; values = m })
      (below_256 c h.0)
    ∙ text_scan-encode_value s k (v ++ (c ∷ [])) rest m h.1
    ∙ rw (append_assoc v (c ∷ []) s) refl)

text_scan-equals :
    (rest k : Str) (m : StringMap)
    → text_scan (b'=' ∷ rest) (record { key = k; value = none; values = m })
      ≡ text_scan rest (record { key = k; value = some []; values = m })
unfolding on_char text_equals
text_scan-equals rest k m = text_scan-char b'=' rest _ refl

pub text_scan-ampersand :
    (rest k v : Str) (m : StringMap)
    → text_scan (b'&' ∷ rest) (record { key = k; value = some v; values = m })
      ≡ text_scan rest (record { key = []; value = none; values = assign_text k v m })
unfolding on_char text_ampersand all_values
text_scan-ampersand rest k v m = text_scan-char b'&' rest _ refl

pub text_scan-encode_pair :
    (k v rest : Str) (m : StringMap)
    → All IsByte k
    → All IsByte v
    → text_scan (encode_pair (k, v) ++ rest) (record { key = []; value = none; values = m })
      ≡ text_scan rest (record { key = k; value = some v; values = m })
unfolding encode_pair
text_scan-encode_pair k v rest m h g = rw (append_assoc (encode k) (b'=' ∷ encode v) rest) (
    text_scan-encode_key k [] (b'=' ∷ (encode v ++ rest)) m h
    ∙ text_scan-equals (encode v ++ rest) k m
    ∙ text_scan-encode_value v k [] rest m g)

until_nul-IsByte : (s : Str) → All IsByte s → until_nul s ≡ s
unfolding until_nul
until_nul-IsByte [] h = refl
until_nul-IsByte (c ∷ s) h = ground (arith, until_nul-IsByte s h.1)

pub key-IsByte : (k : Str) → IsKey k → All IsByte k
key-IsByte [] h = absurd h
key-IsByte (c ∷ k) h = h

pub assign_text-IsKey :
    (k v : Str) (m : StringMap) → IsKey k → All IsByte v → assign_text k v m ≡ assign k v m
unfolding assign_text assign_key
assign_text-IsKey [] v m h g = absurd h
assign_text-IsKey (c ∷ k) v m h g = rw (until_nul-IsByte (c ∷ k) h, until_nul-IsByte v g) refl

text_scan-end :
    (k v : Str) (m : StringMap)
    → text_result (text_scan [] (record { key = k; value = some v; values = m }))
      ≡ Parsed.parsed (assign_text k v m)
unfolding text_scan scan text_result all_values
text_scan-end k v m = refl

pub text_scan-encode_pairs :
    (p : Str × Str) (rest : List (Str × Str)) (m : StringMap)
    → IsPair p
    → All IsPair rest
    → text_result (text_scan (encode_pairs p rest) (record { key = []; value = none; values = m }))
      ≡ Parsed.parsed (assign_all (p ∷ rest) m)
unfolding encode_pairs assign_all
text_scan-encode_pairs (k, v) [] m h g =
    rw (sym (append-nil (encode_pair (k, v))))
      (ap text_result (text_scan-encode_pair k v [] m (key-IsByte k h.0) h.1) ∙ ends k v m h)
  where
    ends :
        (k v : Str) (m : StringMap)
        → IsPair (k, v)
        → text_result (text_scan [] (record { key = k; value = some v; values = m }))
          ≡ Parsed.parsed (assign k v m)
    ends k v m h = text_scan-end k v m ∙ ap Parsed.parsed (assign_text-IsKey k v m h.0 h.1)
text_scan-encode_pairs (k, v) (q ∷ rest) m h g =
    rw
      (
        text_scan-encode_pair k v (b'&' ∷ encode_pairs q rest) m (key-IsByte k h.0) h.1,
        text_scan-ampersand (encode_pairs q rest) k v m,
        assign_text-IsKey k v m h.0 h.1,
      )
      (text_scan-encode_pairs q rest (assign k v m) g.0 g.1)
