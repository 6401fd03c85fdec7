-- ===== src/WebHandler/RoundTrip.antt =====
-- Forms that are encoded and read back by `parsePost`.
use oclock.Common.{
  ℕ, ◌<◌, List, [], ◌∷◌, ◌++◌, append_assoc, ◌||◌, ◌≡◌, ap, ◌∙◌, none, some, leb, ◌==◌,
  if◌then◌else◌, Bool-cases, inl, inr, length, All, arith,
}
use oclock.Common.Str.{Str}
use oclock.Common.SortedMap.{find, Sorted}
use oclock.Common.Assign.{
  assign_all, last_value, Sorted-assign_all, find-assign_all, assign_all-append,
}
use oclock.LedStrip.Params.{StringMap}
use oclock.WebHandler.Walk.{parse_data-text}
use oclock.WebHandler.Form.{hex_byte, hex_value, parse_data, parse_post, Parsed}
use oclock.WebHandler.Buffer.{text_scan, empty_text, text_result}
use oclock.WebHandler.Encoding.{
  is_unreserved, encode_char, encode, encode_pair, encode_pairs, IsPair, text_scan-encode_pairs,
}

encode_char-nonempty : (c : ℕ) (r : Str) → 0 < length (encode_char c ++ r)
unfolding encode_char
encode_char-nonempty c r = elim (Bool-cases (is_unreserved c)) [
  | inl e ↦ rw e (omega arith)
  | inr e ↦
      rw e
        (elim (Bool-cases (c == b' ')) [ inl f ↦ rw f (omega arith) | inr f ↦ rw f (omega arith) ])
]

encode_pairs-nonempty :
    (p : Str × Str) (rest : List (Str × Str)) → IsPair p → 0 < length (encode_pairs p rest)
unfolding encode_pairs encode_pair encode
encode_pairs-nonempty ([], v) rest h = absurd h.0
encode_pairs-nonempty (c ∷ k, v) [] h =
    rw (append_assoc (encode_char c) (encode k) (b'=' ∷ encode v)) (encode_char-nonempty c _)
encode_pairs-nonempty (c ∷ k, v) (q ∷ rest) h =
    rw
      (
        append_assoc (encode_char c) (encode k) (b'=' ∷ encode v),
        append_assoc (encode_char c) (encode k ++ (b'=' ∷ encode v)) (b'&' ∷ encode_pairs q rest),
      )
      (encode_char-nonempty c _)

parse_post-data :
    (body : Str)
    → 0 < length body
    → length body < 4096
    → parse_post (some body) ≡ text_result (text_scan body empty_text)
unfolding parse_post
parse_post-data body l u = in_range (length body) l u ∙ (parse_data-text body).0
  where
    in_range :
        (n : ℕ)
        → 0 < n
        → n < 4096
        → (if leb 4096 n || n == 0 then Parsed.bad_length n else parse_data body) ≡ parse_data body
    in_range n l u = ground arith

-- The form of any pairs, whose keys are not empty and which have no NUL, is read as a map in the order of its keys
-- that gives each key the value of the last pair with it, and no other key a value; the encoded form has
-- to be shorter than 4096 bytes.
pub parse_post-encode_pairs :
    (p : Str × Str) (rest : List (Str × Str))
    → IsPair p
    → All IsPair rest
    → length (encode_pairs p rest) < 4096
    → (m : StringMap) × (parse_post (some (encode_pairs p rest)) ≡ Parsed.parsed m)
      × Sorted m
      × ((k : Str) → find k m ≡ last_value k (p ∷ rest) none)
unfolding empty_text find
parse_post-encode_pairs p rest h g l = (
  assign_all (p ∷ rest) [],
  parse_post-data (encode_pairs p rest) (encode_pairs-nonempty p rest h) l
      ∙ text_scan-encode_pairs p rest [] h g,
  Sorted-assign_all (p ∷ rest) [] tt,
  λ k. find-assign_all k (p ∷ rest) [] tt,
)

-- A map in the order of its keys, with at least one entry, that is encoded as a form is read back as it was, where
-- no key is empty, no text has a NUL and the encoded form is shorter than 4096 bytes.
pub parse_post-encode_map :
    (p : Str × Str) (rest : List (Str × Str))
    → IsPair p
    → All IsPair rest
    → Sorted (p ∷ rest)
    → length (encode_pairs p rest) < 4096
    → parse_post (some (encode_pairs p rest)) ≡ Parsed.parsed (p ∷ rest)
unfolding empty_text
parse_post-encode_map p rest h g s l =
    parse_post-data (encode_pairs p rest) (encode_pairs-nonempty p rest h) l
    ∙ text_scan-encode_pairs p rest [] h g
    ∙ ap Parsed.parsed (assign_all-append (p ∷ rest) [] s)

-- What follows a `%` that is no escape: fewer than two bytes, or two that are no hexadecimal number.
abbrev pub IsNoEscape : Str → Type 0
IsNoEscape [] = Unit
IsNoEscape (a ∷ []) = Unit
IsNoEscape (a ∷ (b ∷ rest)) = hex_byte (hex_value a) (hex_value b) ≡ none

abbrev pub refused_or : Str → StringMap → Parsed
refused_or [] m = Parsed.parsed m
refused_or (a ∷ []) m = Parsed.parsed m
refused_or (a ∷ (b ∷ rest)) m = Parsed.bad_percent

-- Pairs, each with a `&` behind it.
unfoldable pub encode_before : List (Str × Str) → Str
encode_before [] = []
encode_before (p ∷ ps) = encode_pair p ++ (b'&' ∷ encode_before ps)
