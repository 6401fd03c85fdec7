-- ===== src/StatusReport/Escaping.antt =====
-- A reader of JSON strings, and what it reads of the strings that the report writes.
use oclock.Common.{
  ℕ, zero, suc, ◌+◌, ◌-◌, ◌*◌, ◌/◌, ◌%◌, ◌<◌, ◌≡◌, refl, sym, subst, ap, ◌∙◌, [], ◌∷◌, ◌++◌,
  append_assoc, true, ◌&&◌, Bool-cases, inl, inr, ltb, leb, ◌==◌, ==→eq, ltb→lt, if◌then◌else◌,
  Option, none, some, arith,
}
use oclock.Common.Str.{Str}
use oclock.StatusReport.{hex_digit, escape_byte, json_escape, append_json_string}

-- Where a reader of a JSON string is: between characters, after a backslash, or with digits of a
-- `\u` to come behind those that gave a value.
pub data Reading : Type 0 where
  plain escaped : Reading
  unicode : ℕ → ℕ → Reading

unfoldable pub unescape : ℕ → Option ℕ
unescape c =
    if c == 34
    then some 34
    else if c == 92
    then some 92
    else if c == 47
    then some 47
    else if c == b'b'
    then some 8
    else if c == b'f'
    then some 12
    else if c == b'n'
    then some 10
    else if c == b'r'
    then some 13
    else if c == b't'
    then some 9
    else none

unfoldable pub hex_value : ℕ → Option ℕ
hex_value c =
    if leb 48 c && leb c 57
    then some (c - 48)
    else if leb 97 c && leb c 102
    then some (c - 87)
    else if leb 65 c && leb c 70
    then some (c - 55)
    else none

abbrev pub put : ℕ → Option (Str × Str) → Option (Str × Str)
put c none = none
put c (some (s, rest)) = some (c ∷ s, rest)

abbrev pub put_if : Option ℕ → Option (Str × Str) → Option (Str × Str)
put_if none r = none
put_if (some c) r = put c r

-- The string up to its closing quote, and what follows it. Raw control characters are refused.
unfoldable pub read_string : Reading → Str → Option (Str × Str)
unfolding unescape hex_value
read_string at [] = none
read_string plain (c ∷ cs) =
    let next = read_string plain cs in
    let special = read_string escaped cs in
    if c == 34
    then some ([], cs)
    else if c == 92
    then special
    else if ltb c 32
    then none
    else put c next
read_string escaped (c ∷ cs) =
    let next = read_string plain cs in
    let digits = read_string (unicode 3 0) cs in
    if c == b'u' then digits else put_if (unescape c) next
read_string (unicode zero v) (c ∷ cs) =
    let next = read_string plain cs in
    elim (hex_value c) [ none ↦ none | some d ↦ put (v * 16 + d) next ]
read_string (unicode (suc left) v) (c ∷ cs) = elim (hex_value c) [
  | none ↦ none
  | some d ↦ read_string (unicode left (v * 16 + d)) cs
]

hex_value-hex_digit : (d : ℕ) → d < 16 → hex_value (hex_digit d) ≡ some d
unfolding hex_value hex_digit
hex_value-hex_digit d h = ground arith

read_digit :
    (left v d : ℕ) (cs : Str)
    → d < 16
    → read_string (unicode (suc left) v) (hex_digit d ∷ cs)
      ≡ read_string (unicode left (v * 16 + d)) cs
unfolding read_string
read_digit left v d cs h = rw (read_string, hex_value-hex_digit d h) refl

read_last_digit :
    (v d : ℕ) (cs : Str)
    → d < 16
    → read_string (unicode zero v) (hex_digit d ∷ cs) ≡ put (v * 16 + d) (read_string plain cs)
unfolding read_string
read_last_digit v d cs h = rw (read_string, hex_value-hex_digit d h) refl

-- Four digits are read as the number that they write.
read_unicode :
    (c : ℕ) (cs : Str)
    → c < 65536
    → read_string (unicode 3 0) (
        hex_digit (c / 4096 % 16)
        ∷ hex_digit (c / 256 % 16)
        ∷ hex_digit (c / 16 % 16)
        ∷ hex_digit (c % 16)
        ∷ cs)
      ≡ put c (read_string plain cs)
read_unicode c cs h =
    read_digit 2 0 (c / 4096 % 16) _ (omega arith)
    ∙ read_digit 1 _ (c / 256 % 16) _ (omega arith)
    ∙ read_digit 0 _ (c / 16 % 16) _ (omega arith)
    ∙ read_last_digit _ (c % 16) cs (omega arith)
    ∙ ap (λ (n : ℕ). put n (read_string plain cs)) (omega arith)

abbrev ReadsBack : ℕ → Str → Type 0
ReadsBack c cs = read_string plain (escape_byte c ++ cs) ≡ put c (read_string plain cs)

read_string-escape_byte : (c : ℕ) (cs : Str) → ReadsBack c cs
unfolding read_string escape_byte unescape
read_string-escape_byte c cs = elim (Bool-cases (c == 34)) [
  | inl e ↦ special 34 e refl
  | inr e0 ↦ elim (Bool-cases (c == 92)) [
    | inl e ↦ special 92 e refl
    | inr e1 ↦ elim (Bool-cases (c == 8)) [
      | inl e ↦ special 8 e refl
      | inr e2 ↦ elim (Bool-cases (c == 12)) [
        | inl e ↦ special 12 e refl
        | inr e3 ↦ elim (Bool-cases (c == 10)) [
          | inl e ↦ special 10 e refl
          | inr e4 ↦ elim (Bool-cases (c == 13)) [
            | inl e ↦ special 13 e refl
            | inr e5 ↦ elim (Bool-cases (c == 9)) [
              | inl e ↦ special 9 e refl
              | inr e6 ↦ elim (Bool-cases (ltb c 32)) [
                | inl e ↦
                    rw (escape_byte, e0, e1, e2, e3, e4, e5, e6, e)
                      (read_unicode c cs (omega (arith, ltb→lt c 32 e)))
                | inr e ↦
                    rw (escape_byte, e0, e1, e2, e3, e4, e5, e6, e)
                      (rw (read_string, e0, e1, e) refl)
              ]
            ]
          ]
        ]
      ]
    ]
  ]
]
  where
    special : (k : ℕ) → (c == k) ≡ true → ReadsBack k cs → ReadsBack c cs
    special k e h = subst (λ x. ReadsBack x cs) (sym (==→eq c k e)) h

json_escape-read :
    (v rest : Str) → read_string plain (json_escape v ++ (34 ∷ rest)) ≡ some (v, rest)
unfolding json_escape read_string
json_escape-read [] rest = refl
json_escape-read (c ∷ cs) rest =
    ap (read_string plain) (append_assoc (escape_byte c) (json_escape cs) (34 ∷ rest))
    ∙ read_string-escape_byte c (json_escape cs ++ (34 ∷ rest))
    ∙ ap (put c) (json_escape-read cs rest)

-- The JSON string that starts the input, and what follows it.
unfoldable pub read_quoted : Str → Option (Str × Str)
unfolding read_string
read_quoted [] = none
read_quoted (c ∷ cs) = if c == 34 then read_string plain cs else none

-- What is written of any string of bytes is one JSON string: it is read back as that string, and
-- the reader stops right behind its closing quote, whatever follows.
pub read_quoted-append_json_string :
    (v rest : Str) → read_quoted (append_json_string v ++ rest) ≡ some (v, rest)
unfolding read_quoted append_json_string
read_quoted-append_json_string v rest =
    ap (read_string plain) (append_assoc (json_escape v) (34 ∷ []) rest) ∙ json_escape-read v rest
