-- ===== src/StatusReport/Loadavg.antt =====
-- What the report reads of /proc/loadavg.
use oclock.Common.{
  ℕ, suc, ◌+◌, ◌*◌, ◌/◌, ◌%◌, ◌<◌, ◌≡◌, refl, subst, ap, ◌∙◌, [], ◌∷◌, ◌++◌, Bool, true, false, ltb,
  ◌==◌, if◌then◌else◌, some, All, arith,
}
use oclock.Common.Str.{Str}
use oclock.Common.Decimal.{decimal, decimal_02, IsDigit, digits_of-IsDigit, decimal-head}
use oclock.StatusReport.{append_load, max_whole}
use oclock.StatusReport.Load.{parse_hundredths-append_load}
use oclock.StatusReport.System.{
  SystemStatus, is_empty, is_space, lines_of, skip_spaces, take_word, next_word, read_load_line,
  read_load_averages,
}

abbrev IsWordByte : ℕ → Type 0
IsWordByte c = is_space c ≡ false

abbrev pub InLine : ℕ → Type 0
InLine c = (c == 10) ≡ false

All-append {ℓ} : (P : ℕ → Type ℓ) (xs ys : Str) → All P xs → All P ys → All P (xs ++ ys)
All-append P [] ys a b = b
All-append P (x ∷ xs) ys a b = (a.0, All-append P xs ys a.1 b)

digits-words : (s : Str) → All IsDigit s → All IsWordByte s
unfolding is_space
digits-words [] a = tt
digits-words (c ∷ cs) a = let h = a.0 in (ground arith, digits-words cs a.1)

decimal-words : (n : ℕ) → All IsWordByte (decimal n)
unfolding decimal
decimal-words n = digits-words (decimal n) (digits_of-IsDigit (suc n) n)

if-words :
    (b : Bool) (s t : Str)
    → All IsWordByte s
    → All IsWordByte t
    → All IsWordByte (if b then s else t)
if-words true s t p q = p
if-words false s t p q = q

zero-word : IsWordByte 48
unfolding is_space
zero-word = refl

dot-word : IsWordByte 46
unfolding is_space
dot-word = refl

decimal_02-words : (n : ℕ) → All IsWordByte (decimal_02 n)
unfolding decimal_02
decimal_02-words n =
    if-words (ltb n 10) (48 ∷ decimal n) (decimal n) (zero-word, decimal-words n) (decimal-words n)

append_load-words : (h : ℕ) → All IsWordByte (append_load h)
unfolding append_load
append_load-words h =
    All-append IsWordByte (decimal (h / 100)) (46 ∷ decimal_02 (h % 100)) (decimal-words (h / 100))
      (dot-word, decimal_02-words (h % 100))

words-InLine : (s : Str) → All IsWordByte s → All InLine s
unfolding is_space
words-InLine [] a = tt
words-InLine (c ∷ cs) a = let h = a.0 in (ground arith, words-InLine cs a.1)

-- The first line, without its end.
lines_of-first :
    (line more : Str) → All InLine line → lines_of (line ++ (10 ∷ more)) ≡ line ∷ lines_of more
unfolding lines_of
lines_of-first [] more a = refl
lines_of-first (c ∷ cs) more a = rw (a.0, lines_of-first cs more a.1) refl

take_word-word : (w rest : Str) → All IsWordByte w → take_word (w ++ (32 ∷ rest)) ≡ (w, 32 ∷ rest)
unfolding take_word is_space
take_word-word [] rest a = refl
take_word-word (c ∷ cs) rest a = rw (a.0, take_word-word cs rest a.1) refl

skip_spaces-word :
    (w rest : Str) (c : ℕ) (cs : Str)
    → w ≡ c ∷ cs
    → IsWordByte c
    → skip_spaces (w ++ rest) ≡ w ++ rest
unfolding skip_spaces
skip_spaces-word w rest c cs e h = rw e (rw h refl)

-- A load ends at the blank behind it.
next_word-load :
    (h : ℕ) (rest : Str) → next_word (append_load h ++ (32 ∷ rest)) ≡ (append_load h, 32 ∷ rest)
unfolding next_word append_load
next_word-load h rest =
    let (c, cs, e) = decimal-head (h / 100) in
    let first = subst (All IsWordByte) e (decimal-words (h / 100)) in
    ap take_word (
      skip_spaces-word (append_load h) (32 ∷ rest) c (cs ++ (46 ∷ decimal_02 (h % 100)))
        (ap (λ (s : Str). s ++ (46 ∷ decimal_02 (h % 100))) e) first.0)
    ∙ take_word-word (append_load h) rest (append_load-words h)

next_word-blank : (s : Str) → next_word (32 ∷ s) ≡ next_word s
unfolding next_word skip_spaces is_space
next_word-blank s = refl

next_load :
    (h : ℕ) (rest : Str)
    → next_word (32 ∷ (append_load h ++ (32 ∷ rest))) ≡ (append_load h, 32 ∷ rest)
next_load h rest = next_word-blank (append_load h ++ (32 ∷ rest)) ∙ next_word-load h rest

abbrev pub IsLoad : ℕ → Type 0
IsLoad h = h < (max_whole + 1) * 100

abbrev pub load_line : ℕ → ℕ → ℕ → Str → Str
load_line a b c tail =
    append_load a ++ (32 ∷ (append_load b ++ (32 ∷ (append_load c ++ (32 ∷ tail)))))

append_load-is_empty : (h : ℕ) → is_empty (append_load h) ≡ false
unfolding append_load
append_load-is_empty h = let (c, cs, e) = decimal-head (h / 100) in rw e refl

read_load_line-loads :
    (a b c : ℕ) (tail : Str) (s : SystemStatus)
    → IsLoad a
    → IsLoad b
    → IsLoad c
    → read_load_line (load_line a b c tail) s ≡ (
      record s { load_avg1_hundredths = a; load_avg5_hundredths = b; load_avg15_hundredths = c },
      true,
    )
unfolding read_load_line
read_load_line-loads a b c tail s p q r =
    rw
      (
        read_load_line,
        next_word-load a (append_load b ++ (32 ∷ (append_load c ++ (32 ∷ tail)))),
        next_load b (append_load c ++ (32 ∷ tail)),
        next_load c tail,
        append_load-is_empty c,
        parse_hundredths-append_load a p,
        parse_hundredths-append_load b q,
        parse_hundredths-append_load c r,
      )
      refl

load_line-InLine : (a b c : ℕ) (tail : Str) → All InLine tail → All InLine (load_line a b c tail)
load_line-InLine a b c tail h =
    let part = λ (n : ℕ). words-InLine (append_load n) (append_load-words n) in
    let join = All-append InLine in
    join (append_load a) _ (part a)
      (refl, join (append_load b) _ (part b) (refl, join (append_load c) _ (part c) (refl, h)))

-- A text whose first line starts with three written loads, each followed by a blank, is read as these loads:
-- the rest of the line and the lines behind it do not matter. A load is at most 42949671.99.
pub read_load_averages-loads :
    (a b c : ℕ) (tail more : Str) (s : SystemStatus)
    → IsLoad a
    → IsLoad b
    → IsLoad c
    → All InLine tail
    → read_load_averages (some (load_line a b c tail ++ (10 ∷ more))) s ≡ (
      record s { load_avg1_hundredths = a; load_avg5_hundredths = b; load_avg15_hundredths = c },
      true,
    )
unfolding read_load_averages
read_load_averages-loads a b c tail more s p q r h =
    rw
      (
        read_load_averages,
        lines_of-first (load_line a b c tail) more (load_line-InLine a b c tail h),
      )
      (read_load_line-loads a b c tail s p q r)
