-- ===== src/StatusReport/System.antt =====
-- The state of the machine, from the text of /proc/loadavg and /proc/meminfo; none is a file that
-- cannot be read. `getline` and the stream's `>>` are written out for the classic locale.
use oclock.Common.{
  ℕ, ◌+◌, ◌-◌, ◌*◌, ◌%◌, ◌^◌, List, [], ◌∷◌, Bool, true, false, ◌&&◌, ◌||◌, ltb, leb, ◌==◌,
  if◌then◌else◌, Option, none, some,
}
use oclock.Common.Str.{Str, str, str_eq}
use oclock.StatusReport.{is_digit, parse_hundredths}

pub record SystemStatus : Type 0 where
  pub load_valid : Bool
  pub load_avg1_hundredths : ℕ
  pub load_avg5_hundredths : ℕ
  pub load_avg15_hundredths : ℕ
  pub mem_valid : Bool
  pub mem_free_kb : ℕ
  pub mem_available_kb : ℕ
  pub mem_total_kb : ℕ

unfoldable pub cleared : SystemStatus
cleared = record {
  load_valid = false;
  load_avg1_hundredths = 0;
  load_avg5_hundredths = 0;
  load_avg15_hundredths = 0;
  mem_valid = false;
  mem_free_kb = 0;
  mem_available_kb = 0;
  mem_total_kb = 0;
}

unfoldable pub is_space : ℕ → Bool
is_space c = c == 32 || (leb 9 c && leb c 13)

-- The lines that `getline` gives.
with_char : ℕ → List Str → List Str
with_char c [] = (c ∷ []) ∷ []
with_char c (l ∷ ls) = (c ∷ l) ∷ ls

unfoldable pub lines_of : Str → List Str
unfolding with_char
lines_of [] = []
lines_of (c ∷ cs) = if c == 10 then [] ∷ lines_of cs else with_char c (lines_of cs)

-- The next word of a stream, and what follows it.
unfoldable pub skip_spaces : Str → Str
unfolding is_space
skip_spaces [] = []
skip_spaces (c ∷ cs) = if is_space c then skip_spaces cs else c ∷ cs

unfoldable pub take_word : Str → Str × Str
unfolding is_space
take_word [] = ([], [])
take_word (c ∷ cs) =
    let (w, rest) = take_word cs in if is_space c then ([], c ∷ cs) else (c ∷ w, rest)

unfoldable pub next_word : Str → Str × Str
unfolding skip_spaces take_word
next_word s = take_word (skip_spaces s)

abbrev pub is_empty : Str → Bool
is_empty [] = true
is_empty (c ∷ cs) = false

-- Each value is stored as it is read; the first that is refused ends the reading.
set_load15 : Option ℕ → SystemStatus → SystemStatus × Bool
set_load15 none s = (s, false)
set_load15 (some v) s = (record s { load_avg15_hundredths = v }, true)

set_load5 : Option ℕ → Str → SystemStatus → SystemStatus × Bool
unfolding set_load15
set_load5 none third s = (s, false)
set_load5 (some v) third s =
    set_load15 (parse_hundredths third) (record s { load_avg5_hundredths = v })

set_load1 : Option ℕ → Str → Str → SystemStatus → SystemStatus × Bool
unfolding set_load5
set_load1 none second third s = (s, false)
set_load1 (some v) second third s =
    set_load5 (parse_hundredths second) third (record s { load_avg1_hundredths = v })

unfoldable pub read_load_line : Str → SystemStatus → SystemStatus × Bool
unfolding set_load1
read_load_line line s =
    let first = next_word line in
    let second = next_word first.1 in
    let third = next_word second.1 in
    if is_empty third.0 then (s, false) else set_load1 (parse_hundredths first.0) second.0 third.0 s

unfoldable pub read_load_averages : Option Str → SystemStatus → SystemStatus × Bool
unfolding lines_of read_load_line
read_load_averages none s = (s, false)
read_load_averages (some text) s = elim (lines_of text) [
  | [] ↦ (s, false)
  | line ∷ _ ↦ read_load_line line s
]

-- The value of digits, none when it does not fit 64 bits.
unfoldable pub read_digits : ℕ → Str → Option ℕ
unfolding is_digit
read_digits v [] = some v
read_digits v (c ∷ cs) =
    let rest = read_digits (v * 10 + (c - 48)) cs in
    if is_digit c then (if ltb (v * 10 + (c - 48)) (2 ^ 64) then rest else none) else some v

first_digits : Str → Option ℕ
unfolding is_digit read_digits
first_digits [] = none
first_digits (c ∷ cs) = if is_digit c then read_digits 0 (c ∷ cs) else none

negated : Option ℕ → Option ℕ
negated none = none
negated (some v) = some ((2 ^ 64 - v) % 2 ^ 64)

-- `>>` into a number of 64 bits, which takes a sign.
unfoldable pub read_uint64 : Str → Option ℕ
unfolding skip_spaces first_digits negated
read_uint64 s = elim (skip_spaces s) [
  | [] ↦ none
  | c ∷ cs ↦
      if c == 45
      then negated (first_digits cs)
      else if c == 43
      then first_digits cs
      else first_digits (c ∷ cs)
]

-- The text before the first colon and that behind it.
unfoldable pub split_colon : Str → Option (Str × Str)
split_colon [] = none
split_colon (c ∷ cs) =
    let rest = split_colon cs in
    if c == 58 then some ([], cs) else elim rest [ none ↦ none | some p ↦ some (c ∷ p.0, p.1) ]

unfoldable pub parse_meminfo_line : Str → Str → Option ℕ
unfolding split_colon read_uint64 str_eq
parse_meminfo_line line name = elim (split_colon line) [
  | none ↦ none
  | some p ↦ if str_eq p.0 name then read_uint64 p.1 else none
]

-- What the loop has found so far: total, free and available.
pub record Found : Type 0 where
  pub status : SystemStatus
  pub have_free : Bool
  pub have_available : Bool
  pub have_total : Bool

abbrev wanted : Bool → Option ℕ → Option ℕ
wanted have found = if have then none else found

try_available : Option ℕ → Found → Found
try_available none f = f
try_available (some v) f = record f {
  status = record (f.status) { mem_available_kb = v };
  have_available = true;
}

try_free : Option ℕ → Str → Found → Found
unfolding try_available
try_free (some v) line f = record f {
  status = record (f.status) { mem_free_kb = v };
  have_free = true;
}
try_free none line f =
    try_available (wanted f.have_available (parse_meminfo_line line (str "MemAvailable"))) f

try_total : Option ℕ → Str → Found → Found
unfolding try_free
try_total (some v) line f = record f {
  status = record (f.status) { mem_total_kb = v };
  have_total = true;
}
try_total none line f =
    try_free (wanted f.have_free (parse_meminfo_line line (str "MemFree"))) line f

unfoldable pub read_mem_lines : List Str → Found → Found
unfolding try_total
read_mem_lines [] f = f
read_mem_lines (line ∷ lines) f =
    read_mem_lines lines
      (try_total (wanted f.have_total (parse_meminfo_line line (str "MemTotal"))) line f)

unfoldable pub read_mem_info : Option Str → SystemStatus → SystemStatus × Bool
unfolding read_mem_lines lines_of
read_mem_info none s = (s, false)
read_mem_info (some text) s =
    let f =
      read_mem_lines (lines_of text)
        (record { status = s; have_free = false; have_available = false; have_total = false }) in
    (f.status, f.have_free && f.have_total)

unfoldable pub clear_load : SystemStatus → SystemStatus
clear_load s =
    if s.load_valid
    then s
    else record s { load_avg1_hundredths = 0; load_avg5_hundredths = 0; load_avg15_hundredths = 0 }

unfoldable pub clear_mem : SystemStatus → SystemStatus
clear_mem s =
    if s.mem_valid then s else record s { mem_free_kb = 0; mem_available_kb = 0; mem_total_kb = 0 }

-- Both groups with their flags, where a group that is not valid may be read in part.
unfoldable pub read_groups : Option Str → Option Str → SystemStatus
unfolding cleared read_load_averages read_mem_info
read_groups loadavg meminfo =
    let (loaded, load_valid) = read_load_averages loadavg cleared in
    let (mem, mem_valid) = read_mem_info meminfo (record loaded { load_valid = load_valid }) in
    record mem { mem_valid = mem_valid }

-- The status, and whether all of it is valid.
unfoldable pub read_system_status : Option Str → Option Str → SystemStatus × Bool
unfolding clear_load clear_mem read_groups
read_system_status loadavg meminfo =
    let s = clear_mem (clear_load (read_groups loadavg meminfo)) in (s, s.load_valid && s.mem_valid)
