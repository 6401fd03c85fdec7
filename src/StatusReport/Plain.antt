-- ===== src/StatusReport/Plain.antt =====
-- The status document as a C string: what `strlen` sees of it.
use oclock.Common.{
  ℕ, suc, ◌/◌, ◌%◌, ◌≡◌, refl, ap, ◌∙◌, List, [], ◌∷◌, ◌++◌, Bool, true, false, not, ◌&&◌, ◌||◌,
  Bool-cases, inl, inr, ltb, ◌==◌, if◌then◌else◌, All, arith,
}
use oclock.Common.Int.{ℤ, pos, negsuc}
use oclock.Common.Str.{until_nul, Str, str}
use oclock.Common.Decimal.{decimal, decimal_ℤ, decimal_02, IsDigit, digits_of-IsDigit, cast_int}
use oclock.Mqtt.{
  do_periodic_report, do_publish, Library, Report, Client, Publication, topic_status,
  MqttClientInfo,
}
use oclock.StatusReport.{
  append_int, append_uint64, append_load, append_json_bool, append_json_string, json_escape,
  escape_byte, hex_digit,
}
use oclock.StatusReport.Render.{
  StatusSnapshot, concat, is_empty, separator, mem_values, render_json_mem, render_json_load,
  render_json_system, counter_values, render_json_counters, render_json_mqtt, render_json_pairs,
  render_json_motion, render_json_dictionary, render_json_hits, render_json_handlers,
  render_status_json,
}
use oclock.StatusReport.System.{SystemStatus}
use oclock.MotionSensor.{MotionInfo}

abbrev no_nul : Str → Bool
no_nul [] = true
no_nul (c ∷ cs) = not (c == 0) && no_nul cs

-- No byte is a NUL.
record IsPlain (s : Str) : Type 0 where
  plain : no_nul s ≡ true

literal : {s : Str} → no_nul s ≡ true → IsPlain s
literal e = record { plain = e }

no_nul-append : (xs ys : Str) → no_nul xs ≡ true → no_nul ys ≡ true → no_nul (xs ++ ys) ≡ true
no_nul-append [] ys p q = q
no_nul-append (c ∷ cs) ys p q = elim (Bool-cases (c == 0)) [
  | inl e ↦ absurd (false_ne_true (rw e at p))
  | inr e ↦ rw e (no_nul-append cs ys (rw e at p) q)
]
  where
    false_ne_true : false ≡ true → ⊥
    false_ne_true e = cc

IsPlain-append : {xs ys : Str} → IsPlain xs → IsPlain ys → IsPlain (xs ++ ys)
IsPlain-append {xs = xs} {ys = ys} p q = literal (no_nul-append xs ys p.plain q.plain)

until_nul-plain : (s : Str) → no_nul s ≡ true → until_nul s ≡ s
unfolding until_nul
until_nul-plain [] h = refl
until_nul-plain (c ∷ cs) h = elim (Bool-cases (c == 0)) [
  | inl e ↦ absurd (false_ne_true (rw e at h))
  | inr e ↦ rw e (ap (λ (t : Str). c ∷ t) (until_nul-plain cs (rw e at h)))
]
  where
    false_ne_true : false ≡ true → ⊥
    false_ne_true e = cc

IsPlain-if : {s t : Str} (b : Bool) → IsPlain s → IsPlain t → IsPlain (if b then s else t)
IsPlain-if true p q = p
IsPlain-if false p q = q

-- The pieces, one by one.
record ArePlain (pieces : List Str) : Type 0 where
  all : All IsPlain pieces

infixr 5 ◌▹◌
◌▹◌ :
    {piece : Str} {pieces : List Str} → IsPlain piece → ArePlain pieces → ArePlain (piece ∷ pieces)
p ▹ q = record { all = (p, q.all) }

done : ArePlain []
done = record { all = tt }

All-IsPlain : (pieces : List Str) → All IsPlain pieces → IsPlain (concat pieces)
unfolding concat
All-IsPlain [] a = literal refl
All-IsPlain (p ∷ ps) a = IsPlain-append a.0 (All-IsPlain ps a.1)

IsPlain-concat : (pieces : List Str) → ArePlain pieces → IsPlain (concat pieces)
IsPlain-concat pieces a = All-IsPlain pieces a.all

digits-IsPlain : (s : Str) → All IsDigit s → no_nul s ≡ true
digits-IsPlain [] a = refl
digits-IsPlain (c ∷ cs) a =
    let rest = digits-IsPlain cs a.1 in
    let ne : (c == 0) ≡ false = ground (arith, a.0) in rw (ne, rest) refl

decimal-IsPlain : (n : ℕ) → IsPlain (decimal n)
unfolding decimal
decimal-IsPlain n = literal (digits-IsPlain (decimal n) (digits_of-IsDigit (suc n) n))

append_int-IsPlain : (n : ℤ) → IsPlain (append_int n)
unfolding append_int decimal_ℤ
append_int-IsPlain (pos n) = decimal-IsPlain n
append_int-IsPlain (negsuc n) =
    IsPlain-append {xs = 45 ∷ []} (literal refl) (decimal-IsPlain (suc n))

append_uint64-IsPlain : (n : ℕ) → IsPlain (append_uint64 n)
unfolding append_uint64
append_uint64-IsPlain n = decimal-IsPlain n

append_load-IsPlain : (h : ℕ) → IsPlain (append_load h)
unfolding append_load decimal_02
append_load-IsPlain h = IsPlain-append (decimal-IsPlain (h / 100)) (
    IsPlain-append {xs = 46 ∷ []} (literal refl) (
      IsPlain-if (ltb (h % 100) 10)
        (IsPlain-append {xs = 48 ∷ []} (literal refl) (decimal-IsPlain (h % 100)))
        (decimal-IsPlain (h % 100))))

append_json_bool-IsPlain : (b : Bool) → IsPlain (append_json_bool b)
unfolding append_json_bool
append_json_bool-IsPlain true = literal refl
append_json_bool-IsPlain false = literal refl

hex_digit-nonzero : (d : ℕ) → (hex_digit d == 0) ≡ false
unfolding hex_digit
hex_digit-nonzero d = ground arith

IsPlain-else :
    {s t : Str} (b : Bool) → IsPlain s → (b ≡ false → IsPlain t) → IsPlain (if b then s else t)
IsPlain-else true p q = p
IsPlain-else false p q = q refl

escape_byte-IsPlain : (c : ℕ) → IsPlain (escape_byte c)
unfolding escape_byte
escape_byte-IsPlain c = IsPlain-if (c == 34) (literal refl) (
    IsPlain-if (c == 92) (literal refl) (
      IsPlain-if (c == 8) (literal refl) (
        IsPlain-if (c == 12) (literal refl) (
          IsPlain-if (c == 10) (literal refl) (
            IsPlain-if (c == 13) (literal refl) (
              IsPlain-if (c == 9) (literal refl) (
                IsPlain-else (ltb c 32)
                  (literal (
                    rw
                      (
                        hex_digit-nonzero (c / 4096 % 16),
                        hex_digit-nonzero (c / 256 % 16),
                        hex_digit-nonzero (c / 16 % 16),
                        hex_digit-nonzero (c % 16),
                      )
                      refl))
                  (λ e. literal (rw (large e) refl)))))))))
  where
    large : ltb c 32 ≡ false → (c == 0) ≡ false
    large e = ground arith

json_escape-IsPlain : (v : Str) → no_nul (json_escape v) ≡ true
unfolding json_escape
json_escape-IsPlain [] = refl
json_escape-IsPlain (c ∷ cs) =
    no_nul-append (escape_byte c) (json_escape cs) ((escape_byte-IsPlain c).plain)
      (json_escape-IsPlain cs)

append_json_string-IsPlain : (v : Str) → IsPlain (append_json_string v)
unfolding append_json_string
append_json_string-IsPlain v =
    IsPlain-append {xs = 34 ∷ []} (literal refl)
      (IsPlain-append {xs = json_escape v} (literal (json_escape-IsPlain v)) (literal refl))

separator-IsPlain {ℓ} : {A : Type ℓ} (rest : List A) → IsPlain (separator rest)
unfolding separator
separator-IsPlain [] = literal refl
separator-IsPlain (x ∷ xs) = literal refl

abbrev HasPlainName : Str × ℕ → Type 0
HasPlainName entry = IsPlain entry.0

render_json_mem-IsPlain :
    (valid : Bool) (entries : List (Str × ℕ))
    → All HasPlainName entries
    → IsPlain (render_json_mem valid entries)
unfolding render_json_mem
render_json_mem-IsPlain valid [] a = literal refl
render_json_mem-IsPlain valid ((name, value) ∷ rest) a = IsPlain-concat _ (
    literal refl
    ▹ a.0
    ▹ literal refl
    ▹ IsPlain-if valid (append_uint64-IsPlain value) (literal refl)
    ▹ separator-IsPlain rest
    ▹ render_json_mem-IsPlain valid rest a.1
    ▹ done)

render_json_load-IsPlain : (s : SystemStatus) → IsPlain (render_json_load s)
unfolding render_json_load
render_json_load-IsPlain s =
    IsPlain-if s.load_valid
      (IsPlain-concat _ (
        literal refl
        ▹ append_load-IsPlain s.load_avg1_hundredths
        ▹ literal refl
        ▹ append_load-IsPlain s.load_avg5_hundredths
        ▹ literal refl
        ▹ append_load-IsPlain s.load_avg15_hundredths
        ▹ literal refl
        ▹ done))
      (literal refl)

render_json_system-IsPlain : (s : SystemStatus) → IsPlain (render_json_system s)
unfolding render_json_system
render_json_system-IsPlain s = IsPlain-concat _ (
    literal refl
    ▹ literal refl
    ▹ render_json_load-IsPlain s
    ▹ literal refl
    ▹ render_json_mem-IsPlain s.mem_valid (mem_values s)
        (literal refl, (literal refl, (literal refl, tt)))
    ▹ literal refl
    ▹ done)

render_json_counters-IsPlain :
    (entries : List (Str × ℕ)) → All HasPlainName entries → IsPlain (render_json_counters entries)
unfolding render_json_counters
render_json_counters-IsPlain [] a = literal refl
render_json_counters-IsPlain ((name, value) ∷ rest) a = IsPlain-concat _ (
    literal refl
    ▹ a.0
    ▹ literal refl
    ▹ append_int-IsPlain (cast_int value)
    ▹ render_json_counters-IsPlain rest a.1
    ▹ done)

nine_names : (i : MqttClientInfo) → All HasPlainName (counter_values i)
nine_names i =
    let l0 = literal {s = str "connect_attempts"} refl in
    let l1 = literal {s = str "connects"} refl in
    let l2 = literal {s = str "disconnects"} refl in
    let l3 = literal {s = str "publishes"} refl in
    let l4 = literal {s = str "published_motions"} refl in
    let l5 = literal {s = str "publishes_dropped"} refl in
    let l6 = literal {s = str "publish_callbacks"} refl in
    let l7 = literal {s = str "messages"} refl in
    let l8 = literal {s = str "ticks"} refl in
    (l0, (l1, (l2, (l3, (l4, (l5, (l6, (l7, (l8, tt)))))))))

render_json_mqtt-IsPlain : (s : StatusSnapshot) → IsPlain (render_json_mqtt s)
unfolding render_json_mqtt
render_json_mqtt-IsPlain s = IsPlain-concat _ (
    literal refl
    ▹ literal refl
    ▹ append_json_bool-IsPlain s.mqtt.mqtt_broker_connected
    ▹ literal refl
    ▹ append_json_string-IsPlain s.mqtt_broker_ip
    ▹ literal refl
    ▹ append_int-IsPlain s.mqtt.mqtt_broker_port
    ▹ literal refl
    ▹ append_int-IsPlain s.mqtt.mqtt_keep_alive
    ▹ literal refl
    ▹ append_int-IsPlain s.mqtt.last_loop_rc
    ▹ literal refl
    ▹ append_json_string-IsPlain s.mqtt_last_loop_rc_str
    ▹ render_json_counters-IsPlain (counter_values s.mqtt) (nine_names s.mqtt)
    ▹ literal refl
    ▹ done)

render_json_pairs-IsPlain :
    (entries : List (Str × Str)) (indent : Str)
    → IsPlain indent
    → IsPlain (render_json_pairs entries indent)
unfolding render_json_pairs
render_json_pairs-IsPlain [] indent p = literal refl
render_json_pairs-IsPlain ((key, value) ∷ rest) indent p = IsPlain-concat _ (
    p
    ▹ append_json_string-IsPlain key
    ▹ literal refl
    ▹ append_json_string-IsPlain value
    ▹ separator-IsPlain rest
    ▹ render_json_pairs-IsPlain rest indent p
    ▹ done)

render_json_motion-IsPlain : (m : MotionInfo) → IsPlain (render_json_motion m)
unfolding render_json_motion
render_json_motion-IsPlain m = IsPlain-concat _ (
    literal refl
    ▹ literal refl
    ▹ append_json_bool-IsPlain m.curr_motion_detected
    ▹ literal refl
    ▹ append_int-IsPlain (pos m.last_changed_hour)
    ▹ literal refl
    ▹ append_int-IsPlain (pos m.last_changed_min)
    ▹ literal refl
    ▹ append_int-IsPlain (pos m.last_changed_sec)
    ▹ literal refl
    ▹ done)

render_json_dictionary-IsPlain : (s : StatusSnapshot) → IsPlain (render_json_dictionary s)
unfolding render_json_dictionary
render_json_dictionary-IsPlain s = IsPlain-concat _ (
    literal refl
    ▹ literal refl
    ▹ append_int-IsPlain (cast_int s.dictionary_size)
    ▹ literal refl
    ▹ append_int-IsPlain (cast_int s.dictionary_status.ticks)
    ▹ literal refl
    ▹ append_int-IsPlain (cast_int s.dictionary_status.entries_added)
    ▹ literal refl
    ▹ append_int-IsPlain (cast_int s.dictionary_status.entries_removed)
    ▹ literal refl
    ▹ append_int-IsPlain (cast_int s.dictionary_status.entries_expired)
    ▹ literal refl
    ▹ IsPlain-if (is_empty s.dictionary_entries) (literal refl) (
        IsPlain-append {xs = str "\n"} (literal refl) (
          IsPlain-append
            (render_json_pairs-IsPlain s.dictionary_entries (str "      ") (literal refl))
            (literal refl)))
    ▹ literal refl
    ▹ done)

render_json_hits-IsPlain : (entries : List (Str × ℕ)) → IsPlain (render_json_hits entries)
unfolding render_json_hits
render_json_hits-IsPlain [] = literal refl
render_json_hits-IsPlain ((name, hits) ∷ rest) = IsPlain-concat _ (
    literal refl
    ▹ append_json_string-IsPlain name
    ▹ literal refl
    ▹ append_int-IsPlain (cast_int hits)
    ▹ separator-IsPlain rest
    ▹ render_json_hits-IsPlain rest
    ▹ done)

render_json_handlers-IsPlain : (s : StatusSnapshot) → IsPlain (render_json_handlers s)
unfolding render_json_handlers
render_json_handlers-IsPlain s =
    IsPlain-append {xs = str "  \"handlers\": {\"hits\": {"} (literal refl) (
      IsPlain-if (not s.web_handler_available || is_empty s.handler_hits) (literal refl) (
        IsPlain-append {xs = str "\n"} (literal refl)
          (IsPlain-append (render_json_hits-IsPlain s.handler_hits) (literal refl))))

render_status_json-IsPlain : (s : StatusSnapshot) → IsPlain (render_status_json s)
unfolding render_status_json
render_status_json-IsPlain s = IsPlain-concat _ (
    literal refl
    ▹ literal refl
    ▹ literal refl
    ▹ literal refl
    ▹ render_json_system-IsPlain s.system
    ▹ render_json_motion-IsPlain s.motion
    ▹ literal refl
    ▹ append_int-IsPlain (cast_int s.light_value)
    ▹ literal refl
    ▹ literal refl
    ▹ append_json_string-IsPlain s.display_mode
    ▹ literal refl
    ▹ append_json_bool-IsPlain s.display_dimmed
    ▹ literal refl
    ▹ literal refl
    ▹ append_json_string-IsPlain s.led_strip_mode
    ▹ literal refl
    ▹ render_json_mqtt-IsPlain s
    ▹ render_json_dictionary-IsPlain s
    ▹ render_json_handlers-IsPlain s
    ▹ literal refl
    ▹ done)

-- Whatever the keys, values and names in a snapshot hold, NULs included, a C string that starts with
-- the rendered JSON document is the whole document: `strlen` stops nowhere inside it.
pub until_nul-render_status_json :
    (s : StatusSnapshot) → until_nul (render_status_json s) ≡ render_status_json s
until_nul-render_status_json s =
    until_nul-plain (render_status_json s) ((render_status_json-IsPlain s).plain)

status_published :
    {sent doc : Str} (rest : List Publication)
    → sent ≡ doc
    → ◌≡◌ {A = List Publication}
        (record { topic = topic_status; payload = sent; retain = false } ∷ rest)
        (record { topic = topic_status; payload = doc; retain = false } ∷ rest)
status_published rest e =
    ap (λ (p : Str). record { topic = topic_status; payload = p; retain = false } ∷ rest) e

-- The periodic report publishes last the whole JSON document of a snapshot, on the status topic and without
-- the retain flag.
pub do_periodic_report-whole :
    (l : Library) (r : Report) (s : StatusSnapshot) (c : Client)
    → r.status_json ≡ render_status_json s
    → (rest : List Publication) × ((do_periodic_report l r c).publications
        ≡ record { topic = topic_status; payload = render_status_json s; retain = false } ∷ rest)
unfolding do_periodic_report do_publish
do_periodic_report-whole l r s c e =
    (_, status_published _ (ap until_nul e ∙ until_nul-render_status_json s))
