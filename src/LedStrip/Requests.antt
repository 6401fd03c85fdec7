-- ===== src/LedStrip/Requests.antt =====
-- What requests do to the strip, and the index of its mode.
use oclock.Common.{
  ℕ, zero, suc, ◌≤◌, ◌<◌, ◌≡◌, refl, sym, ap, subst, ◌∙◌, List, [], ◌∷◌, not, ◌||◌, ltb,
  if◌then◌else◌, Option, none, some, get_elem?, arith,
}
use oclock.Common.Int.{ℤ, pos, negsuc}
use oclock.Common.Str.{Str}
use oclock.Lpd8806.{Lpd8806}
use oclock.LedStrip.Params.{StringMap}
use oclock.LedStrip.Modes.{
  LedStripInternalInfo, Handler, Mode, all_modes, mode_manual_entry, mode_pastel_entry,
  mode_fill_entry, mode_rainbow_entry, mode_scan_entry, mode_binary_counter_entry,
}
use oclock.LedStrip.Change.{
  find_mode, is_current, should_clear, timeout_secs, clear_if, enter_mode, change_led_strip_mode,
  check_if_mode_timed_out, fast_tick, tick_1sec, tick_10sec, tick_1min, wanted_mode,
  do_handle_mode_post, get_led_strip_mode_str, mode_str, new_led_strip_internal, new_info,
  initial_params,
}
use oclock.LedStrip.Keeps.{Keeps, AllKeep, all_modes-AllKeep}
use oclock.LedStrip.Timeout.{Tick, fast, sec, ten, min, tick, run_tick-Keeps, times_out}

-- The mode that a request is granted: one of the six numbers.
abbrev pub granted : Option ℤ → Option ℕ
granted none = none
granted (some (negsuc n)) = none
granted (some (pos n)) = if ltb n 6 then some n else none

-- The mode, the timeout and the parameters are those of the request.
pub record IsPosted (i : ℕ) (p : StringMap) (s : LedStripInternalInfo) : Type 0 where
  pub mode : s.curr_mode_index ≡ i
  pub name : get_led_strip_mode_str s ≡ mode_str (pos i)
  pub secs : s.secs_until_going_to_manual_mode ≡ timeout_secs p
  pub kept : s.params ≡ p

abbrev pub Outcome : Option ℕ → StringMap → LedStripInternalInfo → LedStripInternalInfo → Type 0
Outcome none p s t = t ≡ s
Outcome (some i) p s t = IsPosted i p t

abbrev NameIs : ℕ → Str → Type 0
NameIs i name = (elim (get_elem? all_modes i) [ none ↦ [] | some m ↦ m.led_strip_mode_str ]) ≡ name

entered :
    (i : ℕ) (m : Mode) (p : StringMap) (s : LedStripInternalInfo)
    → AllKeep m
    → NameIs i (mode_str (pos i))
    → IsPosted i p (enter_mode i m p s)
unfolding enter_mode get_led_strip_mode_str
entered i m p s a e =
    let k = a.init _ in
    record {
      mode = k.mode;
      name =
          ap (λ (j : ℕ). elim (get_elem? all_modes j) [ none ↦ [] | some m ↦ m.led_strip_mode_str ])
            k.mode
          ∙ e;
      secs = k.secs;
      kept = k.params;
    }

-- The state in which a granted mode is entered.
abbrev ready_for : ℤ → StringMap → Handler
ready_for w p s = clear_if (not (is_current w s) || should_clear p) s

unknown_mode : (n : ℕ) → 6 ≤ n → find_mode (pos n) 0 all_modes ≡ none
unfolding find_mode
unknown_mode n h = ground arith

not_granted : (n : ℕ) → 6 ≤ n → granted (some (pos n)) ≡ none
not_granted n h = ground arith

unknown :
    (w : ℤ) (p : StringMap) (s : LedStripInternalInfo)
    → find_mode w 0 all_modes ≡ none
    → granted (some w) ≡ none
    → Outcome (granted (some w)) p s (change_led_strip_mode w p s)
unfolding change_led_strip_mode
unknown w p s e g =
    subst (λ (o : Option ℕ). Outcome o p s (change_led_strip_mode w p s)) (sym g)
      (ap
        (λ (o : Option (ℕ × Mode)). elim o [
          | none ↦ s
          | some q ↦ enter_mode q.0 q.1 p (clear_if (not (is_current w s) || should_clear p) s)
        ])
        e)

changed :
    (w : ℤ) (p : StringMap) (s : LedStripInternalInfo)
    → Outcome (granted (some w)) p s (change_led_strip_mode w p s)
unfolding change_led_strip_mode find_mode mode_str
changed (negsuc n) p s = refl
changed (pos zero) p s =
    entered 0 mode_manual_entry p (ready_for (pos 0) p s) all_modes-AllKeep.0 refl
changed (pos (suc zero)) p s =
    entered 1 mode_pastel_entry p (ready_for (pos 1) p s) all_modes-AllKeep.1.0 refl
changed (pos (suc (suc zero))) p s =
    entered 2 mode_fill_entry p (ready_for (pos 2) p s) all_modes-AllKeep.1.1.0 refl
changed (pos (suc (suc (suc zero)))) p s =
    entered 3 mode_rainbow_entry p (ready_for (pos 3) p s) all_modes-AllKeep.1.1.1.0 refl
changed (pos (suc (suc (suc (suc zero))))) p s =
    entered 4 mode_scan_entry p (ready_for (pos 4) p s) all_modes-AllKeep.1.1.1.1.0 refl
changed (pos (suc (suc (suc (suc (suc zero)))))) p s =
    entered 5 mode_binary_counter_entry p (ready_for (pos 5) p s) all_modes-AllKeep.1.1.1.1.1.0 refl
changed (pos (suc (suc (suc (suc (suc (suc n))))))) p s =
    unknown (pos (suc (suc (suc (suc (suc (suc n))))))) p s
      (unknown_mode (suc (suc (suc (suc (suc (suc n)))))) (omega arith))
      (not_granted (suc (suc (suc (suc (suc (suc n)))))) (omega arith))

by_wanted :
    (o : Option ℤ) (p : StringMap) (s : LedStripInternalInfo)
    → Outcome (granted o) p s (elim o [ none ↦ s | some w ↦ change_led_strip_mode w p s ])
by_wanted none p s = refl
by_wanted (some w) p s = changed w p s

pub do_handle_mode_post_lem :
    (p : StringMap) (s : LedStripInternalInfo)
    → Outcome (granted (wanted_mode p)) p s (do_handle_mode_post p s)
unfolding do_handle_mode_post
do_handle_mode_post_lem p s = by_wanted (wanted_mode p) p s

-- The table of modes is read inside its range.
pub record IsInTable (s : LedStripInternalInfo) : Type 0 where
  pub index : s.curr_mode_index < 6

-- What happens to the strip.
pub data Event : Type 0 where
  posts : StringMap → Event
  ticked : Tick → Event

unfoldable pub happen : List Event → LedStripInternalInfo → LedStripInternalInfo
unfolding do_handle_mode_post tick
happen [] s = s
happen (posts p ∷ es) s = happen es (do_handle_mode_post p s)
happen (ticked t ∷ es) s = happen es (tick t s)

granted-bound : (o : Option ℤ) (i : ℕ) → granted o ≡ some i → i < 6
granted-bound none i e = cc
granted-bound (some (negsuc n)) i e = cc
granted-bound (some (pos n)) i e = ground arith

post-IsInTable :
    (p : StringMap) (s : LedStripInternalInfo) → IsInTable s → IsInTable (do_handle_mode_post p s)
post-IsInTable p s h = by_outcome (granted (wanted_mode p)) refl (do_handle_mode_post_lem p s)
  where
    by_outcome :
        (o : Option ℕ)
        → granted (wanted_mode p) ≡ o
        → Outcome o p s (do_handle_mode_post p s)
        → IsInTable (do_handle_mode_post p s)
    by_outcome none e k = subst IsInTable (sym k) h
    by_outcome (some i) e k = record {
      index = omega (arith, k.mode, granted-bound (wanted_mode p) i e);
    }

Keeps-IsInTable : {s t : LedStripInternalInfo} → Keeps s t → IsInTable s → IsInTable t
Keeps-IsInTable k h = record { index = omega (arith, k.mode, h.index) }

timed-IsInTable : (s : LedStripInternalInfo) → IsInTable s → IsInTable (check_if_mode_timed_out s)
unfolding check_if_mode_timed_out
timed-IsInTable s h = by_secs s.secs_until_going_to_manual_mode refl
  where
    by_secs :
        (n : ℤ) → s.secs_until_going_to_manual_mode ≡ n → IsInTable (check_if_mode_timed_out s)
    by_secs (negsuc n) e = rw (check_if_mode_timed_out, e) h
    by_secs (pos zero) e = record { index = omega (arith, (times_out s e).mode) }
    by_secs (pos (suc n)) e = rw (check_if_mode_timed_out, e) (record { index = h.index })

tick-IsInTable : (t : Tick) (s : LedStripInternalInfo) → IsInTable s → IsInTable (tick t s)
unfolding tick fast_tick tick_1sec tick_10sec tick_1min
tick-IsInTable fast s h =
    Keeps-IsInTable (run_tick-Keeps (λ m. m.handler_tick_fast) (λ m a. a.fast) s) h
tick-IsInTable sec s h =
    timed-IsInTable _
      (Keeps-IsInTable (run_tick-Keeps (λ m. m.handler_tick_1sec) (λ m a. a.sec) s) h)
tick-IsInTable ten s h =
    Keeps-IsInTable (run_tick-Keeps (λ m. m.handler_tick_10sec) (λ m a. a.ten) s) h
tick-IsInTable min s h =
    Keeps-IsInTable (run_tick-Keeps (λ m. m.handler_tick_1min) (λ m a. a.min) s) h

happen-IsInTable :
    (es : List Event) (s : LedStripInternalInfo) → IsInTable s → IsInTable (happen es s)
unfolding happen
happen-IsInTable [] s h = h
happen-IsInTable (posts p ∷ es) s h = happen-IsInTable es _ (post-IsInTable p s h)
happen-IsInTable (ticked t ∷ es) s h = happen-IsInTable es _ (tick-IsInTable t s h)

new-IsInTable : (strip : Lpd8806) (draws : ℕ → ℕ) → IsInTable (new_led_strip_internal strip draws)
unfolding new_led_strip_internal
new-IsInTable strip draws = record {
  index = omega (arith, (changed (pos 3) initial_params (new_info strip draws)).mode);
}

-- From the strip that the constructor makes on, whatever requests come and however they mix with the ticks, the
-- index of the mode is one of the six of the table: `allModes` is never read outside its range.
pub happen-new-IsInTable :
    (strip : Lpd8806) (draws : ℕ → ℕ) (es : List Event)
    → IsInTable (happen es (new_led_strip_internal strip draws))
happen-new-IsInTable strip draws es = happen-IsInTable es _ (new-IsInTable strip draws)
