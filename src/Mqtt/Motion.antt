-- ===== src/Mqtt/Motion.antt =====
-- What is published of the motion, in any run of the client.
use oclock.Common.{
  ◌≡◌, refl, sym, ap, ◌∙◌, subst, List, [], ◌∷◌, Bool, true, false, not, ◌&&◌, ◌||◌, if◌then◌else◌,
}
use oclock.Common.Int.{eq_ℤ, ℤ}
use oclock.Common.Str.{until_nul, Str, str, str_eq}
use oclock.Common.Decimal.{decimal_ℤ, cast_int}
use oclock.Inbox.{InboxMsgType}
use oclock.Mqtt.{
  Client, Library, Report, Publication, new_client, do_publish, do_periodic_report, after_loop,
  connect, keep_rc, on_timer_tick, on_motion_off, on_motion_on, count_motion, handle, turn,
  topic_motion, is_zero, topic_light_sensor, topic_status, topic_display_intensity,
  topic_display_mode, first_five,
}

-- What happens to the client: a turn of its loop, with any answers of the library, or one of its
-- timers; the damper of the motion is a one-shot timer, so that it fires only while it runs.
pub data Step : Client → Client → Type 0 where
  turns : (l : Library) (r : Report) (m : InboxMsgType) (s : Client) → Step s (turn l r m s)
  report_timer : (s : Client) → Step s (record s { periodic_report_expired = true })
  reconnect_timer : (s : Client) → Step s (record s { reconnect_damper_expired = true })
  motion_timer :
      (s : Client)
      → s.motion_damper_running ≡ true
      → Step s (record s { motion_damper_expired = true; motion_damper_running = false })

pub data Run (s : Client) : Client → Type 0 where
  here : Run s s
  next : {t u : Client} → Run s t → Step t u → Run s u

abbrev pub is_motion : Publication → Bool
is_motion p = str_eq p.topic topic_motion

abbrev pub is_on : Publication → Bool
is_on p = str_eq p.payload (str "on")

-- Whether the last word on the motion was "on".
unfoldable pub last_motion_on : List Publication → Bool
last_motion_on [] = false
last_motion_on (p ∷ ps) = if is_motion p then is_on p else last_motion_on ps

-- Each word on the motion that is not "on" comes right after an "on".
unfoldable pub OffAfterOn : List Publication → Type 0
OffAfterOn [] = Unit
OffAfterOn (p ∷ ps) =
    (is_motion p ≡ true → is_on p ≡ false → last_motion_on ps ≡ true) × OffAfterOn ps

pub record Paired (s : Client) : Type 0 where
  pub last : last_motion_on s.publications ≡ s.published_motion_on
  pub offs : OffAfterOn s.publications
  pub damper : s.motion_damper_expired ≡ not s.motion_damper_running

other_topic :
    (l : Library) (topic payload : Str) (retain : Bool) (s : Client)
    → str_eq topic topic_motion ≡ false
    → Paired s
    → Paired (do_publish l topic payload retain s)
unfolding do_publish last_motion_on OffAfterOn
other_topic l topic payload retain s e p = record {
  last = rw e p.last;
  offs = (λ h. absurd (true_ne (sym h ∙ e)), p.offs);
  damper = p.damper;
}
  where
    true_ne : true ≡ false → ⊥
    true_ne e = cc

Paired-if :
    (b : Bool) {s t : Client} → (b ≡ true → Paired s) → Paired t → Paired (if b then s else t)
Paired-if true p q = p refl
Paired-if false p q = q

on_motion_off-Paired : (l : Library) (s : Client) → Paired s → Paired (on_motion_off l s)
unfolding on_motion_off do_publish until_nul last_motion_on OffAfterOn str_eq
on_motion_off-Paired l s p =
    Paired-if s.published_motion_on
      (λ e. record { last = refl; offs = (λ h k. p.last ∙ e, p.offs); damper = p.damper }) p

on_motion_on-Paired :
    (l : Library) (r : Report) (s : Client) → Paired s → Paired (on_motion_on l r s)
unfolding on_motion_on do_publish until_nul last_motion_on OffAfterOn str_eq count_motion
on_motion_on-Paired l r s p =
    Paired-if s.motion_damper_expired
      (λ e. record { last = refl; offs = (λ h k. refl, (λ h k. cc, p.offs)); damper = refl }) p

-- A change of the counters and of the two other timers says nothing of the motion.
same_motion :
    (s : Client) (t : Client)
    → t.publications ≡ s.publications
    → t.published_motion_on ≡ s.published_motion_on
    → t.motion_damper_expired ≡ s.motion_damper_expired
    → t.motion_damper_running ≡ s.motion_damper_running
    → Paired s
    → Paired t
same_motion s t a b c d p = record {
  last = ap last_motion_on a ∙ p.last ∙ sym b;
  offs = subst OffAfterOn (sym a) p.offs;
  damper = c ∙ p.damper ∙ ap not (sym d);
}

on_timer_tick-Paired :
    (l : Library) (r : Report) (s : Client) → Paired s → Paired (on_timer_tick l r s)
unfolding on_timer_tick after_loop connect keep_rc do_periodic_report str_eq
on_timer_tick-Paired l r s p =
    Paired-if (is_zero l.mosquitto_loop.0 && (after_loop l s).periodic_report_expired)
      (λ e.
        reported (record (after_loop l s) { periodic_report_expired = false })
          (same_motion s _ refl refl refl refl p))
      (Paired-if
        ((eq_ℤ l.mosquitto_loop.0 l.mosq_err_no_conn
            || not (after_loop l s).info.mqtt_broker_connected)
          && (after_loop l s).reconnect_damper_expired)
        (λ e. same_motion s _ refl refl refl refl p) (same_motion s _ refl refl refl refl p))
  where
    light : Report → Str
    light r = first_five (decimal_ℤ (cast_int r.light_value))

    reported :
        (t : Client) → Paired t → Paired (keep_rc l.mosquitto_loop.0 (do_periodic_report l r t))
    reported t q = same_motion (do_periodic_report l r t) _ refl refl refl refl (
        other_topic l topic_status r.status_json false
          (do_publish l topic_light_sensor (light r) false t) refl
          (other_topic l topic_light_sensor (light r) false t refl q))

turn-Paired :
    (l : Library) (r : Report) (m : InboxMsgType) (s : Client) → Paired s → Paired (turn l r m s)
unfolding turn handle str_eq
turn-Paired l r m s p =
    handled m (record s { ready = true })
      (same_motion s (record s { ready = true }) refl refl refl refl p)
  where
    handled : (m : InboxMsgType) (t : Client) → Paired t → Paired (handle l r m t)
    handled InboxMsgType.timer_tick_message t q = on_timer_tick-Paired l r t q
    handled InboxMsgType.motion_off t q = on_motion_off-Paired l t q
    handled InboxMsgType.motion_on t q = on_motion_on-Paired l r t q
    handled InboxMsgType.display_bright_high t q =
        other_topic l topic_display_intensity (str "high") true t refl q
    handled InboxMsgType.display_bright_low t q =
        other_topic l topic_display_intensity (str "low") true t refl q
    handled InboxMsgType.display_mode_nothing t q =
        other_topic l topic_display_mode (str "screen_saver") true t refl q
    handled InboxMsgType.display_mode_basic_clock t q =
        other_topic l topic_display_mode (str "clock") true t refl q
    handled InboxMsgType.display_mode_message t q =
        other_topic l topic_display_mode (str "message") true t refl q
    handled InboxMsgType.noop t q = q
    handled InboxMsgType.terminate t q = q

Step-Paired : {s t : Client} → Step s t → Paired s → Paired t
Step-Paired (turns l r m s) p = turn-Paired l r m s p
Step-Paired (report_timer s) p = same_motion s _ refl refl refl refl p
Step-Paired (reconnect_timer s) p = same_motion s _ refl refl refl refl p
Step-Paired (motion_timer s h) p = record { last = p.last; offs = p.offs; damper = refl }

Run-Paired_from : {s t : Client} → Run s t → Paired s → Paired t
Run-Paired_from here p = p
Run-Paired_from (next r x) p = Step-Paired x (Run-Paired_from r p)

-- In every run of the client, whatever messages come, timers fire and the library answers: each "off"
-- that is published of the motion follows an "on" with no "off" between; the client knows whether
-- the last word was "on"; and the damper of the motion has either expired or is running, so that
-- it never blocks for good.
pub Run-Paired :
    (ip : Str) (port keep_alive : ℤ) {s : Client} → Run (new_client ip port keep_alive) s → Paired s
Run-Paired ip port keep_alive r = Run-Paired_from r (
    unfold new_client last_motion_on OffAfterOn in record { last = refl; offs = tt; damper = refl })
