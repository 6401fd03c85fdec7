-- ===== src/Mqtt/Counters.antt =====
-- What the counters of the client count, in any run.
use oclock.Common.{
  ℕ, ◌+◌, ◌%◌, ◌^◌, ◌≡◌, refl, sym, ap, ◌∙◌, List, [], ◌∷◌, Bool, true, false, not, ◌&&◌, ◌||◌,
  if◌then◌else◌, arith, length,
}
use oclock.Common.Int.{eq_ℤ, ℤ}
use oclock.Common.Str.{until_nul, Str, str, str_eq}
use oclock.Common.Decimal.{decimal_ℤ, cast_int}
use oclock.Inbox.{InboxMsgType}
use oclock.Mqtt.{
  Client, MqttClientInfo, Callback, connected, disconnected, published, received, Library, Report,
  Publication, new_client, do_publish, on_callback, on_callbacks, count_publish, do_periodic_report,
  after_loop, connect, keep_rc, on_timer_tick, on_motion_off, on_motion_on, count_motion, handle,
  turn, topic_motion, is_zero, topic_light_sensor, topic_status, topic_display_intensity,
  topic_display_mode, topic_motion_detected, first_five,
}
use oclock.Mqtt.Motion.{Step, turns, report_timer, reconnect_timer, motion_timer, Run, here, next}

-- The publications of the time of a motion.
unfoldable pub count_detected : List Publication → ℕ
count_detected [] = 0
count_detected (p ∷ ps) =
    (if str_eq p.topic topic_motion_detected then 1 else 0) + count_detected ps

-- The two counters say how many publications were made, modulo 2 ^ 32.
pub record IsCounted (s : Client) : Type 0 where
  pub all : s.info.publishes ≡ length s.publications % 2 ^ 32
  pub detected : s.info.published_motions ≡ count_detected s.publications % 2 ^ 32

on_callback-counts :
    (c : Callback) (i : MqttClientInfo)
    → ((on_callback c i).publishes ≡ i.publishes)
      × ((on_callback c i).published_motions ≡ i.published_motions)
unfolding on_callback
on_callback-counts (connected rc) i = (refl, refl)
on_callback-counts disconnected i = (refl, refl)
on_callback-counts published i = (refl, refl)
on_callback-counts received i = (refl, refl)

on_callbacks-counts :
    (cs : List Callback) (i : MqttClientInfo)
    → ((on_callbacks cs i).publishes ≡ i.publishes)
      × ((on_callbacks cs i).published_motions ≡ i.published_motions)
unfolding on_callbacks
on_callbacks-counts [] i = (refl, refl)
on_callbacks-counts (c ∷ cs) i =
    let r = on_callbacks-counts cs (on_callback c i) in
    let h = on_callback-counts c i in (r.0 ∙ h.0, r.1 ∙ h.1)

-- The same lists and counters.
same_counts :
    (s t : Client)
    → t.publications ≡ s.publications
    → t.info.publishes ≡ s.info.publishes
    → t.info.published_motions ≡ s.info.published_motions
    → IsCounted s
    → IsCounted t
same_counts s t a b c h = record {
  all = b ∙ h.all ∙ ap (λ (ps : List Publication). length ps % 2 ^ 32) (sym a);
  detected = c ∙ h.detected ∙ ap (λ (ps : List Publication). count_detected ps % 2 ^ 32) (sym a);
}

published_counts :
    (l : Library) (topic payload : Str) (retain : Bool) (s : Client)
    → str_eq topic topic_motion_detected ≡ false
    → IsCounted s
    → IsCounted (do_publish l topic payload retain s)
unfolding do_publish count_publish count_detected
published_counts l topic payload retain s e h =
    let k = on_callbacks-counts (l.mosquitto_publish topic (until_nul payload)).1 s.info in
    record {
      all = omega (arith, k.0, h.all);
      detected = rw e (k.1 ∙ h.detected ∙ ap (λ (n : ℕ). n % 2 ^ 32) (omega arith));
    }

IsCounted-if :
    (b : Bool) {s t : Client} → IsCounted s → IsCounted t → IsCounted (if b then s else t)
IsCounted-if true p q = p
IsCounted-if false p q = q

on_motion_off-IsCounted : (l : Library) (s : Client) → IsCounted s → IsCounted (on_motion_off l s)
unfolding on_motion_off str_eq
on_motion_off-IsCounted l s h =
    IsCounted-if s.published_motion_on
      (same_counts (do_publish l topic_motion (str "off") true s) _ refl refl refl
        (published_counts l topic_motion (str "off") true s refl h))
      h

-- The time of a motion is published, and counted with it.
detected_counts :
    (l : Library) (payload : Str) (retain : Bool) (s : Client)
    → IsCounted s
    → IsCounted (count_motion (do_publish l topic_motion_detected payload retain s))
unfolding do_publish count_publish count_detected count_motion str_eq
detected_counts l payload retain s h =
    let k =
      on_callbacks-counts (l.mosquitto_publish topic_motion_detected (until_nul payload)).1
        s.info in
    record { all = omega (arith, k.0, h.all); detected = omega (arith, k.1, h.detected) }

on_motion_on-IsCounted :
    (l : Library) (r : Report) (s : Client) → IsCounted s → IsCounted (on_motion_on l r s)
unfolding on_motion_on str_eq count_motion
on_motion_on-IsCounted l r s h =
    let cleared = record s { motion_damper_expired = false } in
    let first = do_publish l topic_motion (str "on") true cleared in
    IsCounted-if s.motion_damper_expired
      (same_counts
        (count_motion (
          do_publish l topic_motion_detected r.curr_timestamp true
            (record first { published_motion_on = true })))
        _ refl refl refl
        (detected_counts l r.curr_timestamp true (record first { published_motion_on = true })
          (same_counts first _ refl refl refl (
            published_counts l topic_motion (str "on") true cleared refl
              (same_counts s cleared refl refl refl h)))))
      h

on_timer_tick-IsCounted :
    (l : Library) (r : Report) (s : Client) → IsCounted s → IsCounted (on_timer_tick l r s)
unfolding on_timer_tick after_loop connect keep_rc do_periodic_report str_eq
on_timer_tick-IsCounted l r s h =
    let k = on_callbacks-counts l.mosquitto_loop.1 s.info in
    let c = on_callbacks-counts l.mosquitto_connect.1 (after_loop l s).info in
    let looped = same_counts s (after_loop l s) refl k.0 k.1 h in
    IsCounted-if (is_zero l.mosquitto_loop.0 && (after_loop l s).periodic_report_expired)
      (reported (record (after_loop l s) { periodic_report_expired = false })
        (same_counts (after_loop l s) _ refl refl refl looped))
      (IsCounted-if
        ((eq_ℤ l.mosquitto_loop.0 l.mosq_err_no_conn
            || not (after_loop l s).info.mqtt_broker_connected)
          && (after_loop l s).reconnect_damper_expired)
        (same_counts (after_loop l s) _ refl c.0 c.1 looped)
        (same_counts (after_loop l s) _ refl refl refl looped))
  where
    light : Report → Str
    light r = first_five (decimal_ℤ (cast_int r.light_value))

    reported :
        (t : Client)
        → IsCounted t
        → IsCounted (keep_rc l.mosquitto_loop.0 (do_periodic_report l r t))
    reported t q = same_counts (do_periodic_report l r t) _ refl refl refl (
        published_counts l topic_status r.status_json false
          (do_publish l topic_light_sensor (light r) false t) refl
          (published_counts l topic_light_sensor (light r) false t refl q))

turn-IsCounted :
    (l : Library) (r : Report) (m : InboxMsgType) (s : Client)
    → IsCounted s
    → IsCounted (turn l r m s)
unfolding turn handle str_eq
turn-IsCounted l r m s p = handled m (record s { ready = true }) (same_counts s _ refl refl refl p)
  where
    handled : (m : InboxMsgType) (t : Client) → IsCounted t → IsCounted (handle l r m t)
    handled InboxMsgType.timer_tick_message t q = on_timer_tick-IsCounted l r t q
    handled InboxMsgType.motion_off t q = on_motion_off-IsCounted l t q
    handled InboxMsgType.motion_on t q = on_motion_on-IsCounted l r t q
    handled InboxMsgType.display_bright_high t q =
        published_counts l topic_display_intensity (str "high") true t refl q
    handled InboxMsgType.display_bright_low t q =
        published_counts l topic_display_intensity (str "low") true t refl q
    handled InboxMsgType.display_mode_nothing t q =
        published_counts l topic_display_mode (str "screen_saver") true t refl q
    handled InboxMsgType.display_mode_basic_clock t q =
        published_counts l topic_display_mode (str "clock") true t refl q
    handled InboxMsgType.display_mode_message t q =
        published_counts l topic_display_mode (str "message") true t refl q
    handled InboxMsgType.noop t q = q
    handled InboxMsgType.terminate t q = q

Step-IsCounted : {s t : Client} → Step s t → IsCounted s → IsCounted t
Step-IsCounted (turns l r m s) p = turn-IsCounted l r m s p
Step-IsCounted (report_timer s) p = same_counts s _ refl refl refl p
Step-IsCounted (reconnect_timer s) p = same_counts s _ refl refl refl p
Step-IsCounted (motion_timer s h) p = same_counts s _ refl refl refl p

Run-IsCounted_from : {s t : Client} → Run s t → IsCounted s → IsCounted t
Run-IsCounted_from here p = p
Run-IsCounted_from (next r x) p = Step-IsCounted x (Run-IsCounted_from r p)

-- In every run of the client the counters of publications and of motions count what was
-- published, modulo 2 ^ 32, whether the broker took it or not.
pub Run-IsCounted :
    (ip : Str) (port keep_alive : ℤ) {s : Client}
    → Run (new_client ip port keep_alive) s
    → IsCounted s
Run-IsCounted ip port keep_alive r =
    Run-IsCounted_from r
      (unfold new_client count_detected in record { all = refl; detected = refl })
