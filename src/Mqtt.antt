-- ===== src/Mqtt.antt =====
-- The MQTT client: mqttClient.h and mqttClient.cpp. The calls of the mosquitto library are parameters: what a
-- call answers, and the callbacks that it makes. What is published is a list, the newest first.
mod Tests
pub mod Motion
pub mod Counters
use oclock.Common.{
  ℕ, zero, suc, ◌+◌, ◌%◌, ◌^◌, List, [], ◌∷◌, ◌++◌, Bool, true, false, not, ◌&&◌, ◌||◌, ◌==◌,
  if◌then◌else◌, Option, none, some,
}
use oclock.Common.Int.{ℤ, pos, negsuc, eq_ℤ}
use oclock.Common.Str.{Str, str, until_nul}
use oclock.Common.Decimal.{decimal_ℤ, cast_int}
use oclock.Inbox.{InboxMsgType}

pub record MqttClientInfo : Type 0 where
  pub mqtt_broker_ip : Option Str
  pub mqtt_broker_port : ℤ
  pub mqtt_keep_alive : ℤ
  pub mqtt_broker_connected : Bool
  pub last_loop_rc : ℤ
  pub connect_attempts : ℕ
  pub connects : ℕ
  pub disconnects : ℕ
  pub publishes : ℕ
  pub published_motions : ℕ
  pub publishes_dropped : ℕ
  pub publish_callbacks : ℕ
  pub messages : ℕ
  pub ticks : ℕ

-- The callbacks that the library makes on the client; `connected` has the broker's answer.
pub data Callback : Type 0 where
  connected : ℤ → Callback
  disconnected published received : Callback

-- What the library answers to one step's calls, with the callbacks made meanwhile.
pub record Library : Type 0 where
  pub mosq_err_no_conn : ℤ
  pub mosquitto_loop : ℤ × List Callback
  pub mosquitto_connect : ℤ × List Callback
  pub mosquitto_publish : Str → Str → ℤ × List Callback

pub record Publication : Type 0 where
  pub topic : Str
  pub payload : Str
  pub retain : Bool

-- What the report reads of the other components.
pub record Report : Type 0 where
  pub light_value : ℕ
  pub status_json : Str
  pub curr_timestamp : Str

-- The thread's state: its flags that timers set, and whether the motion damper is running.
pub record Client : Type 0 where
  pub info : MqttClientInfo
  pub ready : Bool
  pub periodic_report_expired : Bool
  pub reconnect_damper_expired : Bool
  pub motion_damper_expired : Bool
  pub motion_damper_running : Bool
  pub published_motion_on : Bool
  pub publications : List Publication

abbrev pub topic_prefix : Str
topic_prefix = str "/officeClock/"

abbrev pub topic_light_sensor : Str
topic_light_sensor = topic_prefix ++ str "light"

abbrev pub topic_display_intensity : Str
topic_display_intensity = topic_prefix ++ str "display_intensity"

abbrev pub topic_display_mode : Str
topic_display_mode = topic_prefix ++ str "display_mode"

abbrev pub topic_motion : Str
topic_motion = topic_prefix ++ str "motion"

abbrev pub topic_motion_detected : Str
topic_motion_detected = topic_prefix ++ str "last_motion"

abbrev pub topic_status : Str
topic_status = topic_prefix ++ str "status"

-- The client of `runThreadLoop` before its loop, with the broker's address from the options.
unfoldable pub new_client : Str → ℤ → ℤ → Client
new_client ip port keep_alive = record {
  info = record {
    mqtt_broker_ip = some ip;
    mqtt_broker_port = port;
    mqtt_keep_alive = keep_alive;
    mqtt_broker_connected = false;
    last_loop_rc = pos 0;
    connect_attempts = 0;
    connects = 0;
    disconnects = 0;
    publishes = 0;
    published_motions = 0;
    publishes_dropped = 0;
    publish_callbacks = 0;
    messages = 0;
    ticks = 0;
  };
  ready = false;
  periodic_report_expired = false;
  reconnect_damper_expired = true;
  motion_damper_expired = true;
  motion_damper_running = false;
  published_motion_on = false;
  publications = [];
}

abbrev pub is_zero : ℤ → Bool
is_zero (pos n) = n == 0
is_zero (negsuc n) = false

-- The four callbacks.
unfoldable pub on_callback : Callback → MqttClientInfo → MqttClientInfo
on_callback (connected rc) i = record i {
  connects = (i.connects + 1) % 2 ^ 32;
  mqtt_broker_connected = is_zero rc;
}
on_callback disconnected i = record i {
  disconnects = (i.disconnects + 1) % 2 ^ 32;
  mqtt_broker_connected = false;
}
on_callback published i = record i { publish_callbacks = (i.publish_callbacks + 1) % 2 ^ 32 }
on_callback received i = record i { messages = (i.messages + 1) % 2 ^ 32 }

unfoldable pub on_callbacks : List Callback → MqttClientInfo → MqttClientInfo
unfolding on_callback
on_callbacks [] i = i
on_callbacks (c ∷ cs) i = on_callbacks cs (on_callback c i)

count_publish : ℤ → MqttClientInfo → MqttClientInfo
count_publish rc i = record i {
  publishes_dropped =
      if is_zero rc then i.publishes_dropped else (i.publishes_dropped + 1) % 2 ^ 32;
  publishes = (i.publishes + 1) % 2 ^ 32;
}

unfoldable pub do_publish : Library → Str → Str → Bool → Client → Client
unfolding on_callbacks until_nul count_publish
do_publish l topic payload retain s =
    let sent = until_nul payload in
    let answer = l.mosquitto_publish topic sent in
    record s {
      info = count_publish answer.0 (on_callbacks answer.1 s.info);
      publications = record { topic = topic; payload = sent; retain = retain } ∷ s.publications;
    }

-- What `snprintf` leaves in a buffer of 6 bytes.
unfoldable pub first_five : Str → Str
first_five (a ∷ b ∷ c ∷ d ∷ e ∷ cs) = a ∷ b ∷ c ∷ d ∷ e ∷ []
first_five cs = cs

unfoldable pub do_periodic_report : Library → Report → Client → Client
unfolding do_publish first_five decimal_ℤ cast_int
do_periodic_report l r s =
    do_publish l topic_status r.status_json false
      (do_publish l topic_light_sensor (first_five (decimal_ℤ (cast_int r.light_value))) false s)

-- The counters of a pass of mosquitto_loop, and of an attempt to connect.
after_loop : Library → Client → Client
unfolding on_callbacks
after_loop l s =
    let i = on_callbacks l.mosquitto_loop.1 s.info in
    record s { ready = false; info = record i { ticks = (i.ticks + 1) % 2 ^ 32 } }

connect : Library → Client → Client
unfolding on_callbacks
connect l s =
    let i = on_callbacks l.mosquitto_connect.1 s.info in
    record s {
      reconnect_damper_expired = false;
      info = record i { connect_attempts = (i.connect_attempts + 1) % 2 ^ 32 };
    }

keep_rc : ℤ → Client → Client
keep_rc rc s = record s { info = record (s.info) { last_loop_rc = rc } }

-- The step of the loop's timer. The conditions are short-circuited: a flag is reset only where it is read.
unfoldable pub on_timer_tick : Library → Report → Client → Client
unfolding after_loop connect keep_rc do_periodic_report
on_timer_tick l r s =
    let t = after_loop l s in
    let rc = l.mosquitto_loop.0 in
    if is_zero rc && t.periodic_report_expired
    then keep_rc rc (do_periodic_report l r (record t { periodic_report_expired = false }))
    else if (eq_ℤ rc l.mosq_err_no_conn || not t.info.mqtt_broker_connected)
        && t.reconnect_damper_expired
    then keep_rc l.mosquitto_connect.0 (connect l t)
    else keep_rc rc t

unfoldable pub on_motion_off : Library → Client → Client
unfolding do_publish
on_motion_off l s =
    if s.published_motion_on
    then record (do_publish l topic_motion (str "off") true s) { published_motion_on = false }
    else s

count_motion : Client → Client
count_motion s = record s {
  info = record (s.info) { published_motions = (s.info.published_motions + 1) % 2 ^ 32 };
}

-- The damper's flag is reset, and its timer started again.
unfoldable pub on_motion_on : Library → Report → Client → Client
unfolding do_publish count_motion
on_motion_on l r s =
    if s.motion_damper_expired
    then (let first =
          do_publish l topic_motion (str "on") true (record s { motion_damper_expired = false }) in
        let second =
          do_publish l topic_motion_detected r.curr_timestamp true
            (record first { published_motion_on = true }) in
        count_motion (record second { motion_damper_running = true }))
    else s

-- The switch of the loop; the message that ends the loop is handled before it.
unfoldable pub handle : Library → Report → InboxMsgType → Client → Client
unfolding on_timer_tick on_motion_off on_motion_on do_publish
handle l r InboxMsgType.timer_tick_message s = on_timer_tick l r s
handle l r InboxMsgType.motion_off s = on_motion_off l s
handle l r InboxMsgType.motion_on s = on_motion_on l r s
handle l r InboxMsgType.display_bright_high s =
    do_publish l topic_display_intensity (str "high") true s
handle l r InboxMsgType.display_bright_low s =
    do_publish l topic_display_intensity (str "low") true s
handle l r InboxMsgType.display_mode_nothing s =
    do_publish l topic_display_mode (str "screen_saver") true s
handle l r InboxMsgType.display_mode_basic_clock s =
    do_publish l topic_display_mode (str "clock") true s
handle l r InboxMsgType.display_mode_message s =
    do_publish l topic_display_mode (str "message") true s
handle l r _ s = s

-- One turn of the loop on a message that does not end it.
unfoldable pub turn : Library → Report → InboxMsgType → Client → Client
unfolding handle
turn l r m s = handle l r m (record s { ready = true })
