-- ===== src/StatusReport/Tests.antt =====
-- The status report at concrete values.
use oclock.Common.{◌≡◌, refl, List, [], ◌∷◌, ◌++◌, Bool, true, false, none, some, arith}
use oclock.Common.Int.{pos}
use oclock.Common.Str.{Str, str}
use oclock.Mqtt.{Client, Library, Report, Publication, new_client, do_periodic_report, topic_status}
use oclock.StatusReport.{append_json_string, parse_hundredths}
use oclock.StatusReport.Escaping.{read_quoted, read_quoted-append_json_string}
use oclock.StatusReport.System.{
  SystemStatus, read_load_averages, read_system_status, parse_meminfo_line, next_word,
}
use oclock.StatusReport.Loadavg.{load_line, read_load_averages-loads}
use oclock.StatusReport.Render.{StatusSnapshot, render_status_json}
use oclock.StatusReport.Plain.{do_periodic_report-whole}

-- A quote, a NUL, a backslash and a letter.
abbrev awkward : Str
awkward = 34 ∷ 0 ∷ 92 ∷ 65 ∷ []

read_quoted-append_json_string_example :
    read_quoted (append_json_string awkward ++ str ": 1") ≡ some (awkward, str ": 1")
read_quoted-append_json_string_example = read_quoted-append_json_string awkward (str ": 1")

read_max : parse_hundredths (str "42949671.9") ≡ some 4294967190
unfolding parse_hundredths
read_max = refl

too_large : parse_hundredths (str "42949672") ≡ none
unfolding parse_hundredths
too_large = refl

abbrev meminfo : Str
meminfo = str "MemTotal:  1000 kB\nMemFree:  400 kB\n"

abbrev half_read : SystemStatus × Bool
half_read = read_system_status (some (str "0.14 oops 0.10\n")) (some meminfo)

read_load_averages-loads_example :
    read_load_averages (some (load_line 14 2 1005 (str "1/99 7") ++ (10 ∷ []))) half_read.0 ≡ (
      record (half_read.0) {
        load_avg1_hundredths = 14;
        load_avg5_hundredths = 2;
        load_avg15_hundredths = 1005;
      },
      true,
    )
read_load_averages-loads_example =
    read_load_averages-loads 14 2 1005 (str "1/99 7") [] half_read.0 (omega arith) (omega arith)
      (omega arith) (refl, (refl, (refl, (refl, (refl, (refl, tt))))))

half_read_values : (half_read.0.load_avg1_hundredths ≡ 0) × (half_read.0.mem_free_kb ≡ 400)
unfolding read_system_status parse_meminfo_line next_word parse_hundredths
half_read_values = (refl, refl)

abbrev client : Client
client = new_client (str "10.0.0.1") (pos 1883) (pos 60)

abbrev snapshot : StatusSnapshot
snapshot = record {
  web_handler_available = true;
  handler_hits = (str "/status", 3) ∷ [];
  motion = record {
    curr_motion_detected = true;
    last_changed_sec = 5;
    last_changed_min = 0;
    last_changed_hour = 1;
  };
  light_value = 700;
  display_mode = str "clock";
  display_dimmed = false;
  led_strip_mode = str "manual";
  mqtt = record {
    mqtt_broker_ip = some (str "10.0.0.1");
    mqtt_broker_port = pos 1883;
    mqtt_keep_alive = pos 60;
    mqtt_broker_connected = true;
    last_loop_rc = pos 0;
    connect_attempts = 1;
    connects = 1;
    disconnects = 0;
    publishes = 2;
    published_motions = 1;
    publishes_dropped = 0;
    publish_callbacks = 2;
    messages = 0;
    ticks = 9;
  };
  mqtt_broker_ip = str "10.0.0.1";
  mqtt_last_loop_rc_str = str "No error.";
  dictionary_status = record {
    ticks = 1;
    entries_added = 1;
    entries_removed = 0;
    entries_expired = 0;
  };
  dictionary_size = 1;
  dictionary_entries = (awkward, str "x") ∷ [];
  system = half_read.0;
}

abbrev broker : Library
broker = record {
  mosq_err_no_conn = pos 4;
  mosquitto_loop = (pos 0, []);
  mosquitto_connect = (pos 0, []);
  mosquitto_publish = λ topic payload. (pos 0, []);
}

abbrev report : Report
report = record {
  light_value = 700;
  status_json = render_status_json snapshot;
  curr_timestamp = str "Mon";
}

do_periodic_report-whole_example :
    (rest : List Publication) × ((do_periodic_report broker report client).publications
      ≡ record { topic = topic_status; payload = render_status_json snapshot; retain = false }
        ∷ rest)
do_periodic_report-whole_example = do_periodic_report-whole broker report snapshot client refl
