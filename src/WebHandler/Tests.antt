-- ===== src/WebHandler/Tests.antt =====
-- The web server at concrete requests.
use oclock.Common.{ℕ, ◌≡◌, ◌≢◌, refl, List, [], ◌∷◌, ◌++◌, ◌%◌, ◌^◌, true, false, none, some, arith}
use oclock.Common.Int.{pos}
use oclock.Common.Str.{Str, str, str_eq, str_lt, str_compare}
use oclock.Common.SortedMap.{Sorted, assign, insert, erase}
use oclock.Dictionary.{Dictionary, StringMap}
use oclock.Dictionary.Sound.{IsSound}
use oclock.Display.Thread.{DisplayInternal, msg_mode_post, img_background_post, msg_background_post}
use oclock.LightSensor.{new_sensor}
use oclock.MotionSensor.{new_motion_info}
use oclock.Mqtt.{Client, new_client}
use oclock.TimerTick.{Machine}
use oclock.TimerTick.Wf.{cookie_at}
use oclock.WebHandler.Form.{
  parse_data, parse_post, Parsed, scan, on_char, on_percent, on_byte, hex_value, put, write,
  advance, buffer_append, value_portion, buffer_equals, add_to, add_value, c_string, restart,
  buffer_ampersand, start_state, values_result, final_value,
}
use oclock.WebHandler.Buffer.{text_result, text_scan, empty_text}
use oclock.WebHandler.Walk.{parse_data-text}
use oclock.WebHandler.Encoding.{
  encode_pairs, encode_pair, encode, encode_char, is_unreserved, hex_digit,
}
use oclock.WebHandler.RoundTrip.{parse_post-encode_map, encode_before}
use oclock.WebHandler.Routing.{started, select_web_handler, hits_at}
use oclock.WebHandler.Selected.{IsSelected, select_web_handler-IsSelected}
use oclock.WebHandler.Hits.{serve, count_routes, hits_at-started}
use oclock.WebHandler.Serving.{started-IsServing}
use oclock.WebHandler.Process.{Server, Outside, Sensors, handle_request}
use oclock.WebHandler.Answers.{IsAnswered, handle_request-IsAnswered}
use oclock.WebHandler.Reading.{IsReading, handle_request-IsReading}
use oclock.WebHandler.Posting.{
  handle_request-posts, handle_request-refused, IsRefusal, hit_of, done_with, display_with,
  led_strip_with,
}

-- A form with an escape, a plus and a key twice.
parsed_form :
    parse_post (some (str "msg=a+%26b&&x=1&msg=2"))
    ≡ Parsed.parsed ((str "msg", str "2") ∷ (str "x", str "1") ∷ [])
unfolding parse_post parse_data scan on_char on_percent on_byte hex_value put write advance
    buffer_append value_portion buffer_equals add_to add_value c_string restart buffer_ampersand
    start_state values_result final_value str_eq str_lt str_compare assign insert erase
parsed_form = refl

abbrev hello : StringMap
hello = (str "msg", str "hi & bye") ∷ (str "x", str "3") ∷ []

encoded_hello :
    encode_pairs (str "msg", str "hi & bye") ((str "x", str "3") ∷ []) ≡ str "msg=hi+%26+bye&x=3"
unfolding encode_pairs encode_pair encode encode_char is_unreserved hex_digit
encoded_hello = refl

hello-Sorted : Sorted hello
unfolding str_lt str_compare
hello-Sorted = ((refl, tt), (tt, tt))

parse_data-text_example :
    (parse_data (str "a=b%20c") ≡ text_result (text_scan (str "a=b%20c") empty_text))
    × (parse_data (str "a=b%20c") ≢ Parsed.unreadable)
parse_data-text_example = parse_data-text (str "a=b%20c")

parse_post-encode_map_example :
    parse_post (some (encode_pairs (str "msg", str "hi & bye") ((str "x", str "3") ∷ [])))
    ≡ Parsed.parsed ((str "msg", str "hi & bye") ∷ (str "x", str "3") ∷ [])
parse_post-encode_map_example =
    parse_post-encode_map (str "msg", str "hi & bye") ((str "x", str "3") ∷ []) (omega arith)
      (omega arith) hello-Sorted (rw encoded_hello (omega arith))

abbrev before : List (Str × Str)
before = (str "msg", str "hi") ∷ []

abbrev broken_form : Str
broken_form = encode_before before ++ (encode_pair (str "x", str "1") ++ (b'%' ∷ str "4g"))

select_web_handler-IsSelected_example :
    IsSelected 1 (str "/index.html") started (select_web_handler 1 (str "/index.html") started)
select_web_handler-IsSelected_example =
    select_web_handler-IsSelected 1 (str "/index.html") started started-IsServing

abbrev three_requests : List (ℕ × Str)
three_requests = (1, str "/") ∷ (1, str "/index.html") ∷ (4, str "/nowhere") ∷ []

hits_at-started_example :
    hits_at 2 (serve three_requests started).objects ≡ count_routes 2 three_requests % 2 ^ 32
hits_at-started_example = hits_at-started 2 three_requests (omega arith)

two_hits : count_routes 2 three_requests ≡ 2
unfolding count_routes str_eq str_compare
two_hits = refl

abbrev methods : DisplayInternal ℕ
methods = record {
  do_handle_msg_mode_post = λ p i. i;
  do_handle_img_background_post = λ p i. i;
  do_handle_msg_background_post = λ p i. i;
  get_display_mode_str = λ i. str "clock";
  get_display_dimmed = λ i. false;
  display_tick_fast = λ i. i;
  display_tick_100ms = λ i. i;
  display_tick_250ms = λ i. i;
  display_tick_500ms = λ i. i;
  display_tick_1sec = λ i. i;
  display_tick_5sec = λ i. i;
  display_tick_10sec = λ i. i;
  display_tick_25sec = λ i. i;
  display_tick_1min = λ i. i;
}

abbrev outside : Outside
outside = record { str_error = λ rc. str "No error."; server_stop = pos 0; what = λ e. str "error" }

abbrev client : Client
client = new_client (str "10.0.0.1") (pos 1883) (pos 60)

abbrev sensors : Sensors
sensors = record {
  motion_sensor = record { motion_info = new_motion_info; registry = [] };
  light_sensor = new_sensor;
  mqtt_client_info = client.info;
  loadavg = none;
  meminfo = none;
}

abbrev fresh_machine : Machine
fresh_machine = record {
  heap = λ a. none;
  next_id = 1;
  services = [];
  registry = [];
  cond_function = λ n. true;
}

abbrev no_entries : Dictionary
no_entries = record {
  dictionary_entries = [];
  dictionary_status = record {
    ticks = 0;
    entries_added = 0;
    entries_removed = 0;
    entries_expired = 0;
  };
  machine = fresh_machine;
  next_address = 1;
}

no_entries-IsSound : IsSound no_entries
unfolding cookie_at
no_entries-IsSound = record {
  machine = record {
    linked = tt;
    distinct = tt;
    backed = λ a h. absurd (h refl);
    issued = tt;
    started = omega arith;
  };
  sorted = tt;
  live = tt;
  own_services = tt;
  unused = λ a h. refl;
  counted = refl;
}

abbrev server : Server ℕ
server = record {
  web_handler_internal = started;
  display = record { display_todos = []; internal = some 0 };
  led_strip = record { todos = []; internal = none };
  dictionary = no_entries;
}

handle_request-IsAnswered_example :
    IsAnswered (handle_request methods outside sensors true 2 (some (str "/msgMode")) none server)
handle_request-IsAnswered_example =
    handle_request-IsAnswered methods outside sensors 2 (some (str "/msgMode")) none server
      no_entries-IsSound started-IsServing

handle_request-IsReading_example :
    IsReading server
      (handle_request methods outside sensors true 1 (some (str "/status")) none server)
handle_request-IsReading_example =
    handle_request-IsReading methods outside sensors 1 (some (str "/status")) none server refl
      no_entries-IsSound started-IsServing

handle_request-posts_example :
    let post = λ (path : Str).
      handle_request methods outside sensors true 2
        (some path)
        (some (encode_pairs (str "msg", str "hi & bye") ((str "x", str "3") ∷ [])))
        server in
    (post (str "/msgMode") ≡ done_with (display_with (msg_mode_post hello) (hit_of 6 server)))
    × (post (str "/imgBackground")
        ≡ done_with (display_with (img_background_post hello) (hit_of 8 server)))
    × (post (str "/msgBackground")
        ≡ done_with (display_with (msg_background_post hello) (hit_of 10 server)))
    × (post (str "/ledStrip") ≡ done_with (led_strip_with hello (hit_of 12 server)))
handle_request-posts_example =
    handle_request-posts methods outside sensors (str "msg", str "hi & bye")
      ((str "x", str "3") ∷ []) server (omega arith) (omega arith) hello-Sorted
      (rw encoded_hello (omega arith)) started-IsServing

no_body : (m : StringMap) → parse_post none ≢ Parsed.parsed m
unfolding parse_post
no_body m = cc

handle_request-refused_example :
    let post =
      λ (path : Str). handle_request methods outside sensors true 2 (some path) none server in
    IsRefusal (post (str "/msgMode")) (hit_of 6 server)
    × IsRefusal (post (str "/imgBackground")) (hit_of 8 server)
    × IsRefusal (post (str "/msgBackground")) (hit_of 10 server)
    × IsRefusal (post (str "/ledStrip")) (hit_of 12 server)
    × IsRefusal (post (str "/dictionary")) (hit_of 14 server)
handle_request-refused_example =
    handle_request-refused methods outside sensors none server no_body started-IsServing
