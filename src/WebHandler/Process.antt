-- ===== src/WebHandler/Process.antt =====
-- The handling of a request: `handleRequest`, `parseRequest` and the `process` methods of the handlers in
-- webHandlerInternal.cpp. `none` is what the program does not define: an access outside an array.
use oclock.Common.{ℕ, Bool, true, false, Option, none, some, if◌then◌else◌, get_elem?}
use oclock.Common.Int.{ℤ, pos, eq_ℤ}
use oclock.Common.Str.{Str, str}
use oclock.TimerTick.{Error, Result, throws}
use oclock.Dictionary.{Dictionary, StringMap, parse_post_request}
use oclock.Display.Thread.{
  Display, DisplayInternal, enqueue_msg_mode_post, enqueue_img_background_post,
  enqueue_msg_background_post, get_internal_display_mode, get_internal_display_dimmed,
}
use oclock.LedStrip.Thread.{LedStrip}
use oclock.LedStrip.Thread
use oclock.LightSensor.{LightSensor}
use oclock.MotionSensor.{MotionSensor}
use oclock.Mqtt.{MqttClientInfo}
use oclock.StatusReport.Render.{StatusSnapshot, render_status_json}
use oclock.StatusReport.Text.{render_status_text}
use oclock.StatusReport.Gather.{Components, gather_status_snapshot}
use oclock.WebHandler.Form.{Parsed, parse_post}
use oclock.WebHandler.Routing.{
  WebHandlerInternal, WebHandler, Handler, select_web_handler, get_handler_hits,
}
use oclock.WebHandler.Output.{
  Reply, RequestOutput, RequestInfo, parse_request, no_output, body_output, typed_output,
  error_output, bad_length_message, caught_output,
}
use oclock.WebHandler.Pages.{
  not_found_page, img_background_page, msg_background_page, msg_mode_page, led_strip_page,
  dictionary_page, root_page,
}

-- The components that handlers reach. What the status page reads beside them is only read.
pub record Server (I : Type 0) : Type 0 where
  pub web_handler_internal : WebHandlerInternal
  pub display : Display I
  pub led_strip : LedStrip
  pub dictionary : Dictionary

pub record Sensors : Type 0 where
  pub motion_sensor : MotionSensor
  pub light_sensor : LightSensor
  pub mqtt_client_info : MqttClientInfo
  pub loadavg : Option Str
  pub meminfo : Option Str

-- What stands outside the program: the texts of the mosquitto library's results, `server_stop` and what().
pub record Outside : Type 0 where
  pub str_error : ℤ → Str
  pub server_stop : ℤ
  pub what : Error → Str

abbrev pub Answer : Type 0 → Type 0
Answer I = Option (Reply × RequestOutput × Server I)

module _ {I : Type 0} where
  -- The end of a handler with a form: the values go to a component.
  unfoldable pub process_post : Parsed → (StringMap → Server I → Answer I) → Server I → Answer I
  unfolding error_output bad_length_message
  process_post Parsed.unreadable k s = none
  process_post Parsed.no_body k s =
      some (Reply.internal_error, error_output 560 (str "no body in post request"), s)
  process_post (Parsed.bad_length n) k s =
      some (Reply.internal_error, error_output 566 (bad_length_message n), s)
  process_post Parsed.bad_percent k s =
      some (Reply.internal_error, error_output 625 (str "invalid percent encoding"), s)
  process_post (Parsed.parsed p) k s = k p s

  abbrev done : Server I → Answer I
  done s = some (Reply.no_content, no_output, s)

  unfoldable pub enqueue_msg_mode : StringMap → Server I → Answer I
  unfolding enqueue_msg_mode_post
  enqueue_msg_mode p s = done (record s { display = enqueue_msg_mode_post p s.display })

  unfoldable pub enqueue_img_background : StringMap → Server I → Answer I
  unfolding enqueue_img_background_post
  enqueue_img_background p s = done (record s { display = enqueue_img_background_post p s.display })

  unfoldable pub enqueue_msg_background : StringMap → Server I → Answer I
  unfolding enqueue_msg_background_post
  enqueue_msg_background p s = done (record s { display = enqueue_msg_background_post p s.display })

  unfoldable pub enqueue_led_strip : StringMap → Server I → Answer I
  unfolding Thread.enqueue_msg_mode_post
  enqueue_led_strip p s = done (record s { led_strip = Thread.enqueue_msg_mode_post p s.led_strip })

  unfoldable pub dictionary_answer : (Error → Str) → Server I → Dictionary × Result Bool → Answer I
  unfolding error_output caught_output
  dictionary_answer what s (d, Result.ok true) = done (record s { dictionary = d })
  dictionary_answer what s (d, Result.ok false) = some (
    Reply.internal_error,
    error_output 761 (str "Was unable to parse request on dictionary"),
    record s { dictionary = d },
  )
  dictionary_answer what s (d, throws e) =
      some (Reply.internal_error, caught_output (what e), record s { dictionary = d })

  unfoldable pub change_dictionary : (Error → Str) → StringMap → Server I → Answer I
  unfolding parse_post_request dictionary_answer
  change_dictionary what p s = dictionary_answer what s (parse_post_request p s.dictionary)

module _ {I : Type 0} (methods : DisplayInternal I) (outside : Outside) (sensors : Sensors) where
  unfoldable pub components : Server I → Components
  unfolding get_handler_hits get_internal_display_mode get_internal_display_dimmed
  components s = record {
    web_handler_hits = some (get_handler_hits s.web_handler_internal);
    motion_sensor = sensors.motion_sensor;
    light_sensor = sensors.light_sensor;
    display_mode = get_internal_display_mode methods s.display;
    display_dimmed = get_internal_display_dimmed methods s.display;
    led_strip = s.led_strip;
    mqtt_client_info = sensors.mqtt_client_info;
    str_error = outside.str_error;
    loadavg = sensors.loadavg;
    meminfo = sensors.meminfo;
  }

  -- `none` within the result is the end of the gathering's fuel.
  unfoldable pub status_answer :
      Str
      → (StatusSnapshot → Str)
      → Server I
      → Dictionary × Result (Option StatusSnapshot)
      → Answer I
  unfolding caught_output
  status_answer content_type render s (d, Result.ok none) = none
  status_answer content_type render s (d, Result.ok (some snapshot)) =
      some (Reply.ok, typed_output content_type (render snapshot), record s { dictionary = d })
  status_answer content_type render s (d, throws e) =
      some (Reply.internal_error, caught_output (outside.what e), record s { dictionary = d })

  unfoldable pub process_status : Str → (StatusSnapshot → Str) → Server I → Answer I
  unfolding status_answer gather_status_snapshot components
  process_status content_type render s =
      status_answer content_type render s (gather_status_snapshot (components s) s.dictionary)

  abbrev page : Str → Server I → Answer I
  page body s = some (Reply.ok, body_output body, s)

  unfoldable pub process_handler : Handler → RequestInfo → Server I → Answer I
  unfolding not_found_page img_background_page msg_background_page msg_mode_page led_strip_page
      dictionary_page root_page process_status render_status_text render_status_json process_post
      parse_post enqueue_msg_mode enqueue_img_background enqueue_msg_background enqueue_led_strip
      change_dictionary
  process_handler Handler.not_found r s =
      some (Reply.not_found, body_output (not_found_page r.uri_path), s)
  process_handler Handler.head_root r s = done s
  process_handler Handler.root r s = page root_page s
  process_handler Handler.status r s = process_status (str "text/plain") render_status_text s
  process_handler Handler.status_json r s =
      process_status (str "application/json") render_status_json s
  process_handler Handler.msg_mode r s = page msg_mode_page s
  process_handler Handler.msg_mode_post r s =
      process_post (parse_post r.request_body) enqueue_msg_mode s
  process_handler Handler.img_background r s = page img_background_page s
  process_handler Handler.img_background_post r s =
      process_post (parse_post r.request_body) enqueue_img_background s
  process_handler Handler.msg_background r s = page msg_background_page s
  process_handler Handler.msg_background_post r s =
      process_post (parse_post r.request_body) enqueue_msg_background s
  process_handler Handler.led_strip r s = page (led_strip_page s.led_strip) s
  process_handler Handler.led_strip_post r s =
      process_post (parse_post r.request_body) enqueue_led_strip s
  process_handler Handler.dictionary r s = page dictionary_page s
  process_handler Handler.dictionary_post r s =
      process_post (parse_post r.request_body) (change_dictionary outside.what) s
  process_handler Handler.stop r s = some (
    (if eq_ℤ outside.server_stop (pos 0) then Reply.no_content else Reply.internal_error),
    no_output,
    s,
  )

  unfoldable pub answer_by : RequestInfo → Server I → Option WebHandler → Answer I
  unfolding process_handler
  answer_by r s none = none
  answer_by r s (some h) = process_handler h.handler r s

  unfoldable pub process_selected :
      RequestInfo → Server I → Option ℕ × WebHandlerInternal → Answer I
  unfolding answer_by
  process_selected r s (none, w) =
      some (Reply.not_found, no_output, record s { web_handler_internal = w })
  process_selected r s (some a, w) =
      answer_by r (record s { web_handler_internal = w }) (get_elem? w.objects a)

  -- `WebHandlerInternal::process`.
  unfoldable pub process : RequestInfo → Server I → Answer I
  unfolding select_web_handler process_selected
  process r s = process_selected r s (select_web_handler r.method r.uri_path s.web_handler_internal)

  -- `handleRequest`, with the method, the path and the body that libevent gives. The instance of
  -- `WebHandlerInternal` is there between start and shutdown.
  unfoldable pub handle_request : Bool → ℕ → Option Str → Option Str → Server I → Answer I
  unfolding process parse_request
  handle_request true method path body s = process (parse_request method path body) s
  handle_request false method path body s = some (Reply.server_unavail, no_output, s)
