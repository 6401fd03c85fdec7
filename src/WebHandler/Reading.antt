-- ===== src/WebHandler/Reading.antt =====
-- Requests to the web server that are no `POST` change no component.
use oclock.Common.{ℕ, ◌≡◌, refl, ◌∙◌, Bool, true, false, Option, some, ◌==◌}
use oclock.Common.Str.{Str}
use oclock.Dictionary.Sound.{IsSound}
use oclock.Dictionary.Next.{IsSame, IsSame-refl}
use oclock.Display.Thread.{DisplayInternal}
use oclock.StatusReport.Render.{StatusSnapshot}
use oclock.WebHandler.Output.{Reply, RequestOutput, RequestInfo, parse_request}
use oclock.WebHandler.Routing.{Handler, evhttp_req_get, evhttp_req_post, evhttp_req_head}
use oclock.WebHandler.Routes.{route}
use oclock.WebHandler.Serving.{
  IsServing, route_handler, with_hit, process-route, handler_at, handlers_by_address,
  get_route-holds, if-holds,
}
use oclock.WebHandler.Process.{
  Server, Outside, Sensors, Answer, process_handler, process_status, handle_request,
}
use oclock.WebHandler.Answers.{process_status_lem}

-- An answer that leaves the components, for every reader of the dictionary; only the hits may differ.
pub record IsReading {I : Type 0} (s : Server I) (o : Answer I) : Type 0 where
  pub reply : Reply
  pub output : RequestOutput
  pub server : Server I
  pub result : o ≡ some (reply, output, server)
  pub display : server.display ≡ s.display
  pub led_strip : server.led_strip ≡ s.led_strip
  pub dictionary : IsSame s.dictionary server.dictionary

is_reading : Handler → Bool
is_reading Handler.msg_mode_post = false
is_reading Handler.img_background_post = false
is_reading Handler.msg_background_post = false
is_reading Handler.led_strip_post = false
is_reading Handler.dictionary_post = false
is_reading h = true

reads_at : ℕ → Bool
unfolding is_reading
reads_at a = is_reading (handler_at handlers_by_address a)

route-reads_at :
    (method : ℕ) (p : Str) → (method == evhttp_req_post) ≡ false → reads_at (route method p) ≡ true
unfolding reads_at is_reading
route-reads_at method p e = if-holds reads_at (method == evhttp_req_head) _ _ refl (
    if-holds reads_at (method == evhttp_req_get) _ _
      (get_route-holds reads_at p refl refl refl refl refl refl refl refl refl refl) (rw e refl))

module _ {I : Type 0} (methods : DisplayInternal I) (outside : Outside) (sensors : Sensors) where
  simple-IsReading :
      (reply : Reply) (output : RequestOutput) (s : Server I)
      → IsSound s.dictionary
      → IsReading s (some (reply, output, s))
  simple-IsReading reply output s h = record {
    reply = reply;
    output = output;
    server = s;
    result = refl;
    display = refl;
    led_strip = refl;
    dictionary = IsSame-refl s.dictionary h;
  }

  process_status-IsReading :
      (content_type : Str) (render : StatusSnapshot → Str) (s : Server I)
      → IsSound s.dictionary
      → IsReading s (process_status methods outside sensors content_type render s)
  process_status-IsReading content_type render s h =
      let g = process_status_lem methods outside sensors content_type render s h in
      record {
        reply = Reply.ok;
        output = g.1;
        server = record s { dictionary = g.0 };
        result = g.2;
        display = refl;
        led_strip = refl;
        dictionary = g.3;
      }

  process_handler-IsReading :
      (h : Handler) (r : RequestInfo) (s : Server I)
      → IsSound s.dictionary
      → is_reading h ≡ true
      → IsReading s (process_handler methods outside sensors h r s)
  unfolding process_handler is_reading
  process_handler-IsReading Handler.not_found r s d e = simple-IsReading _ _ s d
  process_handler-IsReading Handler.head_root r s d e = simple-IsReading _ _ s d
  process_handler-IsReading Handler.root r s d e = simple-IsReading _ _ s d
  process_handler-IsReading Handler.status r s d e = process_status-IsReading _ _ s d
  process_handler-IsReading Handler.status_json r s d e = process_status-IsReading _ _ s d
  process_handler-IsReading Handler.msg_mode r s d e = simple-IsReading _ _ s d
  process_handler-IsReading Handler.msg_mode_post r s d e = cc
  process_handler-IsReading Handler.img_background r s d e = simple-IsReading _ _ s d
  process_handler-IsReading Handler.img_background_post r s d e = cc
  process_handler-IsReading Handler.msg_background r s d e = simple-IsReading _ _ s d
  process_handler-IsReading Handler.msg_background_post r s d e = cc
  process_handler-IsReading Handler.led_strip r s d e = simple-IsReading _ _ s d
  process_handler-IsReading Handler.led_strip_post r s d e = cc
  process_handler-IsReading Handler.dictionary r s d e = simple-IsReading _ _ s d
  process_handler-IsReading Handler.dictionary_post r s d e = cc
  process_handler-IsReading Handler.stop r s d e = simple-IsReading _ _ s d

  -- A request with any other method than `POST`, on a sound dictionary and behind `_start`, is answered and leaves the
  -- requests that wait for the display and for the LED strip as they are, and no reader of the dictionary
  -- can tell that it was served.
  pub handle_request-IsReading :
      (method : ℕ) (path body : Option Str) (s : Server I)
      → (method == evhttp_req_post) ≡ false
      → IsSound s.dictionary
      → IsServing s.web_handler_internal
      → IsReading s (handle_request methods outside sensors true method path body s)
  unfolding handle_request is_reading reads_at
  handle_request-IsReading method path body s e d w =
      let r = parse_request method path body in
      let h =
        process_handler-IsReading (route_handler r.method r.uri_path) r
          (record s {
            web_handler_internal = with_hit (route r.method r.uri_path) s.web_handler_internal;
          })
          d (route-reads_at method r.uri_path e) in
      record {
        reply = h.reply;
        output = h.output;
        server = h.server;
        result = process-route methods outside sensors r s w ∙ h.result;
        display = h.display;
        led_strip = h.led_strip;
        dictionary = h.dictionary;
      }
