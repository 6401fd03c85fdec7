-- ===== src/WebHandler/Answers.antt =====
-- What requests to the web server do: each is answered, and only a `POST` changes a component.
use oclock.Common.{
  ℕ, ◌≡◌, ◌≢◌, refl, sym, subst, Bool, true, false, Option, none, some, ◌==◌, length, leb, ◌||◌,
  inl, inr, Bool-cases,
}
use oclock.Common.Str.{Str}
use oclock.TimerTick.{Error, Result, throws}
use oclock.Dictionary.{Dictionary, StringMap, parse_post_request}
use oclock.Dictionary.Sound.{IsSound}
use oclock.Dictionary.Next.{IsSame}
use oclock.Display.Thread.{DisplayInternal}
use oclock.StatusReport.Gather.{gather_status_snapshot, gather_status_snapshot_lem}
use oclock.StatusReport.Render.{StatusSnapshot}
use oclock.WebHandler.Form.{Parsed, parse_post}
use oclock.WebHandler.Walk.{parse_data-text}
use oclock.WebHandler.Output.{Reply, RequestOutput, RequestInfo, parse_request, typed_output}
use oclock.WebHandler.Routing.{Handler}
use oclock.WebHandler.Routes.{route}
use oclock.WebHandler.Serving.{IsServing, route_handler, with_hit-IsServing, process-route}
use oclock.WebHandler.Process.{
  Server, Outside, Sensors, Answer, process_handler, process_post, process_status, status_answer,
  dictionary_answer, change_dictionary, enqueue_msg_mode, enqueue_img_background,
  enqueue_msg_background, enqueue_led_strip, components, handle_request,
}

-- An answer of the server, whose routes stay.
pub record IsAnswered {I : Type 0} (o : Answer I) : Type 0 where
  pub reply : Reply
  pub output : RequestOutput
  pub server : Server I
  pub result : o ≡ some (reply, output, server)
  pub serving : IsServing server.web_handler_internal

pub parse_post-readable : (body : Option Str) → parse_post body ≢ Parsed.unreadable
unfolding parse_post
parse_post-readable none = cc
parse_post-readable (some body) = elim (Bool-cases (leb 4096 (length body) || length body == 0)) [
  | inl e ↦ rw e (λ x. cc)
  | inr e ↦ rw e ((parse_data-text body).1)
]

module _ {I : Type 0} where
  process_post-IsAnswered :
      (o : Parsed) (k : StringMap → Server I → Answer I) (s : Server I)
      → o ≢ Parsed.unreadable
      → IsServing s.web_handler_internal
      → ((p : StringMap) → IsAnswered (k p s))
      → IsAnswered (process_post o k s)
  unfolding process_post
  process_post-IsAnswered Parsed.unreadable k s n h f = absurd (n refl)
  process_post-IsAnswered Parsed.no_body k s n h f = record {
    reply = _;
    output = _;
    server = s;
    result = refl;
    serving = h;
  }
  process_post-IsAnswered (Parsed.bad_length l) k s n h f = record {
    reply = _;
    output = _;
    server = s;
    result = refl;
    serving = h;
  }
  process_post-IsAnswered Parsed.bad_percent k s n h f = record {
    reply = _;
    output = _;
    server = s;
    result = refl;
    serving = h;
  }
  process_post-IsAnswered (Parsed.parsed p) k s n h f = f p

  dictionary_answer-IsAnswered :
      (what : Error → Str) (s : Server I) (r : Dictionary × Result Bool)
      → IsServing s.web_handler_internal
      → IsAnswered (dictionary_answer what s r)
  unfolding dictionary_answer
  dictionary_answer-IsAnswered what s (d, Result.ok true) h = record {
    reply = _;
    output = _;
    server = _;
    result = refl;
    serving = h;
  }
  dictionary_answer-IsAnswered what s (d, Result.ok false) h = record {
    reply = _;
    output = _;
    server = _;
    result = refl;
    serving = h;
  }
  dictionary_answer-IsAnswered what s (d, throws e) h = record {
    reply = _;
    output = _;
    server = _;
    result = refl;
    serving = h;
  }

  simple-IsAnswered :
      (reply : Reply) (output : RequestOutput) (s : Server I)
      → IsServing s.web_handler_internal
      → IsAnswered (some (reply, output, s))
  simple-IsAnswered reply output s h = record {
    reply = reply;
    output = output;
    server = s;
    result = refl;
    serving = h;
  }

module _ {I : Type 0} (methods : DisplayInternal I) (outside : Outside) (sensors : Sensors) where
  status_answer-ok :
      (content_type : Str) (render : StatusSnapshot → Str) (s : Server I)
      (r : Dictionary × Result (Option StatusSnapshot)) (snapshot : StatusSnapshot)
      → r.1 ≡ Result.ok (some snapshot)
      → status_answer methods outside sensors content_type render s r
        ≡ some
            (Reply.ok, typed_output content_type (render snapshot), record s { dictionary = r.0 })
  unfolding status_answer
  status_answer-ok content_type render s (d, Result.ok none) snapshot e = cc
  status_answer-ok content_type render s (d, Result.ok (some x)) snapshot e = cc
  status_answer-ok content_type render s (d, throws x) snapshot e = cc

  pub process_status_lem :
      (content_type : Str) (render : StatusSnapshot → Str) (s : Server I)
      → IsSound s.dictionary
      → (d : Dictionary) × (output : RequestOutput) × (process_status methods outside sensors
            content_type render s
          ≡ some (Reply.ok, output, record s { dictionary = d }))
        × IsSame s.dictionary d
  unfolding process_status
  process_status_lem content_type render s h =
      let g = gather_status_snapshot_lem (components methods outside sensors s) s.dictionary h in
      (
        (gather_status_snapshot (components methods outside sensors s) s.dictionary).0,
        typed_output content_type (render g.snapshot),
        status_answer-ok content_type render s _ g.snapshot g.result,
        g.same,
      )

  process_status-IsAnswered :
      (content_type : Str) (render : StatusSnapshot → Str) (s : Server I)
      → IsSound s.dictionary
      → IsServing s.web_handler_internal
      → IsAnswered (process_status methods outside sensors content_type render s)
  process_status-IsAnswered content_type render s h w =
      let g = process_status_lem content_type render s h in
      record {
        reply = Reply.ok;
        output = g.1;
        server = record s { dictionary = g.0 };
        result = g.2;
        serving = w;
      }

  process_handler-IsAnswered :
      (h : Handler) (r : RequestInfo) (s : Server I)
      → IsSound s.dictionary
      → IsServing s.web_handler_internal
      → IsAnswered (process_handler methods outside sensors h r s)
  unfolding process_handler enqueue_msg_mode enqueue_img_background enqueue_msg_background
      enqueue_led_strip change_dictionary
  process_handler-IsAnswered Handler.not_found r s d w = simple-IsAnswered _ _ s w
  process_handler-IsAnswered Handler.head_root r s d w = simple-IsAnswered _ _ s w
  process_handler-IsAnswered Handler.root r s d w = simple-IsAnswered _ _ s w
  process_handler-IsAnswered Handler.status r s d w = process_status-IsAnswered _ _ s d w
  process_handler-IsAnswered Handler.status_json r s d w = process_status-IsAnswered _ _ s d w
  process_handler-IsAnswered Handler.msg_mode r s d w = simple-IsAnswered _ _ s w
  process_handler-IsAnswered Handler.msg_mode_post r s d w =
      process_post-IsAnswered _ _ s (parse_post-readable r.request_body) w
        (λ p. simple-IsAnswered _ _ _ w)
  process_handler-IsAnswered Handler.img_background r s d w = simple-IsAnswered _ _ s w
  process_handler-IsAnswered Handler.img_background_post r s d w =
      process_post-IsAnswered _ _ s (parse_post-readable r.request_body) w
        (λ p. simple-IsAnswered _ _ _ w)
  process_handler-IsAnswered Handler.msg_background r s d w = simple-IsAnswered _ _ s w
  process_handler-IsAnswered Handler.msg_background_post r s d w =
      process_post-IsAnswered _ _ s (parse_post-readable r.request_body) w
        (λ p. simple-IsAnswered _ _ _ w)
  process_handler-IsAnswered Handler.led_strip r s d w = simple-IsAnswered _ _ s w
  process_handler-IsAnswered Handler.led_strip_post r s d w =
      process_post-IsAnswered _ _ s (parse_post-readable r.request_body) w
        (λ p. simple-IsAnswered _ _ _ w)
  process_handler-IsAnswered Handler.dictionary r s d w = simple-IsAnswered _ _ s w
  process_handler-IsAnswered Handler.dictionary_post r s d w =
      process_post-IsAnswered _ _ s (parse_post-readable r.request_body) w
        (λ p. dictionary_answer-IsAnswered outside.what s (parse_post_request p s.dictionary) w)
  process_handler-IsAnswered Handler.stop r s d w = simple-IsAnswered _ _ s w

  -- On a sound dictionary and behind `_start` every request is answered, whatever its method, path and body: no access
  -- leaves an array, the gathering of the status ends, and the routes stay those of `_start`.
  pub handle_request-IsAnswered :
      (method : ℕ) (path body : Option Str) (s : Server I)
      → IsSound s.dictionary
      → IsServing s.web_handler_internal
      → IsAnswered (handle_request methods outside sensors true method path body s)
  unfolding handle_request
  handle_request-IsAnswered method path body s d w =
      let r = parse_request method path body in
      subst (λ o. IsAnswered o) (sym (process-route methods outside sensors r s w))
        (process_handler-IsAnswered (route_handler r.method r.uri_path) r _ d
          (with_hit-IsServing (route r.method r.uri_path) s.web_handler_internal w))
