-- ===== src/WebHandler/Posting.antt =====
-- Forms that a `POST` to the web server hands to the components.
use oclock.Common.{
  ℕ, ◌<◌, List, [], ◌∷◌, ◌++◌, ◌≡◌, ◌≢◌, refl, sym, subst, ◌∙◌, true, Option, some, length, All,
}
use oclock.Common.Str.{Str, str, str_eq, str_compare}
use oclock.Common.SortedMap.{Sorted}
use oclock.Dictionary.{Dictionary, StringMap, param_data, param_key, param_timeout}
use oclock.Display.Thread.{
  DisplayInternal, DisplayTodo, msg_mode_post, img_background_post, msg_background_post,
  enqueue_msg_mode_post, enqueue_img_background_post, enqueue_msg_background_post,
  enqueue_display_todo,
}
use oclock.LedStrip.Thread
use oclock.WebHandler.Form.{Parsed, parse_post}
use oclock.WebHandler.Encoding.{encode_pairs, IsPair}
use oclock.WebHandler.RoundTrip.{parse_post-encode_map}
use oclock.WebHandler.Answers.{parse_post-readable}
use oclock.WebHandler.Output.{
  Reply, RequestOutput, RequestInfo, parse_request, parse_path, no_output,
}
use oclock.WebHandler.Routing.{evhttp_req_post}
use oclock.WebHandler.Serving.{IsServing, with_hit, process-route}
use oclock.WebHandler.Process.{
  Server, Outside, Sensors, Answer, process_handler, process_post, enqueue_msg_mode,
  enqueue_img_background, enqueue_msg_background, enqueue_led_strip, handle_request,
}

module _ {I : Type 0} where
  abbrev pub done_with : Server I → Answer I
  done_with s = some (Reply.no_content, no_output, s)

  -- A server with one more request for the display.
  abbrev pub display_with : DisplayTodo → Server I → Server I
  display_with t s = record s {
    display = record (s.display) { display_todos = s.display.display_todos ++ (t ∷ []) };
  }

  abbrev pub led_strip_with : StringMap → Server I → Server I
  led_strip_with p s = record s {
    led_strip = record (s.led_strip) { todos = s.led_strip.todos ++ (p ∷ []) };
  }

  abbrev pub hit_of : ℕ → Server I → Server I
  hit_of a s = record s { web_handler_internal = with_hit a s.web_handler_internal }

abbrev request : Str → Option Str → RequestInfo
request path body = record { method = evhttp_req_post; uri_path = path; request_body = body }

abbrev pub dictionary_form : Str → Str → Str → Str
dictionary_form k v t = encode_pairs (param_data, v) ((param_key, k) ∷ ((param_timeout, t) ∷ []))

-- An answer by an error that leaves a server in a state.
pub record IsRefusal {I : Type 0} (o : Answer I) (s : Server I) : Type 0 where
  pub output : RequestOutput
  pub result : o ≡ some (Reply.internal_error, output, s)

refused :
    {I : Type 0} (o : Parsed) (k : StringMap → Server I → Answer I) (s : Server I)
    → o ≢ Parsed.unreadable
    → ((m : StringMap) → o ≢ Parsed.parsed m)
    → IsRefusal (process_post o k s) s
unfolding process_post
refused Parsed.unreadable k s e n = absurd (e refl)
refused Parsed.no_body k s e n = record { output = _; result = refl }
refused (Parsed.bad_length l) k s e n = record { output = _; result = refl }
refused Parsed.bad_percent k s e n = record { output = _; result = refl }
refused (Parsed.parsed p) k s e n = absurd (n p refl)

module _ {I : Type 0} (methods : DisplayInternal I) (outside : Outside) (sensors : Sensors) where
  -- Behind `_start` the form of a map by `POST` puts exactly that map at the end of the queue that its path
  -- names, for the handler that its path names, and changes nothing else but the count of hits. The map
  -- has at least one entry, no empty key and no NUL, and its form is shorter than 4096 bytes.
  pub handle_request-posts :
      (p : Str × Str) (rest : List (Str × Str)) (s : Server I)
      → IsPair p
      → All IsPair rest
      → Sorted (p ∷ rest)
      → length (encode_pairs p rest) < 4096
      → IsServing s.web_handler_internal
      → let post = λ (path : Str).
        handle_request methods outside sensors true evhttp_req_post
          (some path)
          (some (encode_pairs p rest))
          s in
        (post (str "/msgMode") ≡ done_with (display_with (msg_mode_post (p ∷ rest)) (hit_of 6 s)))
        × (post (str "/imgBackground")
            ≡ done_with (display_with (img_background_post (p ∷ rest)) (hit_of 8 s)))
        × (post (str "/msgBackground")
            ≡ done_with (display_with (msg_background_post (p ∷ rest)) (hit_of 10 s)))
        × (post (str "/ledStrip") ≡ done_with (led_strip_with (p ∷ rest) (hit_of 12 s)))
  unfolding handle_request parse_request parse_path process_handler process_post enqueue_msg_mode
      enqueue_img_background enqueue_msg_background enqueue_led_strip enqueue_msg_mode_post
      enqueue_img_background_post enqueue_msg_background_post enqueue_display_todo
      Thread.enqueue_msg_mode_post str_eq str_compare
  handle_request-posts p rest s h g o l w =
      let e = parse_post-encode_map p rest h g o l in
      (
        process-route methods outside sensors
              (request (str "/msgMode") (some (encode_pairs p rest))) s w
            ∙ rw e refl,
        process-route methods outside sensors
              (request (str "/imgBackground") (some (encode_pairs p rest))) s w
            ∙ rw e refl,
        process-route methods outside sensors
              (request (str "/msgBackground") (some (encode_pairs p rest))) s w
            ∙ rw e refl,
        process-route methods outside sensors
              (request (str "/ledStrip") (some (encode_pairs p rest))) s w
            ∙ rw e refl,
      )

  -- A `POST` to a form's path with a body that `parsePost` refuses is answered by an error and changes
  -- nothing but the count of hits.
  pub handle_request-refused :
      (body : Option Str) (s : Server I)
      → ((m : StringMap) → parse_post body ≢ Parsed.parsed m)
      → IsServing s.web_handler_internal
      → let post = λ (path : Str).
        handle_request methods outside sensors true evhttp_req_post (some path) body s in
        IsRefusal (post (str "/msgMode")) (hit_of 6 s)
        × IsRefusal (post (str "/imgBackground")) (hit_of 8 s)
        × IsRefusal (post (str "/msgBackground")) (hit_of 10 s)
        × IsRefusal (post (str "/ledStrip")) (hit_of 12 s)
        × IsRefusal (post (str "/dictionary")) (hit_of 14 s)
  unfolding handle_request parse_request parse_path process_handler str_eq str_compare
  handle_request-refused body s n w =
      let r = λ (path : Str). request path body in
      (
        subst (λ a. IsRefusal a (hit_of 6 s))
            (sym (process-route methods outside sensors (r (str "/msgMode")) s w))
            (refused (parse_post body) _ (hit_of 6 s) (parse_post-readable body) n),
        subst (λ a. IsRefusal a (hit_of 8 s))
            (sym (process-route methods outside sensors (r (str "/imgBackground")) s w))
            (refused (parse_post body) _ (hit_of 8 s) (parse_post-readable body) n),
        subst (λ a. IsRefusal a (hit_of 10 s))
            (sym (process-route methods outside sensors (r (str "/msgBackground")) s w))
            (refused (parse_post body) _ (hit_of 10 s) (parse_post-readable body) n),
        subst (λ a. IsRefusal a (hit_of 12 s))
            (sym (process-route methods outside sensors (r (str "/ledStrip")) s w))
            (refused (parse_post body) _ (hit_of 12 s) (parse_post-readable body) n),
        subst (λ a. IsRefusal a (hit_of 14 s))
            (sym (process-route methods outside sensors (r (str "/dictionary")) s w))
            (refused (parse_post body) _ (hit_of 14 s) (parse_post-readable body) n),
      )
