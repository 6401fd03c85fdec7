-- ===== src/WebHandler/Selected.antt =====
-- The handler that `process` selects for a request behind `_start`, by its class, and the hits that it counts.
use oclock.Common.{
  ℕ, ◌+◌, ◌%◌, ◌^◌, ◌<◌, List, map, ◌≡◌, refl, ap, subst, sym, ◌∙◌, Bool, true, false, Option, some,
  ◌==◌, if◌then◌else◌, length, get_elem?,
}
use oclock.Common.Str.{Str, str, str_eq}
use oclock.WebHandler.Routing.{
  WebHandlerInternal, Handler, select_web_handler, hits_at, evhttp_req_get, evhttp_req_post,
  evhttp_req_head,
}
use oclock.WebHandler.Routes.{route, get_route, post_route, select_web_handler-route}
use oclock.WebHandler.Hits.{hits_at-bump_at}
use oclock.WebHandler.Serving.{
  IsServing, handler_of, handlers_by_address, started-handlers, map-bump_at,
}

-- The class that shows the page of a path.
abbrev pub page_class : Str → Handler
page_class p =
    if str_eq (str "/") p
    then Handler.root
    else if str_eq (str "/dictionary") p
    then Handler.dictionary
    else if str_eq (str "/imgBackground") p
    then Handler.img_background
    else if str_eq (str "/index.html") p
    then Handler.root
    else if str_eq (str "/ledStrip") p
    then Handler.led_strip
    else if str_eq (str "/msgBackground") p
    then Handler.msg_background
    else if str_eq (str "/msgMode") p
    then Handler.msg_mode
    else if str_eq (str "/status") p
    then Handler.status
    else if str_eq (str "/status.json") p
    then Handler.status_json
    else if str_eq (str "/stop") p
    then Handler.stop
    else Handler.not_found

-- The class that takes the form of a path.
abbrev pub form_class : Str → Handler
form_class p =
    if str_eq (str "/dictionary") p
    then Handler.dictionary_post
    else if str_eq (str "/imgBackground") p
    then Handler.img_background_post
    else if str_eq (str "/ledStrip") p
    then Handler.led_strip_post
    else if str_eq (str "/msgBackground") p
    then Handler.msg_background_post
    else if str_eq (str "/msgMode") p
    then Handler.msg_mode_post
    else if str_eq (str "/stop") p
    then Handler.stop
    else Handler.not_found

abbrev pub class_of_request : ℕ → Str → Handler
class_of_request method p =
    if method == evhttp_req_head
    then Handler.head_root
    else if method == evhttp_req_get
    then page_class p
    else if method == evhttp_req_post
    then form_class p
    else Handler.not_found

-- The outcome of a search: one object, of the class of the request, has one more hit, and all else is as it was.
pub record IsSelected (method : ℕ) (p : Str) (w : WebHandlerInternal)
    (r : Option ℕ × WebHandlerInternal) : Type 0 where
  pub address : ℕ
  pub found : r.0 ≡ some address
  pub class : get_elem? (map handler_of w.objects) address ≡ some (class_of_request method p)
  pub keys : r.1.web_handlers ≡ w.web_handlers
  pub classes : map handler_of r.1.objects ≡ map handler_of w.objects
  pub hits :
      (b : ℕ)
      → b < length w.objects
      → hits_at b r.1.objects
        ≡ (if address == b then (hits_at b w.objects + 1) % 2 ^ 32 else hits_at b w.objects)

if_some :
    (f : ℕ → Option Handler) (b : Bool) {x y : ℕ} {h k : Handler}
    → f x ≡ some h
    → f y ≡ some k
    → f (if b then x else y) ≡ some (if b then h else k)
if_some f true u v = u
if_some f false u v = v

abbrev at : ℕ → Option Handler
at a = get_elem? handlers_by_address a

at-get_route : (p : Str) → at (get_route p) ≡ some (page_class p)
at-get_route p = if_some at (str_eq (str "/") p) refl (
    if_some at (str_eq (str "/dictionary") p) refl (
      if_some at (str_eq (str "/imgBackground") p) refl (
        if_some at (str_eq (str "/index.html") p) refl (
          if_some at (str_eq (str "/ledStrip") p) refl (
            if_some at (str_eq (str "/msgBackground") p) refl (
              if_some at (str_eq (str "/msgMode") p) refl (
                if_some at (str_eq (str "/status") p) refl (
                  if_some at (str_eq (str "/status.json") p) refl
                    (if_some at (str_eq (str "/stop") p) refl (refl))))))))))

at-post_route : (p : Str) → at (post_route p) ≡ some (form_class p)
at-post_route p = if_some at (str_eq (str "/dictionary") p) refl (
    if_some at (str_eq (str "/imgBackground") p) refl (
      if_some at (str_eq (str "/ledStrip") p) refl (
        if_some at (str_eq (str "/msgBackground") p) refl (
          if_some at (str_eq (str "/msgMode") p) refl
            (if_some at (str_eq (str "/stop") p) refl (refl))))))

at-route : (method : ℕ) (p : Str) → at (route method p) ≡ some (class_of_request method p)
at-route method p = if_some at (method == evhttp_req_head) refl (
    if_some at (method == evhttp_req_get) (at-get_route p)
      (if_some at (method == evhttp_req_post) (at-post_route p) (refl)))

-- Behind `_start`, and whatever was served since, every request finds a handler: for `GET` and `POST` one of the class
-- that belongs to the path, the page of what is not found if the path has none, for any `HEAD` the handler of
-- `HEAD /`, and for any other method the page of what is not found. That object counts one more hit, modulo 2^32, no other
-- does, and keys and classes stay.
pub select_web_handler-IsSelected :
    (method : ℕ) (p : Str) (w : WebHandlerInternal)
    → IsServing w
    → IsSelected method p w (select_web_handler method p w)
select_web_handler-IsSelected method p w s =
    subst (IsSelected method p w) (sym (select_web_handler-route method p w s.keys)) (record {
      address = route method p;
      found = refl;
      class =
          ap (λ (hs : List Handler). get_elem? hs (route method p)) (s.handlers ∙ started-handlers)
          ∙ at-route method p;
      keys = refl;
      classes = map-bump_at (route method p) w.objects;
      hits = λ b l. hits_at-bump_at b (route method p) w.objects l;
    })
