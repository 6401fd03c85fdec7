-- ===== src/WebHandler/Serving.antt =====
-- The web server behind `_start`, after any requests: a request is processed by the handler of its route.
use oclock.Common.{
  ℕ, zero, suc, List, [], ◌∷◌, map, ◌≡◌, refl, ap, ◌∙◌, Bool, true, false, Option, none, some, ◌==◌,
  if◌then◌else◌, get_elem?,
}
use oclock.Common.Str.{Str, str, str_eq}
use oclock.Display.Thread.{DisplayInternal}
use oclock.WebHandler.Output.{RequestInfo}
use oclock.WebHandler.Routing.{
  WebHandlerInternal, WebHandler, Handler, started, bump_at, bump_hits, add_handlers, add_handler,
  new_web_handler, evhttp_req_get, evhttp_req_post, evhttp_req_head,
}
use oclock.WebHandler.Routes.{route, get_route, post_route, select_web_handler-route}
use oclock.WebHandler.Process.{
  Server, Outside, Sensors, process_handler, process, process_selected, answer_by,
}

abbrev pub handler_of : WebHandler → Handler
handler_of h = h.handler

-- The routes and the classes of the handlers are those of `_start`.
pub record IsServing (w : WebHandlerInternal) : Type 0 where
  pub keys : w.web_handlers ≡ started.web_handlers
  pub handlers : map handler_of w.objects ≡ map handler_of started.objects

-- The classes by address.
abbrev pub handlers_by_address : List Handler
handlers_by_address =
    Handler.not_found ∷ Handler.head_root ∷ Handler.root ∷ Handler.status ∷ Handler.status_json
    ∷ Handler.msg_mode ∷ Handler.msg_mode_post ∷ Handler.img_background
    ∷ Handler.img_background_post ∷ Handler.msg_background ∷ Handler.msg_background_post
    ∷ Handler.led_strip ∷ Handler.led_strip_post ∷ Handler.dictionary ∷ Handler.dictionary_post
    ∷ Handler.stop ∷ Handler.stop ∷ []

pub started-handlers : map handler_of started.objects ≡ handlers_by_address
unfolding started add_handlers add_handler new_web_handler
started-handlers = refl

pub map-bump_at : (a : ℕ) (hs : List WebHandler) → map handler_of (bump_at a hs) ≡ map handler_of hs
unfolding bump_at bump_hits
map-bump_at a [] = refl
map-bump_at zero (h ∷ hs) = refl
map-bump_at (suc a) (h ∷ hs) = ap (λ (ks : List Handler). h.handler ∷ ks) (map-bump_at a hs)

-- A server with one more hit for the handler of a route.
abbrev pub with_hit : ℕ → WebHandlerInternal → WebHandlerInternal
with_hit a w = record w { objects = bump_at a w.objects }

pub with_hit-IsServing : (a : ℕ) (w : WebHandlerInternal) → IsServing w → IsServing (with_hit a w)
with_hit-IsServing a w h = record { keys = h.keys; handlers = map-bump_at a w.objects ∙ h.handlers }

pub started-IsServing : IsServing started
started-IsServing = record { keys = refl; handlers = refl }

-- The class of an address, which the page of what is not found stands in for where there is none.
abbrev pub handler_at : List Handler → ℕ → Handler
handler_at [] a = Handler.not_found
handler_at (h ∷ hs) zero = h
handler_at (h ∷ hs) (suc a) = handler_at hs a

abbrev pub route_handler : ℕ → Str → Handler
route_handler method p = handler_at handlers_by_address (route method p)

pub if-holds :
    (f : ℕ → Bool) (b : Bool) (x y : ℕ) → f x ≡ true → f y ≡ true → f (if b then x else y) ≡ true
if-holds f true x y h k = h
if-holds f false x y h k = k

abbrev is_some : Option Handler → Bool
is_some none = false
is_some (some h) = true

abbrev is_there : ℕ → Bool
is_there a = is_some (get_elem? handlers_by_address a)

-- What holds of all pages holds of the route of a `GET`.
pub get_route-holds :
    (f : ℕ → Bool) (p : Str)
    → f 0 ≡ true
    → f 2 ≡ true
    → f 3 ≡ true
    → f 4 ≡ true
    → f 5 ≡ true
    → f 7 ≡ true
    → f 9 ≡ true
    → f 11 ≡ true
    → f 13 ≡ true
    → f 15 ≡ true
    → f (get_route p) ≡ true
get_route-holds f p h0 h2 h3 h4 h5 h7 h9 h11 h13 h15 = if-holds f (str_eq (str "/") p) _ _ h2 (
    if-holds f (str_eq (str "/dictionary") p) _ _ h13 (
      if-holds f (str_eq (str "/imgBackground") p) _ _ h7 (
        if-holds f (str_eq (str "/index.html") p) _ _ h2 (
          if-holds f (str_eq (str "/ledStrip") p) _ _ h11 (
            if-holds f (str_eq (str "/msgBackground") p) _ _ h9 (
              if-holds f (str_eq (str "/msgMode") p) _ _ h5 (
                if-holds f (str_eq (str "/status") p) _ _ h3 (
                  if-holds f (str_eq (str "/status.json") p) _ _ h4
                    (if-holds f (str_eq (str "/stop") p) _ _ h15 (h0))))))))))

post_route-holds :
    (f : ℕ → Bool) (p : Str)
    → f 0 ≡ true
    → f 6 ≡ true
    → f 8 ≡ true
    → f 10 ≡ true
    → f 12 ≡ true
    → f 14 ≡ true
    → f 16 ≡ true
    → f (post_route p) ≡ true
post_route-holds f p h0 h6 h8 h10 h12 h14 h16 = if-holds f (str_eq (str "/dictionary") p) _ _ h14 (
    if-holds f (str_eq (str "/imgBackground") p) _ _ h8 (
      if-holds f (str_eq (str "/ledStrip") p) _ _ h12 (
        if-holds f (str_eq (str "/msgBackground") p) _ _ h10 (
          if-holds f (str_eq (str "/msgMode") p) _ _ h6
            (if-holds f (str_eq (str "/stop") p) _ _ h16 (h0))))))

route-is_there : (method : ℕ) (p : Str) → is_there (route method p) ≡ true
route-is_there method p = if-holds is_there (method == evhttp_req_head) _ _ refl (
    if-holds is_there (method == evhttp_req_get) _ _
      (get_route-holds is_there p refl refl refl refl refl refl refl refl refl refl)
      (if-holds is_there (method == evhttp_req_post) _ _
        (post_route-holds is_there p refl refl refl refl refl refl refl) refl))

abbrev first : List Handler → Handler
first [] = Handler.stop
first (h ∷ hs) = h

abbrev others : List Handler → List Handler
others [] = []
others (h ∷ hs) = hs

module _ {I : Type 0} (methods : DisplayInternal I) (outside : Outside) (sensors : Sensors) where
  answer_by-handler :
      (hs : List WebHandler) (ks : List Handler) (a : ℕ) (r : RequestInfo) (s : Server I)
      → map handler_of hs ≡ ks
      → is_some (get_elem? ks a) ≡ true
      → answer_by methods outside sensors r s (get_elem? hs a)
        ≡ process_handler methods outside sensors (handler_at ks a) r s
  unfolding answer_by
  answer_by-handler [] [] a r s e h = cc
  answer_by-handler [] (k ∷ ks) a r s e h = cc
  answer_by-handler (h ∷ hs) [] a r s e g = cc
  answer_by-handler (h ∷ hs) (k ∷ ks) zero r s e g =
      ap (λ (k : Handler). process_handler methods outside sensors k r s) (ap first e)
  answer_by-handler (h ∷ hs) (k ∷ ks) (suc a) r s e g =
      answer_by-handler hs ks a r s (ap others e) g

  -- A request is processed by the handler of its route, which has counted a hit.
  pub process-route :
      (r : RequestInfo) (s : Server I)
      → IsServing s.web_handler_internal
      → process methods outside sensors r s
        ≡ process_handler methods outside sensors (route_handler r.method r.uri_path) r (record s {
          web_handler_internal = with_hit (route r.method r.uri_path) s.web_handler_internal;
        })
  unfolding process process_selected
  process-route r s h =
      let a = route r.method r.uri_path in
      let w = s.web_handler_internal in
      rw (select_web_handler-route r.method r.uri_path w h.keys) (
        answer_by-handler (bump_at a w.objects) handlers_by_address a r
          (record s { web_handler_internal = with_hit a w })
          (map-bump_at a w.objects ∙ h.handlers ∙ started-handlers)
          (route-is_there r.method r.uri_path))
