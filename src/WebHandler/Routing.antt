-- ===== src/WebHandler/Routing.antt =====
-- Which handler answers a request, and the count of its hits: `WebHandlerKey` and `WebHandlerInternal` in
-- webHandlerInternal.h and webHandlerInternal.cpp. `instanceMutex` makes each search one step.
use oclock.Common.{
  ℕ, zero, suc, ◌+◌, ◌%◌, ◌^◌, List, [], ◌∷◌, ◌++◌, Bool, true, false, ◌&&◌, Option, none, some,
  ltb, ◌==◌, if◌then◌else◌, length,
}
use oclock.Common.Str.{Str, str, str_eq, str_lt}
use oclock.Common.Decimal.{decimal}

-- The numbers of `evhttp_cmd_type`, as libevent's event2/http.h documents them.
abbrev pub evhttp_req_get : ℕ
evhttp_req_get = 1

abbrev pub evhttp_req_post : ℕ
evhttp_req_post = 2

abbrev pub evhttp_req_head : ℕ
evhttp_req_head = 4

abbrev pub evhttp_req_put : ℕ
evhttp_req_put = 8

pub record WebHandlerKey : Type 0 where
  pub method : ℕ
  pub uri_path : Str

abbrev pub get_key : Str → WebHandlerKey
get_key path = record { method = evhttp_req_get; uri_path = path }

abbrev pub post_key : Str → WebHandlerKey
post_key path = record { method = evhttp_req_post; uri_path = path }

abbrev pub uri_not_found : WebHandlerKey
uri_not_found = get_key (str "__notFound")

abbrev pub uri_head : WebHandlerKey
uri_head = record { method = evhttp_req_head; uri_path = str "/" }

-- `operator<`.
unfoldable pub key_lt : WebHandlerKey → WebHandlerKey → Bool
unfolding str_lt
key_lt k j = if k.method == j.method then str_lt k.uri_path j.uri_path else ltb k.method j.method

-- Two keys of which neither is smaller.
unfoldable pub key_eq : WebHandlerKey → WebHandlerKey → Bool
unfolding str_eq
key_eq k j = k.method == j.method && str_eq k.uri_path j.uri_path

-- `operator()`: the text of a key.
unfoldable pub key_str : WebHandlerKey → Str
unfolding str_eq decimal
key_str k =
    if str_eq k.uri_path uri_not_found.uri_path
    then k.uri_path
    else k.uri_path
      ++ (str " ("
          ++ ((if k.method == evhttp_req_get
                then str "get"
                else if k.method == evhttp_req_post
                then str "post"
                else if k.method == evhttp_req_put
                then str "put"
                else if k.method == evhttp_req_head
                then str "head"
                else decimal k.method)
              ++ str ")"))

-- The classes of handlers.
pub data Handler : Type 0 where
  not_found head_root root status status_json : Handler
  msg_mode msg_mode_post img_background img_background_post : Handler
  msg_background msg_background_post led_strip led_strip_post : Handler
  dictionary dictionary_post stop : Handler

pub record WebHandler : Type 0 where
  pub handler : Handler
  pub hits : ℕ

-- `webHandlers` in the order of its keys, with the addresses of the handlers. A handler may have several keys.
pub record WebHandlerInternal : Type 0 where
  pub web_handlers : List (WebHandlerKey × ℕ)
  pub objects : List WebHandler

unfoldable pub new_web_handler : Handler → WebHandler
new_web_handler h = record { handler = h; hits = 0 }

unfoldable pub find_key : WebHandlerKey → List (WebHandlerKey × ℕ) → Option ℕ
unfolding key_eq
find_key k [] = none
find_key k ((j, a) ∷ rest) = if key_eq j k then some a else find_key k rest

-- `webHandlers[key] = address`.
unfoldable pub assign_key : WebHandlerKey → ℕ → List (WebHandlerKey × ℕ) → List (WebHandlerKey × ℕ)
unfolding key_eq key_lt
assign_key k a [] = (k, a) ∷ []
assign_key k a ((j, b) ∷ rest) =
    let later = assign_key k a rest in
    if key_eq j k
    then (k, a) ∷ rest
    else if key_lt k j
    then (k, a) ∷ ((j, b) ∷ rest)
    else (j, b) ∷ later

unfoldable pub assign_keys :
    List WebHandlerKey → ℕ → List (WebHandlerKey × ℕ) → List (WebHandlerKey × ℕ)
unfolding assign_key
assign_keys [] a m = m
assign_keys (k ∷ keys) a m = assign_keys keys a (assign_key k a m)

-- A `new` handler under one key or more.
unfoldable pub add_handler : Handler → List WebHandlerKey → WebHandlerInternal → WebHandlerInternal
unfolding assign_keys new_web_handler
add_handler h keys w = record {
  web_handlers = assign_keys keys (length w.objects) w.web_handlers;
  objects = w.objects ++ (new_web_handler h ∷ []);
}

unfoldable pub add_handlers :
    List (Handler × List WebHandlerKey) → WebHandlerInternal → WebHandlerInternal
unfolding add_handler
add_handlers [] w = w
add_handlers ((h, keys) ∷ rest) w = add_handlers rest (add_handler h keys w)

abbrev pub registrations : List (Handler × List WebHandlerKey)
registrations =
    (not_found, uri_not_found ∷ [])
    ∷ (head_root, uri_head ∷ [])
    ∷ (root, get_key (str "/") ∷ get_key (str "/index.html") ∷ [])
    ∷ (status, get_key (str "/status") ∷ [])
    ∷ (status_json, get_key (str "/status.json") ∷ [])
    ∷ (msg_mode, get_key (str "/msgMode") ∷ [])
    ∷ (msg_mode_post, post_key (str "/msgMode") ∷ [])
    ∷ (img_background, get_key (str "/imgBackground") ∷ [])
    ∷ (img_background_post, post_key (str "/imgBackground") ∷ [])
    ∷ (msg_background, get_key (str "/msgBackground") ∷ [])
    ∷ (msg_background_post, post_key (str "/msgBackground") ∷ [])
    ∷ (led_strip, get_key (str "/ledStrip") ∷ [])
    ∷ (led_strip_post, post_key (str "/ledStrip") ∷ [])
    ∷ (dictionary, get_key (str "/dictionary") ∷ [])
    ∷ (dictionary_post, post_key (str "/dictionary") ∷ [])
    ∷ (stop, get_key (str "/stop") ∷ [])
    ∷ (stop, post_key (str "/stop") ∷ [])
    ∷ []

-- `_start` on a fresh instance.
unfoldable pub started : WebHandlerInternal
unfolding add_handlers
started = add_handlers registrations (record { web_handlers = []; objects = [] })

unfoldable pub bump_hits : WebHandler → WebHandler
bump_hits h = record h { hits = (h.hits + 1) % 2 ^ 32 }

unfoldable pub bump_at : ℕ → List WebHandler → List WebHandler
unfolding bump_hits
bump_at a [] = []
bump_at zero (h ∷ hs) = bump_hits h ∷ hs
bump_at (suc a) (h ∷ hs) = h ∷ bump_at a hs

unfoldable pub bump_found : Option ℕ → WebHandlerInternal → Option ℕ × WebHandlerInternal
bump_found none w = (none, w)
bump_found (some a) w = (some a, record w { objects = bump_at a w.objects })

unfoldable pub find_web_handler : WebHandlerKey → WebHandlerInternal → Option ℕ × WebHandlerInternal
find_web_handler k w = bump_found (find_key k w.web_handlers) w

unfoldable pub or_find :
    Bool → WebHandlerKey → Option ℕ × WebHandlerInternal → Option ℕ × WebHandlerInternal
or_find b k (some a, w) = (some a, w)
or_find true k (none, w) = find_web_handler k w
or_find false k (none, w) = (none, w)

-- The handler that `process` calls: that of the key, or for `HEAD` that of `HEAD /`, or the page of what is not found.
unfoldable pub select_web_handler : ℕ → Str → WebHandlerInternal → Option ℕ × WebHandlerInternal
select_web_handler method path w = or_find true uri_not_found (
    or_find (method == evhttp_req_head) uri_head
      (find_web_handler (record { method = method; uri_path = path }) w))

unfoldable pub hits_at : ℕ → List WebHandler → ℕ
hits_at a [] = 0
hits_at zero (h ∷ hs) = h.hits
hits_at (suc a) (h ∷ hs) = hits_at a hs

unfoldable pub handler_hits : List WebHandler → List (WebHandlerKey × ℕ) → List (Str × ℕ)
unfolding key_str hits_at
handler_hits hs [] = []
handler_hits hs ((k, a) ∷ rest) = (key_str k, hits_at a hs) ∷ handler_hits hs rest

unfoldable pub get_handler_hits : WebHandlerInternal → List (Str × ℕ)
unfolding handler_hits
get_handler_hits w = handler_hits w.objects w.web_handlers
