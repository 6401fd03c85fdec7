-- ===== src/WebHandler/Routes.antt =====
-- What answers a request to the web server behind `_start`.
use oclock.Common.{
  ℕ, List, [], ◌∷◌, ◌≡◌, refl, ap, ◌∙◌, Bool, true, false, Option, none, some, ◌==◌, if◌then◌else◌,
  Bool-cases, Option-cases, inl, inr, ==→eq, arith,
}
use oclock.Common.Str.{Str, str, str_eq, str_compare}
use oclock.WebHandler.Routing.{
  WebHandlerInternal, WebHandlerKey, started, find_key, key_eq, find_web_handler, bump_found,
  or_find, select_web_handler, bump_at, add_handlers, add_handler, assign_keys, assign_key, key_lt,
  new_web_handler, get_key, post_key, uri_not_found, uri_head, evhttp_req_get, evhttp_req_head,
  evhttp_req_post,
}

-- The pages, in the order of their paths.
abbrev pub get_route : Str → ℕ
get_route p =
    if str_eq (str "/") p
    then 2
    else if str_eq (str "/dictionary") p
    then 13
    else if str_eq (str "/imgBackground") p
    then 7
    else if str_eq (str "/index.html") p
    then 2
    else if str_eq (str "/ledStrip") p
    then 11
    else if str_eq (str "/msgBackground") p
    then 9
    else if str_eq (str "/msgMode") p
    then 5
    else if str_eq (str "/status") p
    then 3
    else if str_eq (str "/status.json") p
    then 4
    else if str_eq (str "/stop") p
    then 15
    else 0

-- The requests by `POST`.
abbrev pub post_route : Str → ℕ
post_route p =
    if str_eq (str "/dictionary") p
    then 14
    else if str_eq (str "/imgBackground") p
    then 8
    else if str_eq (str "/ledStrip") p
    then 12
    else if str_eq (str "/msgBackground") p
    then 10
    else if str_eq (str "/msgMode") p
    then 6
    else if str_eq (str "/stop") p
    then 16
    else 0

-- The address of the handler of a request: any `HEAD` is answered by the handler of `HEAD /`.
abbrev pub route : ℕ → Str → ℕ
route method p =
    if method == evhttp_req_head
    then 1
    else if method == evhttp_req_get
    then get_route p
    else if method == evhttp_req_post
    then post_route p
    else 0

or_not_found : Option ℕ → ℕ
or_not_found none = 0
or_not_found (some a) = a

-- The table after `_start`, in the order of its keys.
abbrev table : List (WebHandlerKey × ℕ)
table =
    (get_key (str "/"), 2)
    ∷ (get_key (str "/dictionary"), 13)
    ∷ (get_key (str "/imgBackground"), 7)
    ∷ (get_key (str "/index.html"), 2)
    ∷ (get_key (str "/ledStrip"), 11)
    ∷ (get_key (str "/msgBackground"), 9)
    ∷ (get_key (str "/msgMode"), 5)
    ∷ (get_key (str "/status"), 3)
    ∷ (get_key (str "/status.json"), 4)
    ∷ (get_key (str "/stop"), 15)
    ∷ (uri_not_found, 0)
    ∷ (post_key (str "/dictionary"), 14)
    ∷ (post_key (str "/imgBackground"), 8)
    ∷ (post_key (str "/ledStrip"), 12)
    ∷ (post_key (str "/msgBackground"), 10)
    ∷ (post_key (str "/msgMode"), 6)
    ∷ (post_key (str "/stop"), 16)
    ∷ (uri_head, 1)
    ∷ []

started-table : started.web_handlers ≡ table
unfolding started add_handlers add_handler assign_keys assign_key key_lt key_eq new_web_handler
started-table = refl

or_not_found-if :
    (b : Bool) (a : ℕ) (o : Option ℕ)
    → or_not_found (if b then some a else o) ≡ (if b then a else or_not_found o)
unfolding or_not_found
or_not_found-if true a o = refl
or_not_found-if false a o = refl

if_same : (b : Bool) (a : ℕ) → (if b then a else a) ≡ a
if_same true a = refl
if_same false a = refl

or_not_found-none : or_not_found none ≡ 0
unfolding or_not_found
or_not_found-none = refl

found-get : (p : Str) → or_not_found (find_key (get_key p) table) ≡ get_route p
unfolding find_key key_eq
found-get p = simp (or_not_found-if, or_not_found-none, if_same) refl

found-post : (p : Str) → or_not_found (find_key (post_key p) table) ≡ post_route p
unfolding find_key key_eq
found-post p = simp (or_not_found-if, or_not_found-none) refl

found-head :
    (p : Str)
    → find_key (record { method = 4; uri_path = p }) table
      ≡ (if str_eq (str "/") p then some 1 else none)
unfolding find_key key_eq
found-head p = refl

found-other :
    (method : ℕ) (p : Str)
    → (method == evhttp_req_get) ≡ false
    → (method == evhttp_req_post) ≡ false
    → (method == evhttp_req_head) ≡ false
    → find_key (record { method = method; uri_path = p }) table ≡ none
unfolding find_key key_eq
found-other method p e f g = rw (swap 1 method e, swap 2 method f, swap 4 method g) refl
  where
    swap : (a b : ℕ) → (b == a) ≡ false → (a == b) ≡ false
    swap a b e = ground arith

not_found-key : find_key uri_not_found table ≡ some 0
unfolding find_key key_eq str_eq str_compare
not_found-key = refl

head-key : find_key uri_head table ≡ some 1
unfolding find_key key_eq str_eq str_compare
head-key = refl

-- The handler object at an address with one more hit.
abbrev answered : ℕ → WebHandlerInternal → Option ℕ × WebHandlerInternal
answered a w = (some a, record w { objects = bump_at a w.objects })

find_web_handler-none :
    (k : WebHandlerKey) (w : WebHandlerInternal)
    → find_key k w.web_handlers ≡ none
    → find_web_handler k w ≡ (none, w)
unfolding find_web_handler bump_found
find_web_handler-none k w e = rw e refl

find_web_handler-some :
    (k : WebHandlerKey) (a : ℕ) (w : WebHandlerInternal)
    → find_key k w.web_handlers ≡ some a
    → find_web_handler k w ≡ answered a w
unfolding find_web_handler bump_found
find_web_handler-some k a w e = rw e refl

not_found-answered :
    (w : WebHandlerInternal)
    → w.web_handlers ≡ table
    → find_web_handler uri_not_found w ≡ answered 0 w
not_found-answered w e = find_web_handler-some uri_not_found 0 w (rw e not_found-key)

or_not_found-answered :
    (k : WebHandlerKey) (w : WebHandlerInternal)
    → w.web_handlers ≡ table
    → or_find true uri_not_found (find_web_handler k w)
      ≡ answered (or_not_found (find_key k table)) w
unfolding or_find or_not_found
or_not_found-answered k w e = elim (Option-cases (find_key k table)) [
  | inl f ↦ rw (find_web_handler-none k w (ap (find_key k) e ∙ f), f) (not_found-answered w e)
  | inr (a, f) ↦ rw (find_web_handler-some k a w (ap (find_key k) e ∙ f), f) refl
]

or_find-false : (k : WebHandlerKey) (r : Option ℕ × WebHandlerInternal) → or_find false k r ≡ r
unfolding or_find
or_find-false k (none, w) = refl
or_find-false k (some a, w) = refl

select-other :
    (method : ℕ) (p : Str) (w : WebHandlerInternal)
    → w.web_handlers ≡ table
    → (method == evhttp_req_head) ≡ false
    → select_web_handler method p w
      ≡ answered (or_not_found (find_key (record { method = method; uri_path = p }) table)) w
unfolding select_web_handler
select-other method p w e h =
    rw (h, or_find-false uri_head (find_web_handler (record { method = method; uri_path = p }) w))
      (or_not_found-answered (record { method = method; uri_path = p }) w e)

select-head :
    (p : Str) (w : WebHandlerInternal)
    → w.web_handlers ≡ table
    → select_web_handler evhttp_req_head p w ≡ answered 1 w
unfolding select_web_handler or_find
select-head p w e = elim (Bool-cases (str_eq (str "/") p)) [
  | inl f ↦
      rw
        (find_web_handler-some (record { method = 4; uri_path = p }) 1 w
          (ap (find_key (record { method = 4; uri_path = p })) e ∙ found-head p ∙ rw f refl))
        refl
  | inr f ↦
      rw
        (
          find_web_handler-none (record { method = 4; uri_path = p }) w
              (ap (find_key (record { method = 4; uri_path = p })) e ∙ found-head p ∙ rw f refl),
          find_web_handler-some uri_head 1 w (ap (find_key uri_head) e ∙ head-key),
        )
        refl
]

-- Behind `_start` every request is answered: by the handler of its path where `GET` or `POST` has one, by the handler of
-- `HEAD /` for any `HEAD`, and otherwise by the page of what is not found. That handler, and no other, counts the hit.
pub select_web_handler-route :
    (method : ℕ) (p : Str) (w : WebHandlerInternal)
    → w.web_handlers ≡ started.web_handlers
    → select_web_handler method p w
      ≡ (some (route method p), record w { objects = bump_at (route method p) w.objects })
select_web_handler-route method p w e = elim (Bool-cases (method == evhttp_req_head)) [
  | inl h ↦ rw (==→eq method 4 h) (select-head p w (e ∙ started-table))
  | inr h ↦
      select-other method p w (e ∙ started-table) h ∙ ap (λ (a : ℕ). answered a w) (by_method h)
]
  where
    by_method :
        (method == evhttp_req_head) ≡ false
        → or_not_found (find_key (record { method = method; uri_path = p }) table) ≡ route method p
    by_method h = elim (Bool-cases (method == evhttp_req_get)) [
      | inl g ↦ rw (==→eq method 1 g) (found-get p)
      | inr g ↦ elim (Bool-cases (method == evhttp_req_post)) [
        | inl f ↦ rw (==→eq method 2 f) (found-post p)
        | inr f ↦ rw (found-other method p g f h, or_not_found-none, h, g, f) refl
      ]
    ]
