-- ===== src/WebHandler/Hits.antt =====
-- The counts of hits that the status page shows, after any requests.
use oclock.Common.{
  ℕ, zero, suc, ◌+◌, ◌%◌, ◌^◌, ◌<◌, List, [], ◌∷◌, ◌≡◌, refl, sym, ap, subst, ◌∙◌, Bool, true,
  false, Option, ◌==◌, if◌then◌else◌, length, arith, All,
}
use oclock.Common.Str.{Str}
use oclock.WebHandler.Routing.{
  WebHandlerInternal, WebHandler, started, select_web_handler, bump_at, bump_hits, hits_at,
  add_handlers, add_handler, new_web_handler,
}
use oclock.WebHandler.Routes.{route, select_web_handler-route}

-- The searches of a run of requests, in the order in which they take the mutex.
unfoldable pub serve : List (ℕ × Str) → WebHandlerInternal → WebHandlerInternal
serve [] w = w
serve ((method, path) ∷ rest) w = serve rest (select_web_handler method path w).1

unfoldable pub count_routes : ℕ → List (ℕ × Str) → ℕ
count_routes a [] = 0
count_routes a ((method, path) ∷ rest) =
    (if route method path == a then 1 else 0) + count_routes a rest

length-bump_at : (a : ℕ) (hs : List WebHandler) → length (bump_at a hs) ≡ length hs
unfolding bump_at
length-bump_at a [] = refl
length-bump_at zero (h ∷ hs) = refl
length-bump_at (suc a) (h ∷ hs) = ap suc (length-bump_at a hs)

pub hits_at-bump_at :
    (a b : ℕ) (hs : List WebHandler)
    → a < length hs
    → hits_at a (bump_at b hs) ≡ (if b == a then (hits_at a hs + 1) % 2 ^ 32 else hits_at a hs)
unfolding hits_at bump_at bump_hits
hits_at-bump_at a b [] l = absurd (omega arith)
hits_at-bump_at zero zero (h ∷ hs) l = refl
hits_at-bump_at zero (suc b) (h ∷ hs) l = ground arith
hits_at-bump_at (suc a) zero (h ∷ hs) l = ground arith
hits_at-bump_at (suc a) (suc b) (h ∷ hs) l = ground (arith, hits_at-bump_at a b hs (omega arith))

counted :
    (b : Bool) (h c : ℕ)
    → h < 2 ^ 32
    → ((if b then (h + 1) % 2 ^ 32 else h) + c) % 2 ^ 32 ≡ (h + ((if b then 1 else 0) + c)) % 2 ^ 32
counted true h c l = omega arith
counted false h c l = omega arith

below : (b : Bool) (h : ℕ) → h < 2 ^ 32 → (if b then (h + 1) % 2 ^ 32 else h) < 2 ^ 32
below true h l = omega arith
below false h l = l

hits_at-serve :
    (a : ℕ) (rs : List (ℕ × Str)) (w : WebHandlerInternal)
    → w.web_handlers ≡ started.web_handlers
    → a < length w.objects
    → hits_at a w.objects < 2 ^ 32
    → hits_at a (serve rs w).objects ≡ (hits_at a w.objects + count_routes a rs) % 2 ^ 32
unfolding serve count_routes
hits_at-serve a [] w e l u = omega arith
hits_at-serve a ((method, path) ∷ rest) w e l u =
    ap (λ (r : Option ℕ × WebHandlerInternal). hits_at a (serve rest r.1).objects)
      (select_web_handler-route method path w e)
    ∙ hits_at-serve a rest (record w { objects = bump_at (route method path) w.objects }) e
        (subst (λ (n : ℕ). a < n) (sym (length-bump_at (route method path) w.objects)) l)
        (subst (λ (n : ℕ). n < 2 ^ 32) (sym one)
          (below (route method path == a) (hits_at a w.objects) u))
    ∙ rw one (counted (route method path == a) (hits_at a w.objects) (count_routes a rest) u)
  where
    one : hits_at a (bump_at (route method path) w.objects) ≡ (
        if route method path == a then (hits_at a w.objects + 1) % 2 ^ 32 else hits_at a w.objects)
    one = hits_at-bump_at a (route method path) w.objects l

hits_at-zero : (a : ℕ) (hs : List WebHandler) → All (λ h. h.hits ≡ 0) hs → hits_at a hs ≡ 0
unfolding hits_at
hits_at-zero a [] z = refl
hits_at-zero zero (h ∷ hs) z = z.0
hits_at-zero (suc a) (h ∷ hs) z = hits_at-zero a hs z.1

fresh : (a : ℕ) → (hits_at a started.objects ≡ 0) × (length started.objects ≡ 17)
unfolding started add_handlers add_handler new_web_handler
fresh a = (
  hits_at-zero a started.objects (
    refl,
    (
      refl,
      (
        refl,
        (
          refl,
          (
            refl,
            (
              refl,
              (
                refl,
                (refl, (refl, (refl, (refl, (refl, (refl, (refl, (refl, (refl, (refl, tt)))))))))),
              ),
            ),
          ),
        ),
      ),
    ),
  ),
  refl,
)

-- After `_start` and any run of requests a handler has counted exactly the requests that its routes answer, modulo
-- 2^32: one handler for `/` and `/index.html`, and two for `/stop`.
pub hits_at-started :
    (a : ℕ) (rs : List (ℕ × Str))
    → a < 17
    → hits_at a (serve rs started).objects ≡ count_routes a rs % 2 ^ 32
hits_at-started a rs l =
    let f = fresh a in
    hits_at-serve a rs started refl (omega (arith, f.1)) (omega (arith, f.0))
    ∙ rw (f.0) (omega arith)
