-- ===== src/Dictionary/Post.antt =====
-- Requests to the dictionary by `POST`, in terms of what a reader sees.
use oclock.Common.{
  ◌+◌, ◌^◌, ◌<◌, ◌≡◌, ◌≢◌, refl, ap, subst, ◌∙◌, Bool, true, false, not, ◌&&◌, ◌||◌, Option, none,
  some, if◌then◌else◌, Bool-cases, inl, inr, [],
}
use mathlib.Core.Option
use oclock.Common.Int.{ℤ}
use oclock.Common.Str.{Str, str, str_eq, str_eq→eq, str_eq_refl, ne→str_eq}
use oclock.Common.SortedMap.{find}
use oclock.Common.Stoi.{stoi}
use oclock.TimerTick.{ok}
use oclock.Dictionary.{
  Dictionary, StringMap, parse_post_request, param_key, param_data, param_operation, param_timeout,
  operation_set, operation_add, operation_del, remove, clear, and_then, request, remove_first,
  try_add, caught, is_given, pure,
}
use oclock.Dictionary.Sound.{IsSound, view}
use oclock.Dictionary.Access.{remove_lem}
use oclock.Dictionary.Adding.{add_lem, seen}
use oclock.Dictionary.Clearing.{clear_lem}

-- What a reader finds under a key that was set with the text of a timeout.
abbrev pub set_value : Str → Option ℤ → Option Str
set_value v none = none
set_value v (some i) = seen v i

abbrev pub is_number : Option ℤ → Bool
is_number none = false
is_number (some _) = true

-- The default timeout is `noExpiration`.
abbrev timeout_text : StringMap → Str
timeout_text p = Option.get_or (find param_timeout p) (str "-1")

abbrev pub timeout_of : StringMap → Option ℤ
timeout_of p = stoi (timeout_text p)

try_add_lem :
    (d : Dictionary) (k v : Str) (t : Option ℤ)
    → IsSound d
    → d.machine.next_id + 1 < 2 ^ 64
    → str_eq k [] ≡ false
    → view d k ≡ none
    → (d' : Dictionary) × (try_add k v t d ≡ (d', ok (is_number t)))
      × IsSound d'
      × ((j : Str) → view d' j ≡ (if str_eq k j then set_value v t else view d j))
unfolding try_add
try_add_lem d k v none s ids e f = (
  d,
  refl,
  s,
  λ j. elim (Bool-cases (str_eq k j)) [
    | inl q ↦ rw q (subst (λ x. view d x ≡ none) (str_eq→eq k j q) f)
    | inr q ↦ rw q
  ],
)
try_add_lem d k v (some i) s ids e f =
    let r = add_lem d k v i s ids in
    (r.0, ap caught r.1 ∙ rw (e, f, caught) refl, r.2, λ j. r.3 j ∙ rw (e, f) refl)

-- A `set` request (the default operation) with a key that is not empty and a value is granted
-- exactly if its timeout is a number. It replaces what the key shows, and no other key; if the
-- timeout is not a number, the old value is gone all the same.
pub post_set :
    (d : Dictionary) (p : StringMap) (k v : Str)
    → IsSound d
    → d.machine.next_id + 1 < 2 ^ 64
    → find param_key p ≡ some k
    → k ≢ []
    → find param_data p ≡ some v
    → Option.get_or (find param_operation p) operation_set ≡ operation_set
    → (d' : Dictionary) × (parse_post_request p d ≡ (d', ok (is_number (timeout_of p))))
      × IsSound d'
      × ((j : Str) → view d' j ≡ (if str_eq k j then set_value v (timeout_of p) else view d j))
unfolding parse_post_request request remove_first stoi str_eq
post_set d p k v s ids hk hne hv ho =
    let r = remove_lem d k s in
    let gone : view r.0 k ≡ none = r.3 k ∙ rw (str_eq_refl k) in
    let named = ne→str_eq k [] hne in
    let a = try_add_lem r.0 k v (timeout_of p) r.2 (rw r.5 ids) named gone in
    (
      a.0,
      rw (parse_post_request, hk, hv, ho, request)
          (ap (λ x. and_then (and_then x (λ _. pure tt)) (λ _. try_add k v (timeout_of p))) r.1
            ∙ a.1),
      a.2,
      λ j. a.3 j ∙ replaced r.0 j r.3,
    )
  where
    replaced :
        (d' : Dictionary) (j : Str)
        → ((i : Str) → view d' i ≡ (if str_eq k i then none else view d i))
        → (if str_eq k j then set_value v (timeout_of p) else view d' j)
          ≡ (if str_eq k j then set_value v (timeout_of p) else view d j)
    replaced d' j h = elim (Bool-cases (str_eq k j)) [ inl q ↦ rw q | inr q ↦ rw q (h j ∙ rw q) ]

request_del_all :
    (k v : Option Str) (t : Str) (d : Dictionary)
    → str_eq (Option.get_or k []) [] ≡ true
    → request k v operation_del t d ≡ and_then (clear d) (λ _. pure true)
unfolding request remove_first str_eq
request_del_all none none t d e = refl
request_del_all none (some v) t d e = refl
request_del_all (some k) none t d e = rw e refl
request_del_all (some k) (some v) t d e = rw e refl

request_del_one :
    (k v : Option Str) (t : Str) (d : Dictionary)
    → str_eq (Option.get_or k []) [] ≡ false
    → request k v operation_del t d
      ≡ and_then (and_then (remove (Option.get_or k []) d) (λ _. pure tt)) (λ _. pure true)
unfolding request remove_first str_eq
request_del_one none none t d e = cc
request_del_one none (some v) t d e = cc
request_del_one (some k) none t d e = rw e refl
request_del_one (some k) (some v) t d e = rw e refl

-- A `del` request is always granted. With a key that is not empty it hides that key and no other;
-- with no key, or an empty one, it removes every entry.
pub post_del :
    (d : Dictionary) (p : StringMap)
    → IsSound d
    → find param_operation p ≡ some operation_del
    → let k = Option.get_or (find param_key p) [] in
      (d' : Dictionary) × (parse_post_request p d ≡ (d', ok true))
      × IsSound d'
      × ((j : Str) → view d' j ≡ (if str_eq k [] || str_eq k j then none else view d j))
unfolding parse_post_request request remove_first
post_del d p s ho = elim (Bool-cases (str_eq (Option.get_or (find param_key p) []) [])) [
  | inl e ↦
      let r = clear_lem d s in
      (
        r.0,
        rw (parse_post_request, ho)
              (request_del_all (find param_key p) (find param_data p) (timeout_text p) d e)
            ∙ ap (λ x. and_then x (λ _. pure true)) r.1,
        r.2,
        λ j. r.4 j ∙ rw e,
      )
  | inr e ↦
      let r = remove_lem d (Option.get_or (find param_key p) []) s in
      (
        r.0,
        rw (parse_post_request, ho)
              (request_del_one (find param_key p) (find param_data p) (timeout_text p) d e)
            ∙ ap (λ x. and_then (and_then x (λ _. pure tt)) (λ _. pure true)) r.1,
        r.2,
        λ j. r.3 j ∙ rw e,
      )
]

malformed : Bool → Bool → Str → Bool
malformed key value operation =
    not (str_eq operation operation_del)
    && (not key
        || not value
        || not (str_eq operation operation_set || str_eq operation operation_add))

-- A request that names no operation of the three, or that is no `del` and lacks the key or the
-- value.
unfoldable pub is_malformed : StringMap → Bool
unfolding malformed
is_malformed p =
    malformed (is_given (find param_key p)) (is_given (find param_data p))
      (Option.get_or (find param_operation p) operation_set)

and_left : (a b : Bool) → (a && b) ≡ true → a ≡ true
and_left true b h = refl
and_left false b h = h

none_of : (a b c : Bool) → (not a && not (b || c)) ≡ true → (not a && not b && not c) ≡ true
none_of true b c h = h
none_of false true c h = h
none_of false false c h = h

request-malformed :
    (k v : Option Str) (o t : Str) (d : Dictionary)
    → malformed (is_given k) (is_given v) o ≡ true
    → request k v o t d ≡ (d, ok false)
unfolding request malformed
request-malformed none v o t d h = rw (and_left (not (str_eq o operation_del)) _ h) refl
request-malformed (some k) none o t d h = rw (and_left (not (str_eq o operation_del)) _ h) refl
request-malformed (some k) (some v) o t d h =
    rw (none_of (str_eq o operation_del) (str_eq o operation_set) (str_eq o operation_add) h) refl

-- A malformed request is refused and changes nothing.
pub post_malformed :
    (d : Dictionary) (p : StringMap)
    → is_malformed p ≡ true
    → parse_post_request p d ≡ (d, ok false)
unfolding parse_post_request is_malformed
post_malformed d p h =
    request-malformed (find param_key p) (find param_data p)
      (Option.get_or (find param_operation p) operation_set) (timeout_text p) d h
