-- ===== src/Dictionary/Tests.antt =====
-- The dictionary with one concrete entry that never expires.
use oclock.Common.{
  ℕ, ◌≡◌, refl, [], ◌∷◌, true, false, not, ◌&&◌, some, none, arith, Bool-cases, inl, inr, ◌==◌,
  if◌then◌else◌,
}
use oclock.Common.Int.{pos, negsuc}
use oclock.Common.Str.{Str, str, str_eq}
use oclock.Common.SortedMap.{find}
use oclock.TimerTick.{Machine, Service, Trigger, ok}
use oclock.TimerTick.Wf.{Wf, cookie_at}
use oclock.Dictionary.{
  Dictionary, StringMap, get, add, parse_post_request, param_key, param_data, param_operation,
  param_timeout, operation_del,
}
use oclock.Dictionary.Sound.{IsSound, view}
use oclock.Dictionary.Access.{Reads, get-Reads, is_some}
use oclock.Dictionary.Adding.{seen, add_lem}
use oclock.Dictionary.Visit.{visit_all}
use oclock.Dictionary.Visiting.{VisitOf, visit_all_lem}
use oclock.Dictionary.Post.{post_set, is_number, timeout_of, set_value}

abbrev service : Service
service = record {
  interval = negsuc 0;
  periodic = false;
  cookie = 0;
  ticks_left = 0;
  trigger = Trigger.flag false;
}

abbrev one_service : Machine
one_service = record {
  heap = λ a. if 5 == a then some service else none;
  next_id = 1;
  services = [];
  registry = [];
  cond_function = λ n. true;
}

one_service-cookies : (a : ℕ) → cookie_at one_service.heap a ≡ 0
unfolding cookie_at
one_service-cookies a = elim (Bool-cases (5 == a)) [
  | inl e ↦ rw (cookie_at, e) refl
  | inr e ↦ rw (cookie_at, e) refl
]

one_service-Wf : Wf one_service
one_service-Wf = record {
  linked = tt;
  distinct = tt;
  backed = λ a h. absurd (h (one_service-cookies a));
  issued = tt;
  started = omega arith;
}

abbrev one_entry : Dictionary
one_entry = record {
  dictionary_entries = (str "song", record { value = str "la"; service = 5 }) ∷ [];
  dictionary_status = record {
    ticks = 0;
    entries_added = 1;
    entries_removed = 0;
    entries_expired = 0;
  };
  machine = one_service;
  next_address = 6;
}

one_entry-IsSound : IsSound one_entry
one_entry-IsSound = record {
  machine = one_service-Wf;
  sorted = (tt, tt);
  live = ((service, refl), tt);
  own_services = (tt, tt);
  unused = λ a h. ground arith;
  counted = refl;
}

get-Reads_example : Reads one_entry (str "song") (get (str "song") one_entry)
get-Reads_example = get-Reads one_entry (str "song") one_entry-IsSound

add_lem_example :
    let adds = not (str_eq (str "word") []) && not (is_some (view one_entry (str "word"))) in
    (d' : Dictionary) × (add (str "word") (str "up") (pos 50) one_entry ≡ (d', ok adds))
    × IsSound d'
    × ((j : Str)
        → view d' j
          ≡ (if adds && str_eq (str "word") j then seen (str "up") (pos 50) else view one_entry j))
add_lem_example = add_lem one_entry (str "word") (str "up") (pos 50) one_entry-IsSound (omega arith)

-- A timeout that is not a number.
abbrev set_request : StringMap
set_request = (param_data, str "up") ∷ (param_key, str "song") ∷ (param_timeout, str "soon") ∷ []

post_set_example :
    (d' : Dictionary) × (parse_post_request set_request one_entry
      ≡ (d', ok (is_number (timeout_of set_request))))
    × IsSound d'
    × ((j : Str)
        → view d' j ≡ (
            if str_eq (str "song") j
            then set_value (str "up") (timeout_of set_request)
            else view one_entry j))
unfolding find str_eq
post_set_example =
    post_set one_entry set_request (str "song") (str "up") one_entry-IsSound (omega arith) refl
      (λ e. cc) refl refl

abbrev del_request : StringMap
del_request = (param_key, str "song") ∷ (param_operation, operation_del) ∷ []

visit_all_lem_example : VisitOf one_entry [] (visit_all one_entry)
visit_all_lem_example = visit_all_lem one_entry one_entry-IsSound
