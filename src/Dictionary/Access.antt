-- ===== src/Dictionary/Access.antt =====
-- `get`, `remove` and `add`, in terms of what a reader sees.
use oclock.Common.{
  ℕ, ◌≤◌, arith, ◌≡◌, refl, sym, ap, subst, ◌∙◌, Bool, true, false, Option, none, some,
  if◌then◌else◌, Option-cases, Bool-cases, inl, inr,
}
use oclock.Common.Str.{Str, str_eq, str_eq→eq, str_eq_refl}
use oclock.Common.SortedMap.{find, erase, insert, Sorted}
use oclock.Common.SortedMap
use oclock.Common.UpperBound.{above, above-erase, find-none-erase}
use oclock.TimerTick.{Service, Result, ok}
use oclock.Dictionary.{
  Dictionary, DictionaryData, data_is_expired, get, remove, and_then, count_expired, expired_entry,
  found_entry, pure,
}
use oclock.Dictionary.Sound.{IsSound, IsLive, Entries, view, view_of, value_of, remove_entry_lem}

abbrev pub is_some {ℓ} : {A : Type ℓ} → Option A → Bool
is_some none = false
is_some (some _) = true

-- The value of an entry whose service is in the memory.
view_found :
    (heap : ℕ → Option Service) (m : Entries) (k : Str) (e : DictionaryData) (o : Service)
    → find k m ≡ some e
    → heap e.service ≡ some o
    → view_of heap m k ≡ (if data_is_expired o then none else some e.value)
unfolding view_of value_of
view_found heap m k e o h l = rw (view_of, h, value_of, l)

view_absent :
    (heap : ℕ → Option Service) (m : Entries) (k : Str) → find k m ≡ none → view_of heap m k ≡ none
unfolding view_of
view_absent heap m k h = rw (view_of, h)

count_expired-IsSound : (d : Dictionary) → IsSound d → IsSound (count_expired d)
unfolding count_expired
count_expired-IsSound d s = record {
  machine = s.machine;
  sorted = s.sorted;
  live = s.live;
  own_services = s.own_services;
  unused = s.unused;
  counted = s.counted;
}

-- What `get` leaves: a sound dictionary in which a reader finds what it found before.
pub record Reads (d : Dictionary) (k : Str) (r : Dictionary × Result (Option Str)) : Type 0 where
  pub result : r.1 ≡ ok (view d k)
  pub sound : IsSound r.0
  pub same_view : (j : Str) → view r.0 j ≡ view d j
  pub next : (r.0).machine.next_id ≡ d.machine.next_id
  pub absent : view d k ≡ none → find k (r.0).dictionary_entries ≡ none
  pub fewer : (j : Str) → above j (r.0).dictionary_entries ≤ above j d.dictionary_entries
  pub gone : (j : Str) → find j d.dictionary_entries ≡ none → find j (r.0).dictionary_entries ≡ none

found_entry-Reads :
    (d : Dictionary) (k : Str) (e : DictionaryData) (o : Service)
    → IsSound d
    → find k d.dictionary_entries ≡ some e
    → d.machine.heap e.service ≡ some o
    → Reads d k (found_entry k e d)
unfolding found_entry expired_entry
found_entry-Reads d k e o s h l = elim (Bool-cases (data_is_expired o)) [
  | inl x ↦
      let v : view d k ≡ none = view_found d.machine.heap d.dictionary_entries k e o h l ∙ rw x in
      let r =
        remove_entry_lem (count_expired d) k e (count_expired-IsSound d s)
          (unfold count_expired in h) in
      let gone : found_entry k e d ≡ (r.0, ok none) =
        rw (found_entry, l, x) (ap (λ p. and_then p (λ _. pure none)) r.1) in
      subst (Reads d k) (sym gone) (record {
        result = rw v refl;
        sound = r.2;
        same_view = λ j. r.3 j ∙ hidden j v;
        next = r.5;
        absent = λ _.
            rw r.4 (SortedMap.find-erase k k d.dictionary_entries s.sorted ∙ rw (str_eq_refl k));
        fewer = λ j. rw r.4 (above-erase k j d.dictionary_entries);
        gone = λ j n. rw r.4 (find-none-erase k j d.dictionary_entries n);
      })
  | inr x ↦
      let v : view d k ≡ some e.value =
        view_found d.machine.heap d.dictionary_entries k e o h l ∙ rw x in
      let kept : found_entry k e d ≡ (d, ok (some e.value)) = rw (found_entry, l, x) refl in
      subst (Reads d k) (sym kept) (record {
        result = rw v refl;
        sound = s;
        same_view = λ j. refl;
        next = refl;
        absent = λ n. cc;
        fewer = λ j. omega arith;
        gone = λ j n. n;
      })
]
  where
    hidden : (j : Str) → view d k ≡ none → (if str_eq k j then none else view d j) ≡ view d j
    hidden j v = elim (Bool-cases (str_eq k j)) [
      | inl q ↦ rw q (sym (subst (λ x. view d x ≡ none) (str_eq→eq k j q) v))
      | inr q ↦ rw q
    ]

-- `get` never fails: it gives the value that has not expired, if there is one. It may drop an
-- expired entry, which no reader can tell, and keeps the dictionary sound.
pub get-Reads : (d : Dictionary) (k : Str) → IsSound d → Reads d k (get k d)
unfolding get
get-Reads d k s = elim (Option-cases (find k d.dictionary_entries)) [
  | inl h ↦
      let miss : get k d ≡ (d, ok none) = rw (get, h) refl in
      subst (Reads d k) (sym miss) (record {
        result = rw (view_absent d.machine.heap d.dictionary_entries k h) refl;
        sound = s;
        same_view = λ j. refl;
        next = refl;
        absent = λ _. h;
        fewer = λ j. omega arith;
        gone = λ j n. n;
      })
  | inr (e, h) ↦
      let l = SortedMap.find-All (IsLive d.machine.heap) d.dictionary_entries k s.live h in
      let hit : get k d ≡ found_entry k e d = rw (get, h) refl in
      subst (Reads d k) (sym hit) (found_entry-Reads d k e l.0 s h l.1)
]

-- `remove` never fails: it says whether the key had an entry, expired or not, hides that key and
-- no other, and keeps the dictionary sound.
pub remove_lem :
    (d : Dictionary) (k : Str)
    → IsSound d
    → (d' : Dictionary) × (remove k d ≡ (d', ok (is_some (find k d.dictionary_entries))))
      × IsSound d'
      × ((j : Str) → view d' j ≡ (if str_eq k j then none else view d j))
      × (find k d'.dictionary_entries ≡ none)
      × (d'.machine.next_id ≡ d.machine.next_id)
unfolding remove
remove_lem d k s = elim (Option-cases (find k d.dictionary_entries)) [
  | inl h ↦ (
    d,
    rw (h, remove) refl,
    s,
    λ j. hidden j (view_absent d.machine.heap d.dictionary_entries k h),
    h,
    refl,
  )
  | inr (e, h) ↦
      let r = remove_entry_lem d k e s h in
      (
        r.0,
        rw (h, remove) (ap (λ p. and_then p (λ _. pure true)) r.1),
        r.2,
        r.3,
        rw r.4 (SortedMap.find-erase k k d.dictionary_entries s.sorted ∙ rw (str_eq_refl k)),
        r.5,
      )
]
  where
    hidden : (j : Str) → view d k ≡ none → view d j ≡ (if str_eq k j then none else view d j)
    hidden j v = elim (Bool-cases (str_eq k j)) [
      | inl q ↦ rw q (subst (λ x. view d x ≡ none) (str_eq→eq k j q) v)
      | inr q ↦ rw q
    ]
