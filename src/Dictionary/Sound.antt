-- ===== src/Dictionary/Sound.antt =====
-- The invariant of the dictionary, what a reader sees of it, and the removal of one entry.
use oclock.Common.{
  ℕ, ◌+◌, ◌%◌, ◌^◌, ◌≤◌, ◌≡◌, ◌≢◌, refl, sym, ap, subst, ◌∙◌, Option, none, some, arith, ◌==◌,
  if◌then◌else◌, Option-cases, Bool-cases, ==→eq, ==→ne, inl, inr, List, [], ◌∷◌, map, All, All-map,
  All-map₂, length,
}
use oclock.Common.Assoc.{Distinct}
use oclock.Common.Str.{Str, str_eq}
use oclock.Common.SortedMap.{find, erase, Sorted}
use oclock.Common.SortedMap
use oclock.TimerTick.{Service, ok}
use oclock.TimerTick.Wf.{Wf}
use oclock.Dictionary.{
  Dictionary, DictionaryData, data_is_expired, remove_entry, count_removed, erase_key, and_then,
  with_machine, modify,
}
use oclock.Dictionary.Memory.{delete_data_lem}

abbrev pub Entries : Type 0
Entries = List (Str × DictionaryData)

abbrev pub services_of : Entries → List ℕ
services_of = map λ e. e.1.service

-- An entry's timer service lies in the memory.
abbrev pub IsLive : (ℕ → Option Service) → Str × DictionaryData → Type 0
IsLive heap e = (o : Service) × (heap (e.1.service) ≡ some o)

-- Entries in key order, each with a service of its own that has not been freed; the tick service's
-- table agrees with its objects; and `added` less `removed` counts the entries, modulo 2 ^ 32.
pub record IsSound (d : Dictionary) : Type 0 where
  pub machine : Wf d.machine
  pub sorted : Sorted d.dictionary_entries
  pub live : All (IsLive d.machine.heap) d.dictionary_entries
  pub own_services : Distinct (services_of d.dictionary_entries)
  pub unused : (a : ℕ) → d.next_address ≤ a → d.machine.heap a ≡ none
  pub counted :
      d.dictionary_status.entries_added % 2 ^ 32
      ≡ (d.dictionary_status.entries_removed + length d.dictionary_entries) % 2 ^ 32

-- The value of an entry, unless it has expired.
unfoldable pub value_of : (ℕ → Option Service) → DictionaryData → Option Str
value_of heap e = elim (heap e.service) [
  | none ↦ none
  | some o ↦ if data_is_expired o then none else some e.value
]

unfoldable pub view_of : (ℕ → Option Service) → Entries → Str → Option Str
unfolding value_of
view_of heap m k = elim (find k m) [ none ↦ none | some e ↦ value_of heap e ]

-- What a reader can find: the values that have not expired.
abbrev pub view : Dictionary → Str → Option Str
view d k = view_of d.machine.heap d.dictionary_entries k

pub view_of_same :
    (heap heap' : ℕ → Option Service) (m : Entries) (k : Str)
    → All (λ e. heap' (e.1.service) ≡ heap (e.1.service)) m
    → view_of heap' m k ≡ view_of heap m k
unfolding view_of
view_of_same heap heap' m k h = elim (Option-cases (find k m)) [
  | inl e ↦ rw (e, view_of)
  | inr (x, e) ↦
      rw (e, view_of)
        (unfold value_of in
          rw (SortedMap.find-All (λ e. heap' (e.1.service) ≡ heap (e.1.service)) m k h e, value_of))
]

pub view_of-erase :
    (heap : ℕ → Option Service) (m : Entries) (k j : Str)
    → Sorted m
    → view_of heap (erase k m) j ≡ (if str_eq k j then none else view_of heap m j)
unfolding view_of
view_of-erase heap m k j s = elim (Bool-cases (str_eq k j)) [
  | inl e ↦ rw (view_of, SortedMap.find-erase k j m s, e)
  | inr e ↦ rw (view_of, SortedMap.find-erase k j m s, e)
]

All-services-erase :
    (P : ℕ → Type 0) (m : Entries) (k : Str)
    → All P (services_of m)
    → All P (services_of (erase k m))
unfolding erase
All-services-erase P [] k h = tt
All-services-erase P ((j, w) ∷ m) k h = ground (arith, All-services-erase P m k h.1)

pub own_services-erase :
    (m : Entries) (k : Str) → Distinct (services_of m) → Distinct (services_of (erase k m))
unfolding erase
own_services-erase [] k d = tt
own_services-erase ((j, w) ∷ m) k d = elim (Bool-cases (str_eq j k)) [
  | inl q ↦ rw q d.1
  | inr q ↦ rw q (All-services-erase (λ y. w.service ≢ y) m k d.0, own_services-erase m k d.1)
]

service_listed :
    (P : ℕ → Type 0) (m : Entries) (k : Str) (e : DictionaryData)
    → All P (services_of m)
    → find k m ≡ some e
    → P e.service
unfolding find
service_listed P [] k e h q = cc
service_listed P ((j, w) ∷ m) k e h q = elim (Bool-cases (str_eq j k)) [
  | inl r ↦ let x : w ≡ e = ground arith in subst (λ (y : DictionaryData). P y.service) x h.0
  | inr r ↦ service_listed P m k e h.1 (ground arith)
]

of_services : (P : ℕ → Type 0) (m : Entries) → All P (services_of m) → All (λ e. P (e.1.service)) m
of_services P [] h = tt
of_services P (e ∷ m) h = (h.0, of_services P m h.1)

-- The service of an entry is not that of another entry.
pub erase_other_services :
    (m : Entries) (k : Str) (e : DictionaryData)
    → Distinct (services_of m)
    → find k m ≡ some e
    → All (λ x. e.service ≢ x.1.service) (erase k m)
unfolding find erase
erase_other_services [] k e d q = tt
erase_other_services ((j, w) ∷ m) k e d q = elim (Bool-cases (str_eq j k)) [
  | inl r ↦
      let x : w ≡ e = ground arith in
      rw r (
        subst (λ (y : DictionaryData). All (λ x. y.service ≢ x.1.service) m) x
          (of_services (λ y. w.service ≢ y) m d.0))
  | inr r ↦ rw r (
    λ s. service_listed (λ y. w.service ≢ y) m k e d.0 (ground arith) (sym s),
    erase_other_services m k e d.1 (ground arith),
  )
]

-- Removing an entry that is there succeeds, keeps the dictionary sound and hides that key alone.
pub remove_entry_lem :
    (d : Dictionary) (k : Str) (e : DictionaryData)
    → IsSound d
    → find k d.dictionary_entries ≡ some e
    → (d' : Dictionary) × (remove_entry k e d ≡ (d', ok tt))
      × IsSound d'
      × ((j : Str) → view d' j ≡ (if str_eq k j then none else view d j))
      × (d'.dictionary_entries ≡ erase k d.dictionary_entries)
      × (d'.machine.next_id ≡ d.machine.next_id)
unfolding remove_entry
remove_entry_lem d k e s h =
    let l = SortedMap.find-All (IsLive d.machine.heap) d.dictionary_entries k s.live h in
    let r = delete_data_lem d.machine e.service l.0 s.machine l.1 in
    let others = erase_other_services d.dictionary_entries k e s.own_services h in
    let same : All (λ x. (r.0).heap (x.1.service) ≡ d.machine.heap (x.1.service))
        (erase k d.dictionary_entries) =
      All-map (λ x n. r.4 (x.1.service) n) (erase k d.dictionary_entries) others in
    let d1 = record d { dictionary_entries = erase k d.dictionary_entries; machine = r.0 } in
    (
      count_removed 1 d1,
      ap (λ p. and_then (with_machine (erase_key k d) p) (λ _. modify (count_removed 1))) r.1,
      record {
        machine = r.2;
        sorted = SortedMap.Sorted-erase d.dictionary_entries k s.sorted;
        live =
            All-map₂ (λ x p q. (p.0, q ∙ p.1)) (erase k d.dictionary_entries)
              (SortedMap.All-erase (IsLive d.machine.heap) d.dictionary_entries k s.live) same;
        own_services = own_services-erase d.dictionary_entries k s.own_services;
        unused = λ a p. elim (Bool-cases (e.service == a)) [
          | inl q ↦ subst (λ x. (r.0).heap x ≡ none) (==→eq e.service a q) r.3
          | inr q ↦ r.4 a (==→ne e.service a q) ∙ s.unused a p
        ];
        counted = omega (arith, s.counted, SortedMap.length-erase d.dictionary_entries k e h);
      },
      λ j.
          view_of_same d.machine.heap (r.0).heap (erase k d.dictionary_entries) j same
          ∙ view_of-erase d.machine.heap d.dictionary_entries k j s.sorted,
      refl,
      r.5,
    )
