-- ===== src/Dictionary/Adding.antt =====
-- `add`: a new entry, its timer service and what a reader sees of it.
use oclock.Common.{
  ℕ, ◌+◌, ◌^◌, ◌<◌, ◌≡◌, ◌≢◌, refl, sym, ap, subst, ◌∙◌, Bool, true, not, ◌&&◌, Option, none, some,
  arith, if◌then◌else◌, Option-cases, Bool-cases, inl, inr, [], ◌∷◌, All, All-map, All-map₂,
}
use oclock.Common.Assoc.{Distinct}
use oclock.Common.Int.{ℤ, pos, negsuc, is_negative}
use oclock.Common.Str.{Str, str_eq, str_lt}
use oclock.Common.SortedMap.{find, insert, Sorted}
use oclock.Common.SortedMap
use oclock.TimerTick.{Service, ok}
use oclock.TimerTick.Period.{start_ticks_pos, IsStarted}
use oclock.Dictionary.{
  Dictionary, DictionaryData, data_is_expired, get, add, and_then, pure, with_machine,
  is_no_expiration, insert_entry, insert_data, ◌>>◌, count_added, modify, add_absent,
}
use oclock.Dictionary.Memory.{new_data_lem, IsNewData}
use oclock.Dictionary.Sound.{
  IsSound, IsLive, Entries, services_of, view, view_of, value_of, view_of_same,
}
use oclock.Dictionary.Access.{Reads, get-Reads, is_some}

-- A negative interval other than `noExpiration` makes an entry that has expired from the start.
unfoldable pub is_born_expired : ℤ → Bool
unfolding is_no_expiration
is_born_expired i = is_negative i && not (is_no_expiration i)

new_data-expired : (i : ℤ) (o : Service) → IsNewData i o → data_is_expired o ≡ is_born_expired i
unfolding data_is_expired is_born_expired
new_data-expired (pos n) o k =
    let started : IsStarted o = k.started refl in
    rw k.interval (ground (arith, started.full, start_ticks_pos o.interval))
new_data-expired (negsuc n) o k = rw (k.interval, k.idle refl) (ground arith)

All-services-insert :
    (P : ℕ → Type 0) (m : Entries) (k : Str) (e : DictionaryData)
    → All P (services_of m)
    → P e.service
    → All P (services_of (insert k e m))
unfolding insert
All-services-insert P [] k e h p = (p, tt)
All-services-insert P ((j, w) ∷ m) k e h p = elim (Bool-cases (str_lt k j)) [
  | inl q ↦ rw q (p, h)
  | inr q ↦ rw q (h.0, All-services-insert P m k e h.1 p)
]

own_services-insert :
    (m : Entries) (k : Str) (e : DictionaryData)
    → All (λ a. e.service ≢ a) (services_of m)
    → Distinct (services_of m)
    → Distinct (services_of (insert k e m))
unfolding insert
own_services-insert [] k e h d = (tt, tt)
own_services-insert ((j, w) ∷ m) k e h d = elim (Bool-cases (str_lt k j)) [
  | inl q ↦ rw q (h, d)
  | inr q ↦ rw q (
    All-services-insert (λ a. w.service ≢ a) m k e d.0 (λ x. h.0 (sym x)),
    own_services-insert m k e h.1 d.1,
  )
]

live_services :
    (heap : ℕ → Option Service) (m : Entries) (a : ℕ)
    → heap a ≡ none
    → All (IsLive heap) m
    → All (λ e. a ≢ e.1.service) m × All (λ b. a ≢ b) (services_of m)
live_services heap [] a h l = (tt, tt)
live_services heap (e ∷ m) a h l =
    let rest = live_services heap m a h l.1 in
    let other : a ≢ e.1.service = λ q. clash (l.0) (subst (λ x. heap x ≡ none) q h) in
    ((other, rest.0), (other, rest.1))
  where
    clash : IsLive heap e → heap (e.1.service) ≡ none → ⊥
    clash x y = cc (x.1)

-- What a reader sees of a value that is added with an interval.
abbrev pub seen : Str → ℤ → Option Str
seen v i = if is_born_expired i then none else some v

view_of-insert :
    (heap : ℕ → Option Service) (m : Entries) (k j : Str) (e : DictionaryData) (o : Service) (i : ℤ)
    → find k m ≡ none
    → heap e.service ≡ some o
    → data_is_expired o ≡ is_born_expired i
    → view_of heap (insert k e m) j ≡ (if str_eq k j then seen e.value i else view_of heap m j)
unfolding view_of value_of
view_of-insert heap m k j e o i h l x = elim (Bool-cases (str_eq k j)) [
  | inl q ↦ rw (view_of, SortedMap.find-insert k j e m h, q, value_of, l, x)
  | inr q ↦ rw (view_of, SortedMap.find-insert k j e m h, q)
]

insert_entry_lem :
    (d : Dictionary) (k v : Str) (i : ℤ)
    → IsSound d
    → find k d.dictionary_entries ≡ none
    → d.machine.next_id + 1 < 2 ^ 64
    → (d' : Dictionary) × (insert_entry k v i d ≡ (d', ok true))
      × IsSound d'
      × ((j : Str) → view d' j ≡ (if str_eq k j then seen v i else view d j))
unfolding insert_entry insert_data count_added
insert_entry_lem d k v i s h ids =
    let a = d.next_address in
    let m = d.dictionary_entries in
    let e : DictionaryData = record { value = v; service = a } in
    let unused : d.machine.heap a ≡ none = s.unused a (omega arith) in
    let r = new_data_lem a i d.machine s.machine unused ids in
    let apart = live_services d.machine.heap m a unused s.live in
    let same : All (λ x. (r.0).heap (x.1.service) ≡ d.machine.heap (x.1.service)) m =
      All-map (λ x n. r.6 (x.1.service) n) m apart.0 in
    let d1 = record d { next_address = a + 1 } in
    (
      insert_data k v a (record d1 { machine = r.0 }),
      ap (λ p. and_then (with_machine d1 p) (λ _. modify (insert_data k v a) >> pure true)) r.2,
      record {
        machine = r.3;
        sorted = SortedMap.Sorted-insert m k e h s.sorted;
        live =
            SortedMap.All-insert (IsLive (r.0).heap) m k e
              (All-map₂ (λ x p q. (p.0, q ∙ p.1)) m s.live same) (r.1, r.4);
        own_services = own_services-insert m k e apart.1 s.own_services;
        unused = λ b p. r.6 b (λ q. absurd (omega arith)) ∙ s.unused b (omega arith);
        counted = omega (arith, s.counted, SortedMap.length-insert m k e);
      },
      λ j.
          view_of-insert (r.0).heap m k j e r.1 i h r.4 (new_data-expired i r.1 r.5)
          ∙ rw (view_of_same d.machine.heap (r.0).heap m j same),
    )

-- `add` never fails while ids last. It adds exactly if the key is not empty and a reader finds no
-- value under it; then a reader finds the new value, unless its interval is negative and not
-- `noExpiration`, and what other keys show stays. Otherwise a reader sees no change.
pub add_lem :
    (d : Dictionary) (k v : Str) (i : ℤ)
    → IsSound d
    → d.machine.next_id + 1 < 2 ^ 64
    → let adds = not (str_eq k []) && not (is_some (view d k)) in
      (d' : Dictionary) × (add k v i d ≡ (d', ok adds))
      × IsSound d'
      × ((j : Str) → view d' j ≡ (if adds && str_eq k j then seen v i else view d j))
unfolding add add_absent
add_lem d k v i s ids = elim (Bool-cases (str_eq k [])) [
  | inl e ↦ (d, rw (e, add), s, λ j. rw e)
  | inr e ↦ elim (Option-cases (view d k)) [
    | inr (x, f) ↦ (
      (get k d).0,
      rw (e, f, add) (ap (λ r. and_then ((get k d).0, r) (add_absent k v i)) (g.result ∙ ap ok f)),
      g.sound,
      λ j. rw (e, f) (g.same_view j),
    )
    | inl f ↦
        let r = insert_entry_lem (get k d).0 k v i g.sound (g.absent f) (rw g.next ids) in
        (
          r.0,
          rw (e, f, add)
              (ap (λ r. and_then ((get k d).0, r) (add_absent k v i)) (g.result ∙ ap ok f) ∙ r.1),
          r.2,
          λ j. rw (e, f) (r.3 j ∙ rw (g.same_view j)),
        )
  ]
]
  where
    g : Reads d k (get k d)
    g = get-Reads d k s
