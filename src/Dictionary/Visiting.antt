-- ===== src/Dictionary/Visiting.antt =====
-- What a whole visit of the entries finds, and what it purges.
use oclock.Common.{
  ℕ, zero, suc, ◌+◌, ◌≤◌, ◌<◌, ◌≡◌, refl, sym, ap, subst, ◌∙◌, List, [], ◌∷◌, length, true, Option,
  none, some, All, All-map, Bool-cases, inl, inr, arith,
}
use oclock.Common.Str.{Str, str_eq, str_eq→eq, str_lt, str_lt_trans, str_lt_total, str_eq_sym}
use oclock.Common.SortedMap.{find, find_below, Sorted}
use oclock.Common.UpperBound.{above}
use oclock.TimerTick.{Result, ok}
use oclock.Dictionary.{Dictionary, DictionaryData, M, pure, and_then}
use oclock.Dictionary.Sound.{IsSound, view}
use oclock.Dictionary.Visit.{Next, get_next, visit, visit_all, purge_expired_dictionary_entries}
use oclock.Dictionary.Next.{IsSame, IsNext, IsSame-trans, and_then_ok, view-none, get_next_lem}

abbrev pub Found : Type 0
Found = List (Str × Str)

-- A visit from a key on: what it finds, in order, is what a reader sees behind the key, and entries that no
-- reader sees are gone.
pub record VisitOf (d : Dictionary) (key : Str) (r : Dictionary × Result (Option Found))
    : Type 0 where
  pub found : Found
  pub result : r.1 ≡ ok (some found)
  pub same : IsSame d r.0
  pub greater : All (λ e. str_lt key e.0 ≡ true) found
  pub sorted : Sorted found
  pub lists : (i : Str) → str_lt key i ≡ true → find i found ≡ view d i
  pub purged :
      (i : Str) → str_lt key i ≡ true → view d i ≡ none → find i (r.0).dictionary_entries ≡ none

ended :
    (d : Dictionary) (key : Str) (d' : Dictionary)
    → IsSame d d'
    → IsNext d key Next.at_end d'
    → VisitOf d key (d', ok (some []))
unfolding find
ended d key d' p x = record {
  found = [];
  result = refl;
  same = p;
  greater = tt;
  sorted = tt;
  lists = λ i l. sym (sym (p.same_view i) ∙ view-none d' i (x i l));
  purged = λ i l v. x i l;
}

none_ne : {v : Str} → ◌≡◌ {A = Option Str} none (some v) → ⊥
none_ne e = cc

longer :
    (d : Dictionary) (key : Str) (d' : Dictionary) (k value : Str)
    (r : Dictionary × Result (Option Found)) (rest : VisitOf d' k r)
    → IsSame d d'
    → IsNext d key (Next.at_key k value) d'
    → VisitOf d key (r.0, ok (some ((k, value) ∷ rest.found)))
unfolding find
longer d key d' k value r rest p x = record {
  found = (k, value) ∷ rest.found;
  result = refl;
  same = IsSame-trans p rest.same;
  greater = (x.0, All-map (λ e q. str_lt_trans key k e.0 x.0 q) rest.found rest.greater);
  sorted = (rest.greater, rest.sorted);
  lists = λ i l. elim (Bool-cases (str_eq k i)) [
    | inl e ↦ rw e (subst (λ (j : Str). some value ≡ view d j) (str_eq→eq k i e) (sym x.1))
    | inr e ↦ rw e (elim (Bool-cases (str_lt i k)) [
      | inl m ↦
          find_below i rest.found
            (All-map (λ y q. str_lt_trans i k y.0 m q) rest.found rest.greater)
          ∙ sym (sym (p.same_view i) ∙ view-none d' i (x.2 i l m))
      | inr m ↦ rest.lists i (str_lt_total i k (str_eq_sym k i e) m) ∙ p.same_view i
    ])
  ];
  purged = λ i l v. elim (Bool-cases (str_eq k i)) [
    | inl e ↦ absurd (none_ne (sym v ∙ sym (ap (view d) (str_eq→eq k i e)) ∙ x.1))
    | inr e ↦ elim (Bool-cases (str_lt i k)) [
      | inl m ↦ rest.same.gone i (x.2 i l m)
      | inr m ↦ rest.purged i (str_lt_total i k (str_eq_sym k i e) m) (p.same_view i ∙ v)
    ]
  ];
}

-- The rest of the loop behind the next key.
after_next : ℕ → Next → M (Option Found)
unfolding visit
after_next f next = elim next [
  | Next.out_of_fuel ↦ pure none
  | Next.at_end ↦ pure (some [])
  | Next.at_key k value ↦ λ d'.
      and_then (visit f k d')
        (λ found. elim found [ none ↦ pure none | some rest ↦ pure (some ((k, value) ∷ rest)) ])
]

after_next_lem :
    (f : ℕ) (d : Dictionary) (key : Str) (next : Next) (d' : Dictionary)
    → IsSame d d'
    → IsNext d key next d'
    → above key d.dictionary_entries < suc f
    → ((k : Str) → above k d'.dictionary_entries < f → VisitOf d' k (visit f k d'))
    → VisitOf d key (after_next f next d')
unfolding after_next
after_next_lem f d key Next.out_of_fuel d' p x h rest = absurd x
after_next_lem f d key Next.at_end d' p x h rest = ended d key d' p x
after_next_lem f d key (Next.at_key k value) d' p x h rest =
    let r = rest k (omega (arith, x.3, h)) in
    subst (VisitOf d key) (sym (and_then_ok (visit f k d') (some r.found) _ r.result))
      (longer d key d' k value (visit f k d') r p x)

visit_lem :
    (f : ℕ) (key : Str) (d : Dictionary)
    → IsSound d
    → above key d.dictionary_entries < f
    → VisitOf d key (visit f key d)
unfolding visit after_next
visit_lem zero key d s h = absurd (omega arith)
visit_lem (suc f) key d s h =
    let n = get_next_lem (suc f) key d s h in
    subst (VisitOf d key)
      (sym (and_then_ok (get_next (suc f) key d) n.next (after_next f) n.result))
      (after_next_lem f d key n.next (get_next (suc f) key d).0 n.same n.is_next h
        (λ k l. visit_lem f k (get_next (suc f) key d).0 n.same.sound l))

above-length : (k : Str) (d : List (Str × DictionaryData)) → above k d ≤ length d
unfolding above
above-length k [] = omega arith
above-length k (e ∷ m) = elim (Bool-cases (str_lt k e.0)) [
  | inl q ↦ rw q (omega (arith, above-length k m))
  | inr q ↦ rw q (omega (arith, above-length k m))
]

-- On a sound dictionary the visit of all entries ends without fault: it gives the keys that are not empty in
-- their order, each once, with exactly the values that a reader sees; no reader can tell that it
-- ran, and of the entries that have expired none is left.
pub visit_all_lem : (d : Dictionary) → IsSound d → VisitOf d [] (visit_all d)
unfolding visit_all
visit_all_lem d s =
    visit_lem (length d.dictionary_entries + 1) [] d s
      (omega (arith, above-length [] d.dictionary_entries))

-- The purge of a sound dictionary ends without fault, shows a reader no change, and leaves under a key that
-- is not empty no entry that a reader does not see.
pub purge_lem :
    (d : Dictionary)
    → IsSound d
    → ((purge_expired_dictionary_entries d).1 ≡ ok tt)
      × IsSame d (purge_expired_dictionary_entries d).0
      × ((i : Str)
          → str_lt [] i ≡ true
          → view d i ≡ none
          → find i ((purge_expired_dictionary_entries d).0).dictionary_entries ≡ none)
unfolding purge_expired_dictionary_entries
purge_lem d s =
    let v = visit_all_lem d s in
    let e = and_then_ok (visit_all d) (some v.found) (λ found. pure tt) v.result in
    (
      ap (λ p. p.1) e,
      subst (λ p. IsSame d p.0) (sym e) v.same,
      λ i l n. subst (λ p. find i (p.0).dictionary_entries ≡ none) (sym e) (v.purged i l n),
    )
