-- ===== src/Dictionary/Next.antt =====
-- What the visit of the entries finds, and that its fuel is enough.
use oclock.Common.{
  ℕ, zero, suc, ◌≤◌, ◌<◌, ◌≡◌, refl, sym, ap, subst, ◌∙◌, true, Option, none, some, Bool-cases,
  Option-cases, inl, inr, arith,
}
use oclock.Common.Str.{Str, str_eq, str_eq→eq, str_lt, str_lt_trans, str_lt_total}
use oclock.Common.SortedMap.{find, upper_bound}
use oclock.Common.UpperBound.{above, upper_bound-none, upper_bound-some}
use oclock.TimerTick.{Result, ok}
use oclock.Dictionary.{Dictionary, and_then, get}
use oclock.Dictionary.Sound.{IsSound, view, view_of}
use oclock.Dictionary.Access.{Reads, get-Reads}
use oclock.Dictionary.Visit.{Next, get_next}

-- Nothing between two keys, or behind one.
abbrev pub NoneBetween : Dictionary → Str → Str → Type 0
NoneBetween d key k =
    (i : Str) → str_lt key i ≡ true → str_lt i k ≡ true → find i d.dictionary_entries ≡ none

abbrev pub IsNext : Dictionary → Str → Next → Dictionary → Type 0
IsNext d key Next.out_of_fuel d' = ⊥
IsNext d key Next.at_end d' = (i : Str) → str_lt key i ≡ true → find i d'.dictionary_entries ≡ none
IsNext d key (Next.at_key k value) d' =
    (str_lt key k ≡ true)
    × (view d k ≡ some value)
    × NoneBetween d' key k
    × (above k d'.dictionary_entries < above key d.dictionary_entries)

-- A reader cannot tell that a method was called, and no entry is new.
pub record IsSame (d d' : Dictionary) : Type 0 where
  pub sound : IsSound d'
  pub same_view : (j : Str) → view d' j ≡ view d j
  pub fewer : (j : Str) → above j d'.dictionary_entries ≤ above j d.dictionary_entries
  pub gone : (j : Str) → find j d.dictionary_entries ≡ none → find j d'.dictionary_entries ≡ none

pub IsSame-refl : (d : Dictionary) → IsSound d → IsSame d d
IsSame-refl d s = record {
  sound = s;
  same_view = λ j. refl;
  fewer = λ j. omega arith;
  gone = λ j h. h;
}

pub IsSame-trans : {d e f : Dictionary} → IsSame d e → IsSame e f → IsSame d f
IsSame-trans p q = record {
  sound = q.sound;
  same_view = λ j. q.same_view j ∙ p.same_view j;
  fewer = λ j. omega (arith, p.fewer j, q.fewer j);
  gone = λ j h. q.gone j (p.gone j h);
}

Reads-IsSame :
    {d : Dictionary} {k : Str} {r : Dictionary × Result (Option Str)} → Reads d k r → IsSame d r.0
Reads-IsSame p = record { sound = p.sound; same_view = p.same_view; fewer = p.fewer; gone = p.gone }

pub record NextOf (d : Dictionary) (key : Str) (r : Dictionary × Result Next) : Type 0 where
  pub next : Next
  pub result : r.1 ≡ ok next
  pub same : IsSame d r.0
  pub is_next : IsNext d key next r.0

pub and_then_ok :
    {A B : Type 0} (p : Dictionary × Result A) (a : A) (f : A → Dictionary → Dictionary × Result B)
    → p.1 ≡ ok a
    → and_then p f ≡ f a p.0
and_then_ok (d, r) a f e = ap (λ x. and_then (d, x) f) e

pub view-none : (d : Dictionary) (i : Str) → find i d.dictionary_entries ≡ none → view d i ≡ none
unfolding view_of
view-none d i h = rw (view_of, h)

-- Three cases on two keys.
between :
    (d : Dictionary) (key k i : Str)
    → ((j : Str) → str_lt key j ≡ true → str_lt j k ≡ true → find j d.dictionary_entries ≡ none)
    → find k d.dictionary_entries ≡ none
    → (str_lt k i ≡ true → find i d.dictionary_entries ≡ none)
    → str_lt key i ≡ true
    → find i d.dictionary_entries ≡ none
between d key k i low at high l = elim (Bool-cases (str_eq i k)) [
  | inl e ↦ subst (λ (x : Str). find x d.dictionary_entries ≡ none) (sym (str_eq→eq i k e)) at
  | inr e ↦ elim (Bool-cases (str_lt i k)) [
    | inl q ↦ low i l q
    | inr q ↦ high (str_lt_total i k e q)
  ]
]

-- The next key behind one whose entry has expired is the next key.
skipped :
    {d e f : Dictionary} (key k : Str) (n : Next)
    → str_lt key k ≡ true
    → IsSame d e
    → IsSame e f
    → NoneBetween d key k
    → find k e.dictionary_entries ≡ none
    → above k d.dictionary_entries < above key d.dictionary_entries
    → IsNext e k n f
    → IsNext d key n f
skipped key k Next.out_of_fuel l p q h at a x = x
skipped {f = f} key k Next.at_end l p q h at a x =
    λ i m. between f key k i (λ j u v. q.gone j (p.gone j (h j u v))) (q.gone k at) (x i) m
skipped {f = f} key k (Next.at_key k' value) l p q h at a x = (
  str_lt_trans key k k' l x.0,
  sym (p.same_view k') ∙ x.1,
  λ i m n.
      between f key k i (λ j u v. q.gone j (p.gone j (h j u v))) (q.gone k at) (λ o. x.2 i o n) m,
  omega (arith, x.3, a, p.fewer k),
)

-- With fuel for the keys that are greater `getNext` ends without fault, at the first greater key that has a value
-- for a reader, with that value; it drops the expired entries on its way.
pub get_next_lem :
    (f : ℕ) (key : Str) (d : Dictionary)
    → IsSound d
    → above key d.dictionary_entries < f
    → NextOf d key (get_next f key d)
unfolding get_next
get_next_lem zero key d s h = absurd (omega arith)
get_next_lem (suc f) key d s h = elim (Option-cases (upper_bound key d.dictionary_entries)) [
  | inl e ↦ subst (NextOf d key) (sym (rw (get_next, e) refl)) (record {
    next = Next.at_end;
    result = refl;
    same = IsSame-refl d s;
    is_next = λ i l. upper_bound-none key d.dictionary_entries i e l;
  })
  | inr (x, e) ↦
      let u = upper_bound-some key d.dictionary_entries x s.sorted e in
      let r = get-Reads d x.0 s in
      let same = Reads-IsSame {d = d} {k = x.0} {r = get x.0 d} r in
      elim (Option-cases (view d x.0)) [
        | inr (v, q) ↦
            subst (NextOf d key)
              (sym (rw (get_next, e) (and_then_ok (get x.0 d) (some v) _ (r.result ∙ ap ok q))))
              (record {
                next = Next.at_key x.0 v;
                result = refl;
                same = same;
                is_next = (
                  u.greater,
                  q,
                  λ i l n. r.gone i (u.first i l n),
                  omega (arith, u.fewer, r.fewer x.0),
                );
              })
        | inl q ↦
            let rest =
              get_next_lem f x.0 (get x.0 d).0 r.sound (omega (arith, u.fewer, r.fewer x.0, h)) in
            subst (NextOf d key)
              (sym (rw (get_next, e) (and_then_ok (get x.0 d) none _ (r.result ∙ ap ok q))))
              (record {
                next = rest.next;
                result = rest.result;
                same = IsSame-trans same rest.same;
                is_next =
                    skipped key x.0 rest.next u.greater same rest.same u.first (r.absent q) u.fewer
                      rest.is_next;
              })
      ]
]
