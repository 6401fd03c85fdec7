-- ===== src/Common/UpperBound.antt =====
-- `upper_bound` on an association list in the order of its keys.
use mathlib.Core.Path.{◌≡◌, refl, subst, ap}
use mathlib.Core.Logic.{inl, inr}
use mathlib.Core.Bool.{true, false}
use mathlib.Core.List.{List, [], ◌∷◌}
use mathlib.Core.Option.{Option, none, some}
use native.Mathlib.Omega.{arith}
use Prim.Native.Nat.{ℕ, ◌+◌, ◌≤◌, ◌<◌}
use oclock.Common.Tests.{if◌then◌else◌, Bool-cases, Option-cases}
use oclock.Common.Lists.{All, All-map}
use oclock.Common.Str.{
  Str, str_eq, str_lt, str_eq→eq, str_lt_trans, str_lt-ne_sym, str_lt_irrefl, str_eq_refl,
}
use oclock.Common.SortedMap.{find, erase, upper_bound, Sorted, find-All, find_below}

module _ {ℓ} {V : Type ℓ} where
  -- How many keys are greater.
  unfoldable pub above : Str → List (Str × V) → ℕ
  above k [] = 0
  above k ((j, v) ∷ m) = (if str_lt k j then 1 else 0) + above k m

  pub above-erase : (k j : Str) (m : List (Str × V)) → above j (erase k m) ≤ above j m
  unfolding above erase
  above-erase k j [] = omega arith
  above-erase k j ((i, v) ∷ m) = elim (Bool-cases (str_eq i k)) [
    | inl e ↦ rw e (omega arith)
    | inr e ↦ rw e (omega (arith, above-erase k j m))
  ]

  pub find-none-erase :
      (k j : Str) (m : List (Str × V)) → find j m ≡ none → find j (erase k m) ≡ none
  unfolding find erase
  find-none-erase k j [] h = refl
  find-none-erase k j ((i, v) ∷ m) h = elim (Bool-cases (str_eq i k)) [
    | inl e ↦ rw e (elim (Bool-cases (str_eq i j)) [ inl q ↦ ground arith | inr q ↦ rw q at h ])
    | inr e ↦ rw e (elim (Bool-cases (str_eq i j)) [
      | inl q ↦ ground arith
      | inr q ↦ rw q (find-none-erase k j m (rw q at h))
    ])
  ]

  above_mono : (k j : Str) (m : List (Str × V)) → str_lt k j ≡ true → above j m ≤ above k m
  unfolding above
  above_mono k j [] h = omega arith
  above_mono k j ((i, v) ∷ m) h = elim (Bool-cases (str_lt j i)) [
    | inl q ↦ rw (q, str_lt_trans k j i h q) (omega (arith, above_mono k j m h))
    | inr q ↦ rw q (omega (arith, above_mono k j m h))
  ]

  -- What `upper_bound` finds.
  pub record IsUpper (k : Str) (m : List (Str × V)) (e : Str × V) : Type ℓ where
    pub greater : str_lt k e.0 ≡ true
    pub found : find e.0 m ≡ some e.1
    pub first : (i : Str) → str_lt k i ≡ true → str_lt i e.0 ≡ true → find i m ≡ none
    pub fewer : above e.0 m < above k m

  none_above :
      (k : Str) (m : List (Str × V)) → upper_bound k m ≡ none → All (λ e. str_lt k e.0 ≡ false) m
  unfolding upper_bound
  none_above k [] h = tt
  none_above k ((j, v) ∷ m) h = elim (Bool-cases (str_lt k j)) [
    | inl q ↦ ground arith
    | inr q ↦ (q, none_above k m (rw q at h))
  ]

  pub upper_bound-none :
      (k : Str) (m : List (Str × V)) (i : Str)
      → upper_bound k m ≡ none
      → str_lt k i ≡ true
      → find i m ≡ none
  upper_bound-none k m i h l = elim (Option-cases (find i m)) [
    | inl e ↦ e
    | inr (v, e) ↦
        let q = find-All (λ e. str_lt k e.0 ≡ false) m i (none_above k m h) e in ground arith
  ]

  here :
      (k j : Str) (v : V) (m : List (Str × V))
      → Sorted ((j, v) ∷ m)
      → str_lt k j ≡ true
      → IsUpper k ((j, v) ∷ m) (j, v)
  unfolding find above
  here k j v m s q = record {
    greater = q;
    found = rw (str_eq_refl j) refl;
    first = λ i l n.
        rw (str_lt-ne_sym i j n) (find_below i m (All-map (λ e p. str_lt_trans i j e.0 n p) m s.0));
    fewer = rw (str_lt_irrefl j, q) (omega (arith, above_mono k j m q));
  }

  there :
      (k j : Str) (v : V) (m : List (Str × V)) (e : Str × V)
      → str_lt k j ≡ false
      → IsUpper k m e
      → IsUpper k ((j, v) ∷ m) e
  unfolding find above
  there k j v m e q r = record {
    greater = r.greater;
    found = rw (differs e.0 r.greater) r.found;
    first = λ i l n. rw (differs i l) (r.first i l n);
    fewer = rw (q, not_below) (omega (arith, r.fewer));
  }
    where
      differs : (i : Str) → str_lt k i ≡ true → str_eq j i ≡ false
      differs i l = elim (Bool-cases (str_eq j i)) [
        | inl t ↦
            let u = subst (λ (x : Str). str_lt k x ≡ false) (str_eq→eq j i t) q in ground arith
        | inr t ↦ t
      ]

      not_below : str_lt e.0 j ≡ false
      not_below = elim (Bool-cases (str_lt e.0 j)) [
        | inl t ↦ let u = str_lt_trans k e.0 j r.greater t in ground arith
        | inr t ↦ t
      ]

  some-injective : {a b : Str × V} → some a ≡ some b → a ≡ b
  some-injective {a = a} e = ap (λ (o : Option (Str × V)). elim o [ none ↦ a | some x ↦ x ]) e

  pub upper_bound-some :
      (k : Str) (m : List (Str × V)) (e : Str × V)
      → Sorted m
      → upper_bound k m ≡ some e
      → IsUpper k m e
  unfolding upper_bound
  upper_bound-some k [] e s h = cc
  upper_bound-some k ((j, v) ∷ m) e s h = elim (Bool-cases (str_lt k j)) [
    | inl q ↦ subst (IsUpper k ((j, v) ∷ m)) (some-injective (rw q at h)) (here k j v m s q)
    | inr q ↦ there k j v m e q (upper_bound-some k m e s.1 (rw q at h))
  ]
