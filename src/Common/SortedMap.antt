-- ===== src/Common/SortedMap.antt =====
-- `std::map<std::string, V>` as an association list in the order of its keys.
use mathlib.Core.Path.{◌≡◌, refl, sym, subst, ap₂, ◌∙◌}
use mathlib.Core.Logic.{inl, inr}
use mathlib.Core.Bool.{true}
use mathlib.Core.List.{List, [], ◌∷◌}
use mathlib.Core.Option.{Option, none, some}
use native.Mathlib.Omega.{arith}
use oclock.Common.Tests.{if◌then◌else◌, Bool-cases}
use oclock.Common.Lists.{All, All-map, length}
use Prim.Native.Nat.{suc}
use oclock.Common.Str.{
  Str, str_eq, str_lt, str_eq→eq, str_lt_trans, str_lt-ne_sym, str_lt_total, str_eq_sym, str_eq→ne,
  ne→str_eq,
}

module _ {ℓ} {V : Type ℓ} where
  unfoldable pub find : Str → List (Str × V) → Option V
  find k [] = none
  find k ((j, v) ∷ m) = if str_eq j k then some v else find k m

  -- `insert` of a key that is absent.
  unfoldable pub insert : Str → V → List (Str × V) → List (Str × V)
  insert k v [] = (k, v) ∷ []
  insert k v ((j, w) ∷ m) = if str_lt k j then (k, v) ∷ (j, w) ∷ m else (j, w) ∷ insert k v m

  unfoldable pub erase : Str → List (Str × V) → List (Str × V)
  erase k [] = []
  erase k ((j, v) ∷ m) = if str_eq j k then m else (j, v) ∷ erase k m

  -- `operator[]` and an assignment.
  unfoldable pub assign : Str → V → List (Str × V) → List (Str × V)
  unfolding insert erase
  assign k v m = insert k v (erase k m)

  -- The first entry whose key is greater.
  unfoldable pub upper_bound : Str → List (Str × V) → Option (Str × V)
  upper_bound k [] = none
  upper_bound k ((j, v) ∷ m) = if str_lt k j then some (j, v) else upper_bound k m

  abbrev pub Sorted : List (Str × V) → Type ℓ
  Sorted [] = Unit
  Sorted ((k, v) ∷ m) = All (λ e. str_lt k e.0 ≡ true) m × Sorted m

  pub find-insert :
      (k j : Str) (v : V) (m : List (Str × V))
      → find k m ≡ none
      → find j (insert k v m) ≡ (if str_eq k j then some v else find j m)
  unfolding find insert
  find-insert k j v [] h = refl
  find-insert k j v ((i, w) ∷ m) h = elim (Bool-cases (str_eq i k)) [
    | inl e ↦ ground arith
    | inr e ↦ elim (Bool-cases (str_lt k i)) [
      | inl l ↦ rw l
      | inr l ↦ rw l (elim (Bool-cases (str_eq i j)) [
        | inl f ↦ rw f (
            subst (λ x. some w ≡ (if str_eq k x then some v else some w)) (str_eq→eq i j f)
              (rw (str_lt-ne_sym i k (str_lt_total k i (str_eq_sym i k e) l))))
        | inr f ↦ rw f (find-insert k j v m (ground arith))
      ])
    ]
  ]

  pub find-All {κ} :
      (P : Str × V → Type κ) (m : List (Str × V)) (k : Str) {v : V}
      → All P m
      → find k m ≡ some v
      → P (k, v)
  unfolding find
  find-All P [] k h e = cc
  find-All P ((j, w) ∷ m) k {v} h e = elim (Bool-cases (str_eq j k)) [
    | inl q ↦ subst P (ap₂ (λ (a : Str) (b : V). (a, b)) (str_eq→eq j k q) (ground arith)) h.0
    | inr q ↦ find-All P m k h.1 (ground arith)
  ]

  pub find_below :
      (k : Str) (m : List (Str × V)) → All (λ e. str_lt k e.0 ≡ true) m → find k m ≡ none
  unfolding find
  find_below k [] h = refl
  find_below k ((j, w) ∷ m) h = rw (str_lt-ne_sym k j h.0) (find_below k m h.1)

  pub find-erase :
      (k j : Str) (m : List (Str × V))
      → Sorted m
      → find j (erase k m) ≡ (if str_eq k j then none else find j m)
  unfolding find erase
  find-erase k j [] s = ground arith
  find-erase k j ((i, w) ∷ m) s = elim (Bool-cases (str_eq i k)) [
    | inl q ↦ rw q (elim (Bool-cases (str_eq k j)) [
      | inl r ↦ rw r (
          find_below j m
            (subst (λ x. All (λ e. str_lt x e.0 ≡ true) m) (str_eq→eq i k q ∙ str_eq→eq k j r) s.0))
      | inr r ↦ rw (r, ne→str_eq i j (λ e. str_eq→ne k j r (sym (str_eq→eq i k q) ∙ e))) refl
    ])
    | inr q ↦ rw q (elim (Bool-cases (str_eq i j)) [
      | inl r ↦ rw (r, ne→str_eq k j (λ e. str_eq→ne i k q (str_eq→eq i j r ∙ sym e))) refl
      | inr r ↦ rw r (find-erase k j m s.1)
    ])
  ]

  pub All-erase {κ} :
      (P : Str × V → Type κ) (m : List (Str × V)) (k : Str) → All P m → All P (erase k m)
  unfolding erase
  All-erase P [] k h = tt
  All-erase P ((j, w) ∷ m) k h = ground (arith, All-erase P m k h.1)

  pub All-insert {κ} :
      (P : Str × V → Type κ) (m : List (Str × V)) (k : Str) (v : V)
      → All P m
      → P (k, v)
      → All P (insert k v m)
  unfolding insert
  All-insert P [] k v h p = (p, tt)
  All-insert P ((j, w) ∷ m) k v h p = elim (Bool-cases (str_lt k j)) [
    | inl q ↦ rw q (p, h)
    | inr q ↦ rw q (h.0, All-insert P m k v h.1 p)
  ]

  pub Sorted-erase : (m : List (Str × V)) (k : Str) → Sorted m → Sorted (erase k m)
  unfolding erase
  Sorted-erase [] k s = tt
  Sorted-erase ((j, w) ∷ m) k s = elim (Bool-cases (str_eq j k)) [
    | inl q ↦ rw q s.1
    | inr q ↦ rw q (All-erase (λ e. str_lt j e.0 ≡ true) m k s.0, Sorted-erase m k s.1)
  ]

  pub Sorted-insert :
      (m : List (Str × V)) (k : Str) (v : V) → find k m ≡ none → Sorted m → Sorted (insert k v m)
  unfolding insert find
  Sorted-insert [] k v h s = (tt, tt)
  Sorted-insert ((j, w) ∷ m) k v h s = elim (Bool-cases (str_eq j k)) [
    | inl e ↦ ground arith
    | inr e ↦ elim (Bool-cases (str_lt k j)) [
      | inl q ↦ rw q ((q, All-map (λ x p. str_lt_trans k j x.0 q p) m s.0), s)
      | inr q ↦ rw q (
        All-insert (λ x. str_lt j x.0 ≡ true) m k v s.0 (str_lt_total k j (str_eq_sym j k e) q),
        Sorted-insert m k v (ground arith) s.1,
      )
    ]
  ]

  pub length-insert :
      (m : List (Str × V)) (k : Str) (v : V) → length (insert k v m) ≡ suc (length m)
  unfolding insert
  length-insert [] k v = refl
  length-insert ((j, w) ∷ m) k v = ground (arith, length-insert m k v)

  pub length-erase :
      (m : List (Str × V)) (k : Str) (v : V)
      → find k m ≡ some v
      → length m ≡ suc (length (erase k m))
  unfolding erase find
  length-erase [] k v h = cc
  length-erase ((j, w) ∷ m) k v h = ground (arith, length-erase m k v)
