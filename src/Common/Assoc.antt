-- ===== src/Common/Assoc.antt =====
-- Association lists with number keys, for the program's unordered maps. A map is iterated in the
-- order of its list, which is arbitrary.
use Prim.Native.Nat.{ℕ, ◌<◌}
use mathlib.Core.Path.{◌≡◌, refl, sym, ap₂, subst}
use mathlib.Core.Logic.{◌≢◌, inl, inr}
use mathlib.Core.List.{List, [], ◌∷◌, ◌++◌, map}
use mathlib.Core.Option.{Option, none, some}
use mathlib.Core.Option
use native.Mathlib.Omega.{arith}
use oclock.Common.Tests.{◌==◌, if◌then◌else◌, Bool-cases, ==→eq, ==→ne}
use oclock.Common.Lists.{All}

module _ {ℓ} {V : Type ℓ} where
  -- The map's `find`.
  unfoldable pub lookup : ℕ → List (ℕ × V) → Option V
  lookup k [] = none
  lookup k ((j, v) ∷ m) = if j == k then some v else lookup k m

  -- `insert` of a key that is absent.
  unfoldable pub insert : ℕ → V → List (ℕ × V) → List (ℕ × V)
  insert k v m = m ++ (k, v) ∷ []

  unfoldable pub erase : ℕ → List (ℕ × V) → List (ℕ × V)
  erase k [] = []
  erase k ((j, v) ∷ m) = if j == k then m else (j, v) ∷ erase k m

  -- A write through the reference that `find` gives.
  unfoldable pub modify : ℕ → (V → V) → List (ℕ × V) → List (ℕ × V)
  modify k f [] = []
  modify k f ((j, v) ∷ m) = if j == k then (j, f v) ∷ m else (j, v) ∷ modify k f m

  abbrev pub keys : List (ℕ × V) → List ℕ
  keys = map λ e. e.0

  pub lookup-insert :
      (k j : ℕ) (v : V) (m : List (ℕ × V))
      → lookup k m ≡ none
      → lookup j (insert k v m) ≡ (if k == j then some v else lookup j m)
  unfolding lookup insert
  lookup-insert k j v [] h = refl
  lookup-insert k j v ((i, w) ∷ m) h = ground (arith, lookup-insert k j v m)

  pub lookup-modify :
      (k j : ℕ) (f : V → V) (m : List (ℕ × V))
      → lookup j (modify k f m) ≡ (if k == j then Option.map f (lookup j m) else lookup j m)
  unfolding lookup modify
  lookup-modify k j f [] = ground arith
  lookup-modify k j f ((i, w) ∷ m) = ground (arith, lookup-modify k j f m)

  pub lookup-erase_ne : (k j : ℕ) (m : List (ℕ × V)) → k ≢ j → lookup j (erase k m) ≡ lookup j m
  unfolding lookup erase
  lookup-erase_ne k j [] h = refl
  lookup-erase_ne k j ((i, w) ∷ m) h = ground (arith, lookup-erase_ne k j m h)

  pub keys-modify : (k : ℕ) (f : V → V) (m : List (ℕ × V)) → keys (modify k f m) ≡ keys m
  unfolding modify
  keys-modify k f [] = refl
  keys-modify k f ((i, w) ∷ m) = ground (arith, keys-modify k f m)

-- Pairwise different numbers.
abbrev pub Distinct : List ℕ → Type 0
Distinct [] = Unit {0}
Distinct (x ∷ xs) = All (λ y. x ≢ y) xs × Distinct xs

module _ {ℓ} {V : Type ℓ} where
  pub lookup-All {κ} :
      (P : ℕ × V → Type κ) (m : List (ℕ × V)) (k : ℕ) {v : V}
      → All P m
      → lookup k m ≡ some v
      → P (k, v)
  unfolding lookup
  lookup-All P [] k h e = cc
  lookup-All P ((j, w) ∷ m) k {v} h e = elim (Bool-cases (j == k)) [
    | inl q ↦ subst P (ap₂ (λ (a : ℕ) (b : V). (a, b)) (==→eq j k q) (ground arith)) h.0
    | inr q ↦ lookup-All P m k h.1 (ground arith)
  ]

  pub All-insert {κ} :
      (P : ℕ × V → Type κ) (m : List (ℕ × V)) (k : ℕ) (v : V)
      → All P m
      → P (k, v)
      → All P (insert k v m)
  unfolding insert
  All-insert P [] k v h p = (p, tt)
  All-insert P ((j, w) ∷ m) k v h p = (h.0, All-insert P m k v h.1 p)

  pub All-erase {κ} : (P : ℕ × V → Type κ) (m : List (ℕ × V)) (k : ℕ) → All P m → All P (erase k m)
  unfolding erase
  All-erase P [] k h = tt
  All-erase P ((j, w) ∷ m) k h = ground (arith, All-erase P m k h.1)

  pub lookup_absent : (m : List (ℕ × V)) (k : ℕ) → All (λ j. k ≢ j) (keys m) → lookup k m ≡ none
  unfolding lookup
  lookup_absent [] k h = refl
  lookup_absent ((j, w) ∷ m) k h = ground (arith, lookup_absent m k h.1)

  pub absent_lookup : (m : List (ℕ × V)) (k : ℕ) → lookup k m ≡ none → All (λ j. k ≢ j) (keys m)
  unfolding lookup
  absent_lookup [] k h = tt
  absent_lookup ((j, w) ∷ m) k h = elim (Bool-cases (j == k)) [
    | inl q ↦ ground arith
    | inr q ↦ (λ e. ==→ne j k q (sym e), absent_lookup m k (ground arith))
  ]

  pub lookup-erase :
      (k j : ℕ) (m : List (ℕ × V))
      → Distinct (keys m)
      → lookup j (erase k m) ≡ (if k == j then none else lookup j m)
  unfolding lookup erase
  lookup-erase k j [] d = ground arith
  lookup-erase k j ((i, w) ∷ m) d = elim (Bool-cases (i == k)) [
    | inl q ↦ ground (arith, q, lookup_absent m i d.0, lookup-erase k j m d.1)
    | inr q ↦ ground (arith, q, lookup-erase k j m d.1)
  ]

  All-keys-erase {κ} :
      (P : ℕ → Type κ) (m : List (ℕ × V)) (k : ℕ) → All P (keys m) → All P (keys (erase k m))
  unfolding erase
  All-keys-erase P [] k h = tt
  All-keys-erase P ((j, w) ∷ m) k h = ground (arith, All-keys-erase P m k h.1)

  pub Distinct-erase : (m : List (ℕ × V)) (k : ℕ) → Distinct (keys m) → Distinct (keys (erase k m))
  unfolding erase
  Distinct-erase [] k d = tt
  Distinct-erase ((j, w) ∷ m) k d = elim (Bool-cases (j == k)) [
    | inl q ↦ rw q d.1
    | inr q ↦ rw q (All-keys-erase (λ y. j ≢ y) m k d.0, Distinct-erase m k d.1)
  ]

  pub erase_ne : (m : List (ℕ × V)) (k : ℕ) → Distinct (keys m) → All (λ e. k ≢ e.0) (erase k m)
  unfolding erase
  erase_ne [] k d = tt
  erase_ne ((j, w) ∷ m) k d = elim (Bool-cases (j == k)) [
    | inl q ↦ rw q (absent_entries m k (subst (λ x. All (λ y. x ≢ y) (keys m)) (==→eq j k q) d.0))
    | inr q ↦ rw q (λ e. ==→ne j k q (sym e), erase_ne m k d.1)
  ]
    where
      absent_entries : (l : List (ℕ × V)) (i : ℕ) → All (λ y. i ≢ y) (keys l) → All (λ e. i ≢ e.0) l
      absent_entries [] i h = tt
      absent_entries (e ∷ l) i h = (h.0, absent_entries l i h.1)

  pub absent_keys : (m : List (ℕ × V)) (k : ℕ) → All (λ e. e.0 < k) m → All (λ j. k ≢ j) (keys m)
  absent_keys [] k h = tt
  absent_keys (e ∷ m) k h = (omega arith, absent_keys m k h.1)

  All-keys-insert {κ} :
      (P : ℕ → Type κ) (m : List (ℕ × V)) (k : ℕ) (v : V)
      → All P (keys m)
      → P k
      → All P (keys (insert k v m))
  unfolding insert
  All-keys-insert P [] k v h p = (p, tt)
  All-keys-insert P ((j, w) ∷ m) k v h p = (h.0, All-keys-insert P m k v h.1 p)

  pub Distinct-insert :
      (m : List (ℕ × V)) (k : ℕ) (v : V)
      → All (λ j. k ≢ j) (keys m)
      → Distinct (keys m)
      → Distinct (keys (insert k v m))
  unfolding insert
  Distinct-insert [] k v h d = (tt, tt)
  Distinct-insert ((j, w) ∷ m) k v h d =
      (All-keys-insert (λ y. j ≢ y) m k v d.0 (λ e. h.0 (sym e)), Distinct-insert m k v h.1 d.1)

-- Memory: a function from addresses to what lies there.
unfoldable pub update {ℓ} : {A : Type ℓ} → ℕ → A → (ℕ → A) → ℕ → A
update a v f b = if a == b then v else f b
