-- ===== src/Common/Assign.antt =====
-- Assignments to a map, `m[k] = v`, one by one, and what a reader finds behind them.
use oclock.Common.Tests.{if◌then◌else◌, Bool-cases}
use oclock.Common.Lists.{All}
use oclock.Common.Str.{Str, str_eq, str_lt, str_lt_asymm, str_lt-ne, str_eq_refl}
use oclock.Common.SortedMap.{
  find, insert, erase, assign, Sorted, find-insert, find-erase, Sorted-insert, Sorted-erase,
}
use mathlib.Core.Path.{◌≡◌, refl, ap, ◌∙◌, sym, subst}
use mathlib.Core.Logic.{inl, inr}
use mathlib.Core.Bool.{true}
use mathlib.Core.List.{List, [], ◌∷◌, ◌++◌, append_assoc, append-nil}
use mathlib.Core.Option.{Option, none, some}

module _ {ℓ} {V : Type ℓ} where
  unfoldable pub assign_all : List (Str × V) → List (Str × V) → List (Str × V)
  unfolding assign
  assign_all [] m = m
  assign_all ((k, v) ∷ rest) m = assign_all rest (assign k v m)

  -- The value of the last pair with a key, or else what there was.
  abbrev pub last_value : Str → List (Str × V) → Option V → Option V
  last_value k [] o = o
  last_value k ((j, v) ∷ rest) o = last_value k rest (if str_eq j k then some v else o)

  absent : (k : Str) (m : List (Str × V)) → Sorted m → find k (erase k m) ≡ none
  absent k m s = find-erase k k m s ∙ rw (str_eq_refl k) refl

  pub Sorted-assign : (k : Str) (v : V) (m : List (Str × V)) → Sorted m → Sorted (assign k v m)
  unfolding assign
  Sorted-assign k v m s = Sorted-insert (erase k m) k v (absent k m s) (Sorted-erase m k s)

  pub find-assign :
      (k j : Str) (v : V) (m : List (Str × V))
      → Sorted m
      → find j (assign k v m) ≡ (if str_eq k j then some v else find j m)
  unfolding assign
  find-assign k j v m s =
      find-insert k j v (erase k m) (absent k m s) ∙ rw (find-erase k j m s) (joins k j)
    where
      joins :
          (k j : Str)
          → (if str_eq k j then some v else (if str_eq k j then none else find j m))
            ≡ (if str_eq k j then some v else find j m)
      joins k j = elim (Bool-cases (str_eq k j)) [ inl e ↦ rw e refl | inr e ↦ rw e refl ]

  pub Sorted-assign_all : (ps m : List (Str × V)) → Sorted m → Sorted (assign_all ps m)
  unfolding assign_all
  Sorted-assign_all [] m s = s
  Sorted-assign_all ((k, v) ∷ ps) m s = Sorted-assign_all ps (assign k v m) (Sorted-assign k v m s)

  pub find-assign_all :
      (j : Str) (ps m : List (Str × V))
      → Sorted m
      → find j (assign_all ps m) ≡ last_value j ps (find j m)
  unfolding assign_all
  find-assign_all j [] m s = refl
  find-assign_all j ((k, v) ∷ ps) m s =
      find-assign_all j ps (assign k v m) (Sorted-assign k v m s)
      ∙ ap (last_value j ps) (find-assign k j v m s)

  -- All keys come before a key.
  abbrev Before : Str → List (Str × V) → Type 0
  Before k m = All (λ (e : Str × V). str_lt e.0 k ≡ true) m

  erase-Before : (k : Str) (m : List (Str × V)) → Before k m → erase k m ≡ m
  unfolding erase
  erase-Before k [] h = refl
  erase-Before k ((j, w) ∷ m) h =
      rw (str_lt-ne j k h.0) (ap (λ (x : List (Str × V)). (j, w) ∷ x) (erase-Before k m h.1))

  insert-Before :
      (k : Str) (v : V) (m : List (Str × V)) → Before k m → insert k v m ≡ m ++ ((k, v) ∷ [])
  unfolding insert
  insert-Before k v [] h = refl
  insert-Before k v ((j, w) ∷ m) h =
      rw (str_lt_asymm j k h.0) (ap (λ (x : List (Str × V)). (j, w) ∷ x) (insert-Before k v m h.1))

  assign-Before :
      (k : Str) (v : V) (m : List (Str × V)) → Before k m → assign k v m ≡ m ++ ((k, v) ∷ [])
  unfolding assign
  assign-Before k v m h = rw (erase-Before k m h) (insert-Before k v m h)

  head-Before : (k : Str) (v : V) (m ps : List (Str × V)) → Sorted (m ++ ((k, v) ∷ ps)) → Before k m
  head-Before k v [] ps s = tt
  head-Before k v ((j, w) ∷ m) ps s = (in_the_middle m s.0, head-Before k v m ps s.1)
    where
      in_the_middle :
          (m : List (Str × V))
          → All (λ e. str_lt j e.0 ≡ true) (m ++ ((k, v) ∷ ps))
          → str_lt j k ≡ true
      in_the_middle [] a = a.0
      in_the_middle (x ∷ m) a = in_the_middle m a.1

  -- The entries of a map in their order, put behind smaller ones, stand there as they are.
  pub assign_all-append : (ps m : List (Str × V)) → Sorted (m ++ ps) → assign_all ps m ≡ m ++ ps
  unfolding assign_all
  assign_all-append [] m s = sym (append-nil m)
  assign_all-append ((k, v) ∷ ps) m s = rw (assign-Before k v m (head-Before k v m ps s)) (
      assign_all-append ps (m ++ ((k, v) ∷ []))
        (subst (λ x. Sorted x) (sym (append_assoc m ((k, v) ∷ []) ps)) s)
      ∙ append_assoc m ((k, v) ∷ []) ps)
