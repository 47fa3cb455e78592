-- ===== src/Prelude/Map.antt =====
-- Rust's `HashMap` as an association list with one entry for each key. The order of the entries
-- stands for the iteration order, which Rust leaves open.
use mathlib.Core.Path.{◌≡◌, refl}
use mathlib.Core.List.{List, [], ◌∷◌}
use mathlib.Core.Option.{Option, none, some}
use native.Mathlib.Omega.{arith}
use mathlib.Core.Path.{subst}
use mathlib.Core.Logic.{inl, inr}
use Prim.Native.Nat.{◌+◌}
use sdkwork_discovery.Prelude.Lists.{length}
use sdkwork_discovery.Prelude.Tests.{Bool-cases}
use sdkwork_discovery.Prelude.Tests.{PartialEq, ◌==◌, if◌then◌else◌, ==_refl}

abbrev pub Map {ℓ κ} : Type ℓ → Type κ → Type (ℓ ⊔ κ)
Map K V = List (K × V)

module _ {ℓ κ} {K : Type ℓ} {V : Type κ} ⦃e : PartialEq K⦄ where
  -- `get`
  unfoldable pub get : K → Map K V → Option V
  get k [] = none
  get k ((j, v) ∷ m) = let rest = get k m in if j == k then some v else rest

  -- `insert`: the old value is replaced in place.
  unfoldable pub insert : K → V → Map K V → Map K V
  insert k v [] = (k, v) ∷ []
  insert k v ((j, w) ∷ m) = let rest = insert k v m in if j == k then (k, v) ∷ m else (j, w) ∷ rest

  -- `remove`
  unfoldable pub remove : K → Map K V → Map K V
  remove k [] = []
  remove k ((j, w) ∷ m) = let rest = remove k m in if j == k then rest else (j, w) ∷ rest

  pub get-insert :
      (k j : K) (v : V) (m : Map K V) → get j (insert k v m) ≡ (if k == j then some v else get j m)
  unfolding get insert
  get-insert k j v [] = refl
  get-insert k j v ((i, w) ∷ m) =
      ground (arith, e.is_same_iff k j, e.is_same_iff i k, e.is_same_iff i j, get-insert k j v m)

  pub get-remove : (k j : K) (m : Map K V) → get j (remove k m) ≡ (if k == j then none else get j m)
  unfolding get remove
  get-remove k j [] = ground arith
  get-remove k j ((i, w) ∷ m) =
      ground (arith, e.is_same_iff k j, e.is_same_iff i k, e.is_same_iff i j, get-remove k j m)

  pub get-insert_self : (k : K) (v : V) (m : Map K V) → get k (insert k v m) ≡ some v
  get-insert_self k v m = simp (get-insert, ==_refl)

  -- No key has two entries.
  abbrev pub Distinct : Map K V → Type κ
  Distinct [] = Unit
  Distinct ((k, v) ∷ m) = (get k m ≡ none) × Distinct m

  pub insert-Distinct : (k : K) (v : V) (m : Map K V) → Distinct m → Distinct (insert k v m)
  unfolding insert get
  insert-Distinct k v [] d = (refl, tt)
  insert-Distinct k v ((j, w) ∷ m) d =
      ground
        (arith, e.is_same_iff j k, e.is_same_iff k j, get-insert k j v m, insert-Distinct k v m d.1)

  pub remove-Distinct : (k : K) (m : Map K V) → Distinct m → Distinct (remove k m)
  unfolding remove
  remove-Distinct k [] d = d
  remove-Distinct k ((j, w) ∷ m) d =
      ground
        (arith, e.is_same_iff j k, e.is_same_iff k j, get-remove k j m, remove-Distinct k m d.1)

module _ {ℓ κ} {K : Type ℓ} {V : Type κ} ⦃e : PartialEq K⦄ where
  length-remove_absent : (k : K) (m : Map K V) → get k m ≡ none → length (remove k m) ≡ length m
  unfolding remove get
  length-remove_absent k [] at = refl
  length-remove_absent k ((j, w) ∷ m) at = ground (arith, at, length-remove_absent k m)

  -- Removing the one entry of a key leaves one entry fewer.
  pub length-remove :
      (k : K) (v : V) (m : Map K V)
      → Distinct m
      → get k m ≡ some v
      → length (remove k m) + 1 ≡ length m
  unfolding remove get
  length-remove k v [] d at = cc
  length-remove k v ((j, w) ∷ m) d at = elim (Bool-cases (e.is_same j k)) [
    | inl t ↦
        let same : j ≡ k = (e.is_same_iff j k).0 t in
        let absent : get k m ≡ none = subst (λ x. get x m ≡ none) same d.0 in
        rw t (omega (arith, length-remove_absent k m absent))
    | inr f ↦ rw f (omega (arith, length-remove k v m d.1 (rw f at at)))
  ]

-- `values`
abbrev pub values {ℓ κ} : {K : Type ℓ} {V : Type κ} → Map K V → List V
values [] = []
values ((k, v) ∷ m) = v ∷ values m

pub ruleset map_laws = (get-insert, get-remove)
