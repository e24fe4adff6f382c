-- ===== src/Base/Dict.antt =====
-- String-keyed objects and maps in insertion order: `Record<string, V>` and `Map<string, V>`.
-- (An object also moves keys that spell array indices to the front; no function here depends on
-- the order of an object's keys.)
use mathlib.Core.Path.{◌≡◌, refl}
use mathlib.Core.Bool.{Bool}
use mathlib.Core.Option.{Option, none, some}
use mathlib.Core.List.{List, [], ◌∷◌, map}
use native.Mathlib.Omega.{arith}
use horizon_new_dawn.Base.Tests.{if◌then◌else◌}
use horizon_new_dawn.Base.Equality.{Eq, ◌==◌}
use horizon_new_dawn.Base.Lists.{keep}

abbrev pub Dict {ℓ κ} : Type ℓ → Type κ → Type (ℓ ⊔ κ)
Dict K V = List (K × V)

-- What is left of a value under a test.
abbrev pub only {κ} : {V : Type κ} → (V → Bool) → Option V → Option V
only p none = none
only p (some v) = if p v then some v else none

module _ {ℓ κ} {K : Type ℓ} {V : Type κ} where
  -- `Object.fromEntries(Object.entries(d).filter(([, v]) => p(v)))`
  abbrev pub keep_values : (V → Bool) → Dict K V → Dict K V
  keep_values p = keep (λ (entry : K × V). p entry.1)

  abbrev pub values : Dict K V → List V
  values = map (λ entry. entry.1)

module _ {ℓ κ} {K : Type ℓ} {V : Type κ} ⦃e : Eq K⦄ where
  unfoldable pub lookup : K → Dict K V → Option V
  lookup k [] = none
  lookup k ((j, v) ∷ d) = let rest = lookup k d in if j == k then some v else rest

  -- `{ ...d, [k]: v }`: a key that is there keeps its place.
  unfoldable pub insert : K → V → Dict K V → Dict K V
  insert k v [] = (k, v) ∷ []
  insert k v ((j, w) ∷ d) = let rest = insert k v d in if j == k then (k, v) ∷ d else (j, w) ∷ rest

  -- `delete d[k]`
  unfoldable pub erase : K → Dict K V → Dict K V
  erase k [] = []
  erase k ((j, w) ∷ d) = let rest = erase k d in if j == k then rest else (j, w) ∷ rest

  abbrev pub NodupKeys : Dict K V → Type κ
  NodupKeys [] = Unit
  NodupKeys ((k, _) ∷ d) = (lookup k d ≡ none) × NodupKeys d

  pub lookup-insert :
      (k j : K) (v : V) (d : Dict K V)
      → lookup j (insert k v d) ≡ (if k == j then some v else lookup j d)
  unfolding lookup insert
  lookup-insert k j v [] = ground arith
  lookup-insert k j v ((i, w) ∷ d) = ground (arith, lookup-insert k j v d)

  pub lookup-erase :
      (k j : K) (d : Dict K V) → lookup j (erase k d) ≡ (if k == j then none else lookup j d)
  unfolding lookup erase
  lookup-erase k j [] = ground arith
  lookup-erase k j ((i, w) ∷ d) = ground (arith, lookup-erase k j d)

  pub lookup-keep_values :
      (p : V → Bool) (j : K) (d : Dict K V)
      → NodupKeys d
      → lookup j (keep_values p d) ≡ only p (lookup j d)
  unfolding lookup keep
  lookup-keep_values p j [] u = refl
  lookup-keep_values p j ((i, w) ∷ d) (fresh, u) = ground (arith, lookup-keep_values p j d u)

  pub insert-NodupKeys : (k : K) (v : V) (d : Dict K V) → NodupKeys d → NodupKeys (insert k v d)
  unfolding lookup insert
  insert-NodupKeys k v [] u = (refl, tt)
  insert-NodupKeys k v ((i, w) ∷ d) (fresh, u) =
      ground (arith, insert-NodupKeys k v d u, lookup-insert k i v d)

  pub erase-NodupKeys : (k : K) (d : Dict K V) → NodupKeys d → NodupKeys (erase k d)
  unfolding erase
  erase-NodupKeys k [] u = tt
  erase-NodupKeys k ((i, w) ∷ d) (fresh, u) =
      ground (arith, erase-NodupKeys k d u, lookup-erase k i d)

  pub keep_values-NodupKeys :
      (p : V → Bool) (d : Dict K V) → NodupKeys d → NodupKeys (keep_values p d)
  unfolding keep
  keep_values-NodupKeys p [] u = tt
  keep_values-NodupKeys p ((i, w) ∷ d) (fresh, u) =
      ground (arith, keep_values-NodupKeys p d u, lookup-keep_values p i d u)
