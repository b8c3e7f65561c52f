-- ===== src/Prelude/IdMap.antt =====
-- `BTreeMap` keyed by ids: an association list, read by its first entry for a key.
use Prim.Native.Nat.{ℕ}
use mathlib.Core.Path.{◌≡◌}
use mathlib.Core.Bool.{Bool}
use mathlib.Core.Option.{Option, none, some}
use mathlib.Core.List.{List, [], ◌∷◌}
use native.Mathlib.Omega.{arith}
use tla_contracts.Prelude.Tests.{◌==◌, if◌then◌else◌, is_some}

abbrev pub IdMap {ℓ} : Type ℓ → Type ℓ
IdMap V = List (ℕ × V)

module _ {ℓ} {V : Type ℓ} where
  unfoldable pub get : IdMap V → ℕ → Option V
  get [] k = none
  get ((j, v) ∷ m) k = if k == j then some v else get m k

  unfoldable pub insert : IdMap V → ℕ → V → IdMap V
  insert [] k v = (k, v) ∷ []
  insert ((j, w) ∷ m) k v = let rest = insert m k v in if k == j then (k, v) ∷ m else (j, w) ∷ rest

  unfoldable pub remove : IdMap V → ℕ → IdMap V
  remove [] k = []
  remove ((j, w) ∷ m) k = let rest = remove m k in if k == j then rest else (j, w) ∷ rest

  abbrev pub contains_key : IdMap V → ℕ → Bool
  contains_key m k = is_some (get m k)

  pub get-insert :
      (m : IdMap V) (k j : ℕ) (v : V) → get (insert m k v) j ≡ (if j == k then some v else get m j)
  unfolding get insert
  get-insert [] k j v = ground arith
  get-insert ((i, w) ∷ m) k j v = ground (arith, get-insert m k j v)

  pub get-remove : (m : IdMap V) (k j : ℕ) → get (remove m k) j ≡ (if j == k then none else get m j)
  unfolding get remove
  get-remove [] k j = ground arith
  get-remove ((i, w) ∷ m) k j = ground (arith, get-remove m k j)
