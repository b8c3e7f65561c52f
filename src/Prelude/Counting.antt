-- ===== src/Prelude/Counting.antt =====
-- How many ids a set without repetition can hold.
use Prim.Native.Nat.{ℕ, ◌≤◌, ◌<◌}
use mathlib.Core.Path.{◌≡◌}
use mathlib.Core.Bool.{true, false}
use mathlib.Core.List.{[], ◌∷◌}
use native.Mathlib.Omega.{arith}
use tla_contracts.Prelude.Tests.{length}
use tla_contracts.Prelude.IdSet.{IdSet, contains, remove, contains-remove, IsNodup}

-- Every id of the first set is in the second.
abbrev pub IsIncluded : IdSet → IdSet → Type 0
IsIncluded [] ys = Unit
IsIncluded (x ∷ xs) ys = (contains ys x ≡ true) × IsIncluded xs ys

length-remove_le : (ys : IdSet) (x : ℕ) → length (remove ys x) ≤ length ys
unfolding remove
length-remove_le [] x = ground arith
length-remove_le (y ∷ ys) x = ground (arith, length-remove_le ys x)

length-remove_lt : (ys : IdSet) (x : ℕ) → contains ys x ≡ true → length (remove ys x) < length ys
unfolding remove contains
length-remove_lt [] x h = ground arith
length-remove_lt (y ∷ ys) x h = ground (arith, length-remove_lt ys x, length-remove_le ys x)

IsIncluded-remove :
    (xs ys : IdSet) (x : ℕ) → contains xs x ≡ false → IsIncluded xs ys → IsIncluded xs (remove ys x)
unfolding contains
IsIncluded-remove [] ys x n h = tt
IsIncluded-remove (y ∷ xs) ys x n h =
    (ground (arith, contains-remove ys x y), IsIncluded-remove xs ys x (ground arith) h.1)

pub IsNodup-length : (xs ys : IdSet) → IsNodup xs → IsIncluded xs ys → length xs ≤ length ys
IsNodup-length [] ys n h = ground arith
IsNodup-length (x ∷ xs) ys n h = ground (
  arith,
  IsNodup-length xs (remove ys x) n.1 (IsIncluded-remove xs ys x n.0 h.1),
  length-remove_lt ys x h.0,
)
