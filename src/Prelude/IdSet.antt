-- ===== src/Prelude/IdSet.antt =====
-- `BTreeSet` and `LookupSet` of ids: a list that is read by membership alone.
use Prim.Native.Nat.{ℕ}
use mathlib.Core.Path.{◌≡◌, refl}
use mathlib.Core.Bool.{Bool, false, ◌||◌}
use mathlib.Core.List.{List, [], ◌∷◌}
use native.Mathlib.Omega.{arith}
use tla_contracts.Prelude.Tests.{◌==◌, if◌then◌else◌}

abbrev pub IdSet : Type 0
IdSet = List ℕ

unfoldable pub contains : IdSet → ℕ → Bool
contains [] a = false
contains (x ∷ xs) a = (a == x) || contains xs a

-- The set after `insert`; the source's result is `true` exactly if the id was new.
unfoldable pub insert : IdSet → ℕ → IdSet
unfolding contains
insert xs a = if contains xs a then xs else a ∷ xs

-- The set after `remove`; the source's result is `contains` before the call.
unfoldable pub remove : IdSet → ℕ → IdSet
remove [] a = []
remove (x ∷ xs) a = let rest = remove xs a in if a == x then rest else x ∷ rest

-- `retain(|held| *held == a)`
unfoldable pub retain_eq : IdSet → ℕ → IdSet
retain_eq [] a = []
retain_eq (x ∷ xs) a = let rest = retain_eq xs a in if x == a then x ∷ rest else rest

-- `collect` from a sequence that may name an id twice
unfoldable pub collect : List ℕ → IdSet
unfolding insert
collect [] = []
collect (x ∷ xs) = insert (collect xs) x

-- Each id is listed once.
abbrev pub IsNodup : IdSet → Type 0
IsNodup [] = Unit
IsNodup (x ∷ xs) = (contains xs x ≡ false) × IsNodup xs

pub contains-insert :
    (xs : IdSet) (a b : ℕ) → contains (insert xs a) b ≡ ((b == a) || contains xs b)
unfolding insert
contains-insert xs a b = ground arith

pub contains-remove :
    (xs : IdSet) (a b : ℕ) → contains (remove xs a) b ≡ (if b == a then false else contains xs b)
unfolding contains remove
contains-remove [] a b = ground arith
contains-remove (x ∷ xs) a b = ground (arith, contains-remove xs a b)

pub contains-retain_eq :
    (xs : IdSet) (a b : ℕ) → contains (retain_eq xs a) b ≡ (if b == a then contains xs b else false)
unfolding contains retain_eq
contains-retain_eq [] a b = ground arith
contains-retain_eq (x ∷ xs) a b = ground (arith, contains-retain_eq xs a b)

pub contains-collect : (xs : List ℕ) (b : ℕ) → contains (collect xs) b ≡ contains xs b
unfolding collect contains
contains-collect [] b = refl
contains-collect (x ∷ xs) b =
    ground (arith, contains-insert (collect xs) x b, contains-collect xs b)
