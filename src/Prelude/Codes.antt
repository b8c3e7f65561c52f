-- ===== src/Prelude/Codes.antt =====
-- Text as a list of code points, with the operations of Rust's `str` that the contracts call.
use Prim.Native.Nat.{ℕ}
use mathlib.Core.Path.{◌≡◌, refl, sym, ap, subst, ◌≡⟨◌⟩◌, ◌∎}
use mathlib.Core.Logic.{inl, inr}
use mathlib.Core.Bool.{Bool, false, ◌||◌}
use mathlib.Core.Option.{Option, none, some, some-injective}
use mathlib.Core.List.{List, [], ◌∷◌, ◌++◌, reverse, reverse-append, reverse-reverse}
use native.Mathlib.Omega.{arith}
use tla_contracts.Prelude.Tests.{◌==◌, if◌then◌else◌, Option-cases}

unfoldable pub strip_prefix : List ℕ → List ℕ → Option (List ℕ)
strip_prefix s [] = some s
strip_prefix [] (c ∷ p) = none
strip_prefix (d ∷ s) (c ∷ p) = let rest = strip_prefix s p in if d == c then rest else none

unfoldable pub strip_suffix : List ℕ → List ℕ → Option (List ℕ)
unfolding strip_prefix
strip_suffix s suffix = elim (strip_prefix (reverse s) (reverse suffix)) [
  | none ↦ none
  | some r ↦ some (reverse r)
]

-- `s.contains(c)`
unfoldable pub has_code : List ℕ → ℕ → Bool
has_code [] c = false
has_code (d ∷ s) c = (c == d) || has_code s c

strip_prefix_sound : (s p r : List ℕ) → strip_prefix s p ≡ some r → s ≡ p ++ r
unfolding strip_prefix
strip_prefix_sound s [] r h = cc
strip_prefix_sound [] (c ∷ p) r h = cc
strip_prefix_sound (d ∷ s) (c ∷ p) r h = ground (arith, strip_prefix_sound s p r)

-- A text is the reverse of its reverse, taken apart.
unreverse : (s suffix q : List ℕ) → reverse s ≡ reverse suffix ++ q → s ≡ reverse q ++ suffix
unreverse s suffix q e =
    s
    ≡⟨ sym (reverse-reverse s) ⟩ reverse (reverse s)
    ≡⟨ ap reverse e ⟩ reverse (reverse suffix ++ q)
    ≡⟨ reverse-append (reverse suffix) q ⟩ reverse q ++ reverse (reverse suffix)
    ≡⟨ ap (λ t. reverse q ++ t) (reverse-reverse suffix) ⟩ reverse q ++ suffix ∎

-- What is left with the suffix behind it is the text.
pub strip_suffix_sound : (s suffix r : List ℕ) → strip_suffix s suffix ≡ some r → s ≡ r ++ suffix
unfolding strip_suffix
strip_suffix_sound s suffix r h = elim (Option-cases (strip_prefix (reverse s) (reverse suffix))) [
  | inl e ↦ absurd (unstuck e)
  | inr (q, e) ↦ found q e (rw (e, strip_suffix) at h)
]
  where
    unstuck : strip_prefix (reverse s) (reverse suffix) ≡ none → ⊥
    unstuck e = cc (rw (e, strip_suffix) at h)

    found :
        (q : List ℕ)
        → strip_prefix (reverse s) (reverse suffix) ≡ some q
        → some (reverse q) ≡ some r
        → s ≡ r ++ suffix
    found q e p =
        subst (λ t. s ≡ t ++ suffix) (some-injective _ _ p)
          (unreverse s suffix q (strip_prefix_sound (reverse s) (reverse suffix) q e))

strip_prefix_complete : (p r : List ℕ) → strip_prefix (p ++ r) p ≡ some r
unfolding strip_prefix
strip_prefix_complete [] r = refl
strip_prefix_complete (c ∷ p) r = ground (arith, strip_prefix_complete p r)

pub strip_suffix_complete : (r suffix : List ℕ) → strip_suffix (r ++ suffix) suffix ≡ some r
unfolding strip_suffix
strip_suffix_complete r suffix =
    rw (reverse-append r suffix, strip_suffix)
      (rw (strip_prefix_complete (reverse suffix) (reverse r), strip_suffix)
        (ap some (reverse-reverse r)))
