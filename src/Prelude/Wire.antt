-- ===== src/Prelude/Wire.antt =====
-- Numbers and texts as bytes: little-endian words, and texts behind their length, as borsh writes them.
use Prim.Native.Nat.{ℕ, zero, suc, ◌+◌, ◌/◌, ◌%◌, ◌^◌, ◌<◌}
use mathlib.Core.Path.{◌≡◌, refl, sym, ap, ◌∙◌}
use mathlib.Core.List.{List, [], ◌∷◌, ◌++◌, append_assoc}
use native.Mathlib.Omega.{arith}
use tla_contracts.Prelude.Tests.{length}

-- `to_le_bytes` of a number cut to so many bytes
unfoldable pub to_le_bytes : ℕ → ℕ → List ℕ
to_le_bytes zero n = []
to_le_bytes (suc width) n = (n % 256) ∷ to_le_bytes width (n / 256)

pub length-to_le_bytes : (width n : ℕ) → length (to_le_bytes width n) ≡ width
unfolding to_le_bytes
length-to_le_bytes zero n = refl
length-to_le_bytes (suc width) n = ap suc (length-to_le_bytes width (n / 256))

pub to_le_bytes_injective :
    (width a b : ℕ)
    → a < 256 ^ width
    → b < 256 ^ width
    → to_le_bytes width a ≡ to_le_bytes width b
    → a ≡ b
unfolding to_le_bytes
to_le_bytes_injective zero a b p q e = omega arith
to_le_bytes_injective (suc width) a b p q e =
    ground (arith, to_le_bytes_injective width (a / 256) (b / 256))

pub length-append : (a b : List ℕ) → length (a ++ b) ≡ length a + length b
length-append [] b = omega arith
length-append (x ∷ a) b = ground (arith, length-append a b)

pub cons_cancel : {c d : ℕ} {a b : List ℕ} → c ∷ a ≡ d ∷ b → (c ≡ d) × (a ≡ b)
cons_cancel e = ground (arith, e)

-- Two texts with heads of one length are equal in both parts.
pub append_cancel : (a b x y : List ℕ) → length a ≡ length b → a ++ x ≡ b ++ y → (a ≡ b) × (x ≡ y)
append_cancel [] [] x y l e = (refl, e)
append_cancel [] (d ∷ b) x y l e = absurd (omega arith)
append_cancel (c ∷ a) [] x y l e = absurd (omega arith)
append_cancel (c ∷ a) (d ∷ b) x y l e = ground (arith, append_cancel a b x y)

-- The same for tails of one length.
pub append_cancel_right :
    (a b x y : List ℕ) → length x ≡ length y → a ++ x ≡ b ++ y → (a ≡ b) × (x ≡ y)
append_cancel_right a b x y l e =
    append_cancel a b x y (ground (arith, length-append a x, length-append b y, ap length e)) e

-- A text behind the number of its bytes in four bytes.
unfoldable pub push_str : List ℕ → List ℕ
push_str s = to_le_bytes 4 (length s % 2 ^ 32) ++ s

pub push_str_cancel :
    (s t : List ℕ) {x y : List ℕ}
    → length s < 2 ^ 32
    → length t < 2 ^ 32
    → push_str s ++ x ≡ push_str t ++ y
    → (s ≡ t) × (x ≡ y)
unfolding push_str
push_str_cancel s t {x} {y} p q e =
    let n = length s % 2 ^ 32 in
    let m = length t % 2 ^ 32 in
    let h =
      append_cancel (to_le_bytes 4 n) (to_le_bytes 4 m) (s ++ x) (t ++ y)
        (length-to_le_bytes 4 n ∙ sym (length-to_le_bytes 4 m))
        (sym (append_assoc (to_le_bytes 4 n) s x) ∙ e ∙ append_assoc (to_le_bytes 4 m) t y) in
    append_cancel s t x y
      (ground (arith, to_le_bytes_injective 4 n m (omega arith) (omega arith) h.0)) h.1
