-- ===== src/Recovery/Hex.antt =====
-- contracts/mpc-recovery/src/tx.rs: the hex of a digest, read back.
use tla_contracts.Prelude.{
  ℕ, zero, suc, Bool, true, same_option, ◌==◌, Bool-cases, inl, inr, subst, ◌+◌, ◌*◌, ◌/◌, ◌%◌, ◌-◌,
  ◌≡◌, ◌<◌, Option, none, some, [], ◌∷◌, leb, ◌&&◌, if◌then◌else◌, arith, refl,
}
use tla_contracts.Near.{Bytes}
use tla_contracts.Recovery.Tx.{to_hex, digit_at, hex_digits}

-- The value of a hexadecimal digit in lower case.
abbrev digit_value : ℕ → Option ℕ
digit_value c =
    if leb 48 c && leb c 57
    then some (c - 48)
    else if leb 97 c && leb c 102
    then some (c - 87)
    else none

abbrev pair_over : Option ℕ → Option ℕ → Option Bytes → Option Bytes
pair_over (some h) (some l) (some rest) = some ((16 * h + l) ∷ rest)
pair_over _ _ _ = none

-- The bytes that a text of hexadecimal digits stands for.
unfoldable pub read_hex : Bytes → Option Bytes
read_hex [] = some []
read_hex (h ∷ []) = none
read_hex (h ∷ l ∷ text) = pair_over (digit_value h) (digit_value l) (read_hex text)

abbrev pub AreBytes : Bytes → Type 0
AreBytes [] = Unit
AreBytes (b ∷ bs) = (b < 256) × AreBytes bs

-- A test passes at every number below a bound.
unfoldable all_below : (ℕ → Bool) → ℕ → Bool
all_below test zero = true
all_below test (suc n) = test n && all_below test n

all_below-test :
    (test : ℕ → Bool) (bound n : ℕ) → all_below test bound ≡ true → n < bound → test n ≡ true
unfolding all_below
all_below-test test zero n h l = absurd (omega arith)
all_below-test test (suc bound) n h l = elim (Bool-cases (n == bound)) [
  | inl e ↦
      let same : bound ≡ n = ground (arith, e) in
      subst (λ k. test k ≡ true) same (ground (arith, h))
  | inr e ↦ all_below-test test bound n (ground (arith, h)) (ground (arith, e))
]

same_option-eq : (a b : Option ℕ) → same_option a b ≡ true → a ≡ b
same_option-eq none none h = refl
same_option-eq none (some b) h = absurd (ground arith)
same_option-eq (some a) none h = absurd (ground arith)
same_option-eq (some a) (some b) h = ground arith

digit_value-digit_at : (n : ℕ) → n < 16 → digit_value (digit_at hex_digits n) ≡ some n
unfolding digit_at all_below
digit_value-digit_at n h =
    same_option-eq (digit_value (digit_at hex_digits n)) (some n)
      (all_below-test (λ k. same_option (digit_value (digit_at hex_digits k)) (some k)) 16 n refl h)

-- A text that `to_hex` writes reads back as the bytes that it was given, so that different digests never
-- look the same to the signer.
pub read_hex-to_hex : (bytes : Bytes) → AreBytes bytes → read_hex (to_hex bytes) ≡ some bytes
unfolding read_hex to_hex
read_hex-to_hex [] h = refl
read_hex-to_hex (b ∷ bs) h = ground (
  arith,
  digit_value-digit_at (b / 16) (omega (arith, h.0)),
  digit_value-digit_at (b % 16) (omega arith),
  read_hex-to_hex bs h.1,
)
