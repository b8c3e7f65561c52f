-- ===== src/Registry/Ledger/Labels.antt =====
-- contracts/tla-registry/src/types.rs: the names that may be leased.
use tla_contracts.Prelude.{
  ℕ, ◌+◌, ◌%◌, ◌≡◌, ◌≤◌, ◌⊎◌, ◌↔◌, Bool, true, false, not, ◌&&◌, ◌||◌, [], ◌∷◌, ltb, leb, ◌==◌,
  is_empty, length, Result, ok, require, ◌>>◌, arith,
}
use tla_contracts.Near.{Bytes}

pub data NameInvalidReason : Type 0 where
  length_out_of_bounds disallowed_character edge_separator : NameInvalidReason
  account_id_too_long label_too_short : NameInvalidReason

abbrev pub max_account_id_len : ℕ
max_account_id_len = 64

abbrev pub min_label_len : ℕ
min_label_len = 2

-- a letter in lower case or a digit
unfoldable pub is_alphanumeric : ℕ → Bool
is_alphanumeric c = (leb b'a' c && leb c b'z') || (leb b'0' c && leb c b'9')

unfoldable pub is_separator : ℕ → Bool
is_separator c = (c == b'-') || (c == b'_')

exclusive : (c : ℕ) → is_alphanumeric c ≡ true → is_separator c ≡ false
unfolding is_alphanumeric is_separator
exclusive c h = ground arith

unfoldable pub all_allowed : Bytes → Bool
all_allowed [] = true
all_allowed (c ∷ s) = (is_alphanumeric c || is_separator c) && all_allowed s

unfoldable pub starts_with_separator : Bytes → Bool
starts_with_separator [] = false
starts_with_separator (c ∷ s) = is_separator c

unfoldable pub ends_with_separator : Bytes → Bool
ends_with_separator [] = false
ends_with_separator (c ∷ []) = is_separator c
ends_with_separator (c ∷ d ∷ s) = ends_with_separator (d ∷ s)

-- The loop over the pairs of neighbours.
unfoldable pub has_double_separator : Bytes → Bool
has_double_separator [] = false
has_double_separator (c ∷ []) = false
has_double_separator (c ∷ d ∷ s) =
    (is_separator c && is_separator d) || has_double_separator (d ∷ s)

-- The reason is that of `ContractError::InvalidName`.
unfoldable pub validate_name : Bytes → Result NameInvalidReason (Unit {0})
unfolding all_allowed starts_with_separator ends_with_separator has_double_separator
validate_name name = do
  require (not (is_empty name || ltb 60 (length name))) NameInvalidReason.length_out_of_bounds
  require (all_allowed name) NameInvalidReason.disallowed_character
  require (not (starts_with_separator name || ends_with_separator name))
      NameInvalidReason.edge_separator
  require (not (has_double_separator name)) NameInvalidReason.edge_separator

-- `as u8`
unfoldable pub total_name_length : Bytes → Bytes → ℕ
total_name_length tla_id name = (length name + 1 + length tla_id) % 256

unfoldable pub validate_mintable_name : Bytes → Bytes → Result NameInvalidReason (Unit {0})
unfolding total_name_length
validate_mintable_name tla_id name =
    validate_name name
    >> (require (leb min_label_len (length name)) NameInvalidReason.label_too_short
        >> require (leb (total_name_length tla_id name) max_account_id_len)
            NameInvalidReason.account_id_too_long)

-- Letters and digits, with single separators between them.
abbrev pub IsLabel : Bytes → Type 0
IsLabel [] = ⊥
IsLabel (c ∷ []) = is_alphanumeric c ≡ true
IsLabel (c ∷ d ∷ s) =
    (is_alphanumeric c ≡ true) × (IsLabel (d ∷ s) ⊎ ((is_separator d ≡ true) × IsLabel s))

-- What the checks ask but for the first byte.
unfoldable is_joined : Bytes → Bool
is_joined s = all_allowed s && not (ends_with_separator s) && not (has_double_separator s)

unfoldable passes : Bytes → Bool
passes s = is_joined s && not (starts_with_separator s)

is_joined-cons :
    (c d : ℕ) (s : Bytes)
    → is_joined (c ∷ d ∷ s) ≡ (
        ((is_alphanumeric c || is_separator c) && not (is_separator c && is_separator d))
        && is_joined (d ∷ s))
unfolding is_joined all_allowed ends_with_separator has_double_separator
is_joined-cons c d s = ground arith

is_joined-one :
    (c : ℕ) → is_joined (c ∷ []) ≡ ((is_alphanumeric c || is_separator c) && not (is_separator c))
unfolding is_joined all_allowed ends_with_separator has_double_separator
is_joined-one c = ground arith

passes-IsLabel : (s : Bytes) → 1 ≤ length s → passes s ≡ true → IsLabel s
unfolding passes starts_with_separator
passes-IsLabel [] n h = absurd (omega arith)
passes-IsLabel (c ∷ []) n h = ground (arith, h, is_joined-one c)
passes-IsLabel (c ∷ d ∷ []) n h = ground (arith, h, is_joined-one d, is_joined-cons c d [])
passes-IsLabel (c ∷ d ∷ e ∷ s) n h = ground (
  arith,
  h,
  is_joined-cons c d (e ∷ s),
  is_joined-cons d e s,
  passes-IsLabel (d ∷ e ∷ s) (omega arith),
  passes-IsLabel (e ∷ s) (omega arith),
)

IsLabel-passes : (s : Bytes) → IsLabel s → passes s ≡ true
unfolding passes starts_with_separator
IsLabel-passes [] h = absurd h
IsLabel-passes (c ∷ []) h = ground (arith, h, exclusive c, is_joined-one c)
IsLabel-passes (c ∷ d ∷ []) h =
    ground (arith, h, exclusive c, exclusive d, is_joined-one d, is_joined-cons c d [])
IsLabel-passes (c ∷ d ∷ e ∷ s) h = ground (
  arith,
  h,
  exclusive c,
  is_joined-cons c d (e ∷ s),
  is_joined-cons d e s,
  IsLabel-passes (d ∷ e ∷ s),
  IsLabel-passes (e ∷ s),
)

validate_name-passes :
    (name : Bytes)
    → (validate_name name ≡ ok tt) ↔ ((1 ≤ length name) × (length name ≤ 60) × (passes name ≡ true))
unfolding validate_name passes is_joined
validate_name-passes name = (λ h. ground (arith, h), λ h. ground (arith, h))

-- A name may be minted under a top-level account of at most 64 bytes exactly if it is letters in lower
-- case and digits with single separators between them, has at least two bytes and at most 60, and gives an
-- account id of at most 64 bytes: the length, which is cut to a byte, never wraps.
pub validate_mintable_name_iff :
    (tla_id name : Bytes)
    → length tla_id ≤ 64
    → (validate_mintable_name tla_id name ≡ ok tt) ↔ (
        IsLabel name
        × (2 ≤ length name)
        × (length name ≤ 60)
        × (length name + 1 + length tla_id ≤ 64))
unfolding validate_mintable_name total_name_length
validate_mintable_name_iff tla_id name short = (
  λ h. let v = (validate_name-passes name).0 in ground (arith, h, v, passes-IsLabel name),
  λ h. let v = (validate_name-passes name).1 in ground (arith, h, v, IsLabel-passes name),
)
