-- ===== src/Opener/Names.antt =====
-- contracts/registrar-opener/src/names.rs: the names that may be opened, and the digest of a batch.
use tla_contracts.Prelude.{
  ℕ, List, [], ◌∷◌, ◌++◌, leb, ◌==◌, not, is_empty, length, ok, require, ◌>>◌,
}
use tla_contracts.Prelude.IdSet
use tla_contracts.Prelude.Codes.{has_code}
use tla_contracts.Prelude.Wire.{to_le_bytes}
use tla_contracts.Near.{AccountId, CryptoHash, Bytes, Env}
use tla_contracts.Opener.Types.{Host, Check, Error}

abbrev pub min_tla_len : ℕ
min_tla_len = 3

abbrev pub max_tla_len : ℕ
max_tla_len = 64

-- "registrar-opener:batch:v2"
abbrev pub digest_domain : Bytes
digest_domain =
    b'r' ∷ b'e' ∷ b'g' ∷ b'i' ∷ b's' ∷ b't' ∷ b'r' ∷ b'a' ∷ b'r' ∷ b'-' ∷ b'o' ∷ b'p' ∷ b'e' ∷ b'n'
    ∷ b'e' ∷ b'r' ∷ b':' ∷ b'b' ∷ b'a' ∷ b't' ∷ b'c' ∷ b'h' ∷ b':' ∷ b'v' ∷ b'2' ∷ []

-- A part behind its length.
abbrev part : Bytes → Bytes
part bytes = to_le_bytes 4 (length bytes) ++ bytes

module _ (host : Host) (env : Env) where
  unfoldable pub seed_digest : AccountId → Bytes → ℕ → CryptoHash
  unfolding to_le_bytes
  seed_digest global_code init_args funding = env.sha256 (
      digest_domain
      ++ (part (env.as_str global_code) ++ (part init_args ++ to_le_bytes 16 funding)))

  unfoldable pub fold_digest : CryptoHash → AccountId → CryptoHash
  fold_digest digest name = env.sha256 (host.to_vec digest ++ env.as_str name)

  -- The loop of `assert_openable`.
  unfoldable pub assert_top_level : List AccountId → Check
  assert_top_level [] = ok tt
  assert_top_level (name ∷ names) = do
    require (not (has_code (env.as_str name) b'.')) Error.not_top_level
    require (leb min_tla_len (length (env.as_str name))) Error.name_too_short
    require (leb (length (env.as_str name)) max_tla_len) Error.name_too_long
    require (not (host.is_implicit name)) Error.name_is_implicit
    assert_top_level names

  -- Sorting and `dedup` leave every name once.
  unfoldable pub assert_openable : List AccountId → Check
  assert_openable names = do
    require (not (is_empty names)) Error.empty_names
    require (length (IdSet.collect names) == length names) Error.duplicate_name
    assert_top_level names
