-- ===== src/Recovery/Proofs.antt =====
-- contracts/mpc-recovery/src/proof.rs: the messages that are signed, and how signatures are counted.
use tla_contracts.Prelude.{
  ℕ, Bool, true, false, not, ◌&&◌, ◌||◌, Option, none, some, List, [], ◌∷◌, ◌++◌, ◌==◌, leb, length,
  if◌then◌else◌,
}
use tla_contracts.Prelude.IdSet
use tla_contracts.Prelude.Wire.{to_le_bytes, push_str}
use tla_contracts.Near.{AccountId, Bytes}
use tla_contracts.Recovery.Types.{Keys, PublicKey, as_u32}

abbrev pub domain_request : ℕ
domain_request = 1

abbrev pub domain_verdict : ℕ
domain_verdict = 2

abbrev pub domain_name_recovery : ℕ
domain_name_recovery = 3

abbrev pub domain_name_request : ℕ
domain_name_request = 4

-- `b as u8`
abbrev pub flag_byte : Bool → ℕ
flag_byte true = 1
flag_byte false = 0

module _ (keys : Keys) (as_str : AccountId → Bytes) where
  unfoldable pub message_core : ℕ → AccountId → AccountId → PublicKey → ℕ → Bytes
  unfolding push_str
  message_core domain contract account new_owner round =
      domain
      ∷ (push_str (as_str contract)
          ++ (push_str (as_str account) ++ (keys.as_bytes new_owner ++ to_le_bytes 8 round)))

  unfoldable pub request_message : AccountId → AccountId → PublicKey → ℕ → Bytes
  request_message contract account new_owner round =
      message_core domain_request contract account new_owner round

  unfoldable pub verdict_message : AccountId → AccountId → PublicKey → ℕ → Bool → Bytes
  verdict_message contract account new_owner round approve =
      message_core domain_verdict contract account new_owner round ++ (flag_byte approve ∷ [])

  unfoldable pub name_request_message : AccountId → AccountId → Bytes → AccountId → ℕ → Bytes
  name_request_message contract tla_id name new_owner round =
      domain_name_request
      ∷ (push_str (as_str contract)
          ++ (push_str (as_str tla_id)
              ++ (push_str name ++ (push_str (as_str new_owner) ++ to_le_bytes 8 round))))

  unfoldable pub name_recovery_message :
      AccountId → AccountId → Bytes → AccountId → AccountId → ℕ → ℕ → Bytes
  name_recovery_message contract tla_id name new_owner expected_owner deadline_ns round =
      domain_name_recovery
      ∷ (push_str (as_str contract)
          ++ (push_str (as_str tla_id)
              ++ (push_str name
                  ++ (push_str (as_str new_owner)
                      ++ (push_str (as_str expected_owner)
                          ++ (to_le_bytes 8 deadline_ns ++ to_le_bytes 8 round))))))

-- The key without the byte of its curve.
unfoldable pub ed25519_key : Keys → PublicKey → Option Bytes
ed25519_key keys key = elim (keys.as_bytes key) [
  | [] ↦ none
  | curve ∷ bytes ↦ if (length bytes == 32) && (curve == 0) then some bytes else none
]

abbrev pub is_strong : Option Bool → Bool
is_strong none = false
is_strong (some weak) = not weak

unfoldable pub verify : Keys → Bytes → Bytes → PublicKey → Bool
unfolding ed25519_key
verify keys message signature key = elim (ed25519_key keys key) [
  | none ↦ false
  | some pubkey ↦ is_strong (keys.is_weak pubkey) && keys.ed25519_verify signature message pubkey
]

-- The loop of `verify_quorum`, on the watchers counted so far.
unfoldable pub count_signers :
    Keys → Bytes → List PublicKey → List PublicKey → List (PublicKey × Bytes) → List PublicKey
unfolding verify
count_signers keys message watchers counted [] = counted
count_signers keys message watchers counted ((key, signature) ∷ signatures) =
    count_signers keys message watchers
      (if not (IdSet.contains watchers key) || IdSet.contains counted key
        then counted
        else if verify keys message signature key
        then key ∷ counted
        else counted)
      signatures

unfoldable pub verify_quorum : Keys → Bytes → List (PublicKey × Bytes) → List PublicKey → ℕ → Bool
unfolding count_signers
verify_quorum keys message signatures watchers threshold =
    leb threshold (as_u32 (length (count_signers keys message watchers [] signatures)))
