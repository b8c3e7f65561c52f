-- ===== src/Recovery/Types.antt =====
-- contracts/mpc-recovery/src/lib.rs, state.rs, events.rs, error.rs: the recovery contract's state, what a
-- call may log or send, and the reasons for which it panics.
use tla_contracts.Prelude.{
  ℕ, ◌*◌, ◌^◌, ◌%◌, Bool, true, false, Option, none, some, List, ◌==◌, leb, ◌||◌, Result, require,
  if◌then◌else◌,
}
use tla_contracts.Prelude.IdMap.{IdMap}
use tla_contracts.Near.{AccountId, CryptoHash, Bytes, Env, hour_ns, one_yocto, second_ns}

-- A public key is only compared; its bytes are `Keys.as_bytes`.
abbrev pub PublicKey : Type 0
PublicKey = ℕ

pub data CurveType : Type 0 where
  ed25519 secp256k1 : CurveType

-- What the contract calls of `near_sdk` and `ed25519_dalek`.
pub record Keys : Type 0 where
  pub as_bytes : PublicKey → Bytes
  pub curve_type : PublicKey → CurveType
  -- `VerifyingKey::from_bytes` and `is_weak`, which is `none` for bytes that are no key
  pub is_weak : Bytes → Option Bool
  -- `env::ed25519_verify` of a signature, a message and a key
  pub ed25519_verify : Bytes → Bytes → Bytes → Bool
  -- `env::sha256` as bytes
  pub sha256 : Bytes → Bytes
  -- an account id of its text
  pub parse : Bytes → Option AccountId

abbrev is_ed25519_curve : CurveType → Bool
is_ed25519_curve CurveType.ed25519 = true
is_ed25519_curve CurveType.secp256k1 = false

-- `is_ed25519` of crates/hos-common/src/lib.rs.
abbrev pub is_ed25519 : Keys → PublicKey → Bool
is_ed25519 keys key = is_ed25519_curve (keys.curve_type key)

pub record ArmedPolicy : Type 0 where
  pub attestation_key : PublicKey
  pub timelock_secs : ℕ

pub record Policy : Type 0 where
  pub mpc_public_key : PublicKey
  pub attestation_key : PublicKey
  pub timelock_secs : ℕ

pub data Phase : Type 0 where
  idle : Phase
  -- the new owner's key, the round and the time of the request
  requested : PublicKey → ℕ → ℕ → Phase
  approved resolving : PublicKey → ℕ → Phase
  -- the new owner's account, the round and the time of the request
  name_requested name_resolving : AccountId → ℕ → ℕ → Phase
  cooldown : ℕ → Phase

abbrev pub settled : Phase → Bool
settled Phase.idle = true
settled (Phase.cooldown _) = true
settled _ = false

abbrev pub accepts_request : Phase → ℕ → Bool
accepts_request Phase.idle now = true
accepts_request (Phase.cooldown until) now = leb until now
accepts_request _ now = false

abbrev pub pending : Phase → Option (PublicKey × ℕ)
pending (Phase.requested new_owner round _) = some (new_owner, round)
pending (Phase.approved new_owner round) = some (new_owner, round)
pending (Phase.resolving new_owner round) = some (new_owner, round)
pending _ = none

abbrev pub name_resolving_at : Phase → ℕ → Option (AccountId × ℕ)
name_resolving_at (Phase.name_resolving new_owner round requested_at) at_round =
    if round == at_round then some (new_owner, requested_at) else none
name_resolving_at _ at_round = none

abbrev pub name_pending : Phase → Option (AccountId × ℕ × ℕ)
name_pending (Phase.name_requested new_owner round requested_at) =
    some (new_owner, round, requested_at)
name_pending _ = none

abbrev pub resolving_owner : Phase → ℕ → Option PublicKey
resolving_owner (Phase.resolving new_owner resolving_round) round =
    if resolving_round == round then some new_owner else none
resolving_owner _ round = none

pub record Account : Type 0 where
  pub policy : Policy
  pub round : ℕ
  pub phase : Phase

pub record MpcRecovery : Type 0 where
  pub state_version : ℕ
  pub owner : AccountId
  pub installer : AccountId
  pub signer : AccountId
  pub transfer_authority : AccountId
  pub watchers : List PublicKey
  pub threshold : ℕ
  pub accounts : IdMap Account
  pub round_floor : IdMap ℕ
  pub approved_code_hash : Option CryptoHash
  pub approved_at : Option ℕ
  pub registry : Option AccountId
  pub armed : IdMap ArmedPolicy
  pub upgrade_proven : Bool
  pub pending_owner : Option AccountId
  pub pending_owner_at : Option ℕ

pub record WatcherSignature : Type 0 where
  pub public_key : PublicKey
  pub signature : Bytes

pub data Verdict : Type 0 where
  approve cancel : Verdict

pub data Event : Type 0 where
  policy_installed : AccountId → ℕ → PublicKey → PublicKey → Event
  recovery_requested : AccountId → ℕ → PublicKey → Event
  recovery_approved recovery_canceled native_signature_produced : AccountId → ℕ → Event
  finalized policy_reset_deferred : AccountId → ℕ → Event
  aborted : AccountId → ℕ → Bool → Event
  installer_changed owner_rotation_cancelled policy_reset : AccountId → Event
  registry_changed policy_install_disarmed : AccountId → Event
  owner_rotation_approved owner_rotated : AccountId → AccountId → Event
  upgrade_approved : CryptoHash → AccountId → Event
  upgraded : Event
  sealed seal_failed : Bytes → AccountId → Event
  watchers_changed : ℕ → ℕ → Event
  policy_install_armed : AccountId → PublicKey → ℕ → Event
  name_recovery_requested : AccountId → Bytes → AccountId → ℕ → Event
  name_recovery_approved : AccountId → Bytes → AccountId → Event

pub data Promise : Type 0 where
  -- `sign` of the signer, on a derivation path and the hex of a digest
  sign : AccountId → Bytes → Bytes → Promise
  -- `recover_sub_account` of the registry: the top-level account, the name, the new owner and the owner
  -- that is expected
  recover_sub_account : AccountId → AccountId → Bytes → AccountId → AccountId → Promise
  deploy_and_migrate : Bytes → Promise
  delete_key : Bytes → Promise

-- The callback chained to a promise, with its arguments.
pub data Callback : Type 0 where
  no_callback : Callback
  on_signed : AccountId → ℕ → Bytes → Callback
  on_name_recovered : AccountId → ℕ → Callback
  after_seal : Bytes → AccountId → Callback

pub data Effect : Type 0 where
  emit : Event → Effect
  send : Promise → Callback → Effect

pub data Error : Type 0 where
  only_owner owner_is_self only_installer only_owner_reinstall owner_unchanged : Error
  no_owner_rotation_pending only_owner_or_pending_owner only_transfer_authority no_state : Error
  bad_threshold no_policy not_idle cooling_down not_requested not_approved not_active : Error
  stale_round round_exhausted bad_attestation timelock no_quorum no_registry : Error
  registry_is_self quorum_expired bad_signature_len timelock_too_short timelock_too_long : Error
  duplicate_watcher too_many_watchers mpc_not_ed25519 watcher_not_ed25519 : Error
  attestation_not_ed25519 requires_one_yocto empty_code no_approved_hash hash_mismatch : Error
  approval_too_young threshold_too_low name_not_requested destination_changed : Error
  timelock_active invalid_leased_account only_installer_or_holder not_armed : Error
  armed_key_mismatch armed_timelock_mismatch state_version_unknown upgrade_not_proven : Error
  -- the check of `#[private]`, and a sum that overflows where overflow is checked
  private_method arithmetic_overflow : Error

pub record Outcome : Type 0 where
  pub state : MpcRecovery
  pub effects : List Effect

abbrev pub abort_cooldown_ns : ℕ
abort_cooldown_ns = 600 * second_ns

abbrev pub holder_abort_cooldown_ns : ℕ
holder_abort_cooldown_ns = 24 * hour_ns

abbrev pub min_timelock_secs : ℕ
min_timelock_secs = 60

abbrev pub max_timelock_secs : ℕ
max_timelock_secs = 2_592_000

abbrev pub upgrade_delay_ns : ℕ
upgrade_delay_ns = 72 * hour_ns

abbrev pub min_watcher_threshold : ℕ
min_watcher_threshold = 2

abbrev pub max_watchers : ℕ
max_watchers = 32

abbrev pub state_version : ℕ
state_version = 2

-- `as u32`
abbrev pub as_u32 : ℕ → ℕ
as_u32 n = n % 2 ^ 32

module _ (env : Env) where
  abbrev pub is_installer : MpcRecovery → Bool
  is_installer m =
      (env.predecessor_account_id == m.installer) || (env.predecessor_account_id == m.owner)

  abbrev pub assert_owner : MpcRecovery → Result Error (Unit {0})
  assert_owner m = require (env.predecessor_account_id == m.owner) Error.only_owner

  abbrev pub assert_one_yocto : Result Error (Unit {0})
  assert_one_yocto = require (env.attached_deposit == one_yocto) Error.requires_one_yocto
