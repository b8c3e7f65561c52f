-- ===== src/Deployer/Types.antt =====
-- contracts/wallet-impl-deployer/src/lib.rs, events.rs, error.rs: the deployer's state and effects.
use tla_contracts.Prelude.{
  ℕ, ◌*◌, ◌^◌, Bool, false, Option, none, some, List, Result, ok, require, ◌>>◌, ◌==◌, ◌!=◌,
}
use tla_contracts.Near.{AccountId, CryptoHash, Bytes, Env, second_ns, hour_ns, one_yocto}

pub record ImplDeployer : Type 0 where
  pub state_version : ℕ
  pub council : AccountId
  pub current_hash : Option CryptoHash
  pub approved_hash : Option CryptoHash
  pub approved_at : Option ℕ
  pub approval_delay_ns : ℕ
  pub deploy_locked_until : ℕ
  pub approved_upgrade_hash : Option CryptoHash
  pub approved_upgrade_at : Option ℕ
  pub upgrade_proven : Bool
  pub pending_council : Option AccountId
  pub pending_council_at : Option ℕ

pub data Event : Type 0 where
  hash_approved : CryptoHash → AccountId → Event
  impl_deployed : CryptoHash → ℕ → Event
  deploy_failed : CryptoHash → Event
  upgrade_approved : CryptoHash → AccountId → Event
  self_upgraded : Event
  council_rotation_approved council_rotated : AccountId → AccountId → Event
  council_rotation_cancelled : AccountId → Event
  key_deleted key_delete_failed : Bytes → AccountId → Event

pub data Promise : Type 0 where
  -- deploy the global contract, then `gd_on_deployed` with hash, size, payer, deposit and balance
  deploy_global : Bytes → CryptoHash → ℕ → AccountId → ℕ → ℕ → Promise
  -- deploy the code on this account and call `migrate`
  deploy_and_migrate : Bytes → Promise
  transfer : AccountId → ℕ → Promise
  -- delete the key, then `gd_on_key_deleted` with the key and the caller
  delete_key : Bytes → AccountId → Promise

pub data Effect : Type 0 where
  emit : Event → Effect
  send : Promise → Effect

pub data Error : Type 0 where
  only_council no_approved_hash hash_mismatch deploy_in_flight approval_too_young : Error
  insufficient_deposit empty_code cost_overflow requires_one_yocto council_is_self : Error
  council_unchanged no_council_rotation_pending only_pending_council : Error
  council_rotation_too_young no_approved_upgrade upgrade_hash_mismatch upgrade_too_young : Error
  no_state state_version_unknown upgrade_not_proven private_method : Error

pub record Outcome : Type 0 where
  pub state : ImplDeployer
  pub effects : List Effect

abbrev pub global_code_cost_per_byte : ℕ
global_code_cost_per_byte = 10 ^ 20

abbrev pub default_approval_delay_ns : ℕ
default_approval_delay_ns = 48 * hour_ns

abbrev pub state_version : ℕ
state_version = 2

abbrev pub deploy_lock_ttl_ns : ℕ
deploy_lock_ttl_ns = 10 * 60 * second_ns

abbrev pub assert_one_yocto : Env → Result Error (Unit {0})
assert_one_yocto env = require (env.attached_deposit == one_yocto) Error.requires_one_yocto

abbrev pub assert_council : Env → ImplDeployer → Result Error (Unit {0})
assert_council env d = require (env.predecessor_account_id == d.council) Error.only_council

abbrev pub or_default : Option ℕ → ℕ
or_default none = default_approval_delay_ns
or_default (some delay) = delay

unfoldable pub new : Env → AccountId → Option ℕ → Result Error ImplDeployer
new env council approval_delay_ns = do
  require (council != env.current_account_id) Error.council_is_self
  ok (record {
    state_version = state_version;
    council = council;
    current_hash = none;
    approved_hash = none;
    approved_at = none;
    approval_delay_ns = or_default approval_delay_ns;
    deploy_locked_until = 0;
    approved_upgrade_hash = none;
    approved_upgrade_at = none;
    upgrade_proven = false;
    pending_council = none;
    pending_council_at = none;
  })
