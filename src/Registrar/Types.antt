-- ===== src/Registrar/Types.antt =====
-- contracts/registrar/src/lib.rs, events.rs, error.rs: the registrar's state, what a call may log or
-- send, and the reasons for which it panics.
use tla_contracts.Prelude.{ℕ, ◌*◌, ◌^◌, Bool, Option, List, ◌==◌, Result, require}
use tla_contracts.Near.{AccountId, CryptoHash, Bytes, Env, hour_ns, one_yocto}
use tla_contracts.Wallet.Types.{WalletInit}

pub data ChainId : Type 0 where
  mainnet testnet : ChainId
  -- any other text
  another_chain : Bytes → ChainId

pub record RegistrarConfig : Type 0 where
  pub registry : AccountId
  pub council : AccountId
  pub wallet_impl : AccountId
  pub hos_extension : AccountId
  pub recovery : AccountId
  pub chain_id : ChainId
  pub min_balance : ℕ
  pub wallet_timeout_secs : ℕ

pub record Registrar : Type 0 where
  pub state_version : ℕ
  pub registry : AccountId
  pub council : AccountId
  pub wallet_impl : AccountId
  pub hos_extension : AccountId
  pub recovery : AccountId
  pub chain_id : ChainId
  pub min_balance : ℕ
  pub wallet_timeout_secs : ℕ
  pub approved_code_hash : Option CryptoHash
  pub approved_at : Option ℕ
  pub config_epoch : ℕ
  pub upgrade_proven : Bool
  pub pending_council : Option AccountId
  pub pending_council_at : Option ℕ

pub data Event : Type 0 where
  sub_account_minted : AccountId → AccountId → Event
  mint_failed : AccountId → Event
  min_balance_set : ℕ → Event
  upgrade_approved : CryptoHash → AccountId → Event
  council_rotation_approved council_rotated : AccountId → AccountId → Event
  council_rotation_cancelled : AccountId → Event
  self_upgraded : Event
  sealed seal_failed : Bytes → AccountId → Event

pub data Promise : Type 0 where
  -- the batch that creates an account: its funding, the account whose global contract it uses, and
  -- the arguments of its `hos_init`
  mint : AccountId → ℕ → AccountId → WalletInit → Promise
  transfer : AccountId → ℕ → Promise
  deploy_and_migrate : Bytes → Promise
  delete_key : Bytes → Promise

-- The callback chained to a promise, with its arguments.
pub data Callback : Type 0 where
  no_callback on_creation_failed : Callback
  on_minted : AccountId → AccountId → ℕ → Callback
  after_seal : Bytes → AccountId → Callback

pub data Effect : Type 0 where
  emit : Event → Effect
  send : Promise → Callback → Effect

pub data Error : Type 0 where
  only_registry only_council only_pending_council requires_one_yocto invalid_name : Error
  insufficient_deposit lease_in_past bad_chain_id bad_min_balance empty_code : Error
  no_approved_hash hash_mismatch approval_too_young no_state payout_is_self : Error
  owner_account_is_self council_is_self council_unchanged no_council_rotation_pending : Error
  council_rotation_too_young registry_is_self state_version_unknown upgrade_not_proven : Error
  -- the check of `#[private]`
  private_method : Error

pub record Outcome : Type 0 where
  pub state : Registrar
  pub effects : List Effect

abbrev pub state_version : ℕ
state_version = 2

-- 7 millinear
abbrev pub account_storage_floor : ℕ
account_storage_floor = 7 * 10 ^ 21

abbrev pub upgrade_delay_ns : ℕ
upgrade_delay_ns = 48 * hour_ns

module _ (env : Env) where
  abbrev pub assert_one_yocto : Result Error (Unit {0})
  assert_one_yocto = require (env.attached_deposit == one_yocto) Error.requires_one_yocto

  -- The caller check that the council's methods share.
  abbrev pub assert_council : Registrar → Result Error (Unit {0})
  assert_council r = require (env.predecessor_account_id == r.council) Error.only_council
