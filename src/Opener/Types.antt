-- ===== src/Opener/Types.antt =====
-- contracts/registrar-opener/src/lib.rs, batch.rs, error.rs: the opener's state, what a call may send
-- or log, and the reasons for which it panics.
use tla_contracts.Prelude.{
  ℕ, ◌*◌, ◌^◌, Bool, Option, none, some, List, [], Result, require, ◌>>◌, unwrap_or, ◌==◌, ◌||◌,
}
use tla_contracts.Prelude.IdSet.{IdSet}
use tla_contracts.Prelude.IdMap
use tla_contracts.Prelude.IdMap.{IdMap}
use tla_contracts.Near.{AccountId, CryptoHash, Bytes, Env, one_yocto, tgas}

-- A batch of names to be opened. Its set of names is not in it, but in the storage of the contract.
pub record Batch : Type 0 where
  pub approved : Bool
  pub digest : CryptoHash
  pub count : ℕ
  pub remaining : ℕ
  pub global_code : AccountId
  pub init_args : Bytes
  pub funding : ℕ

pub record RegistrarOpener : Type 0 where
  pub state_version : ℕ
  pub admin : AccountId
  pub pending_admin : Option AccountId
  pub operator : AccountId
  pub batches : IdMap Batch
  pub next_batch_id : ℕ
  pub opened : ℕ
  pub failed : ℕ
  -- what is stored under `StorageKey::BatchNames { batch_id }`, also once the batch is gone
  pub batch_names : IdMap IdSet

-- What the code uses of `near_sdk` and `serde_json` beside the receipt: the bytes of a digest, the
-- kind of an account id, and whether a text is a JSON object.
pub record Host : Type 0 where
  pub to_vec : CryptoHash → Bytes
  pub is_implicit : AccountId → Bool
  pub is_object : Bytes → Bool

pub data Event : Type 0 where
  installed : ℕ → AccountId → AccountId → Event
  migrated : ℕ → Event
  batch_created : ℕ → ℕ → AccountId → Event
  names_added : ℕ → ℕ → CryptoHash → Event
  batch_discarded : ℕ → Bool → Event
  names_forgotten : ℕ → ℕ → Event
  opening opened : AccountId → Option ℕ → Event
  open_failed : AccountId → ℕ → Event
  batch_approved : ℕ → ℕ → CryptoHash → Event
  operator_changed admin_nominated admin_changed nomination_cancelled : AccountId → Event
  upgrading upgraded : CryptoHash → Event

-- The actions of `open_account` on the new account.
pub record Opening : Type 0 where
  pub name : AccountId
  pub funding : ℕ
  pub global_code : AccountId
  pub init_args : Bytes

pub data Promise : Type 0 where
  -- open the account, then `on_name_opened` with the batch, or `on_account_created` without one
  open_account : Opening → Option ℕ → Promise
  -- deploy the code on this account and call `migrate`, then `on_upgraded` with its hash
  deploy_and_migrate : Bytes → CryptoHash → Promise

pub data Effect : Type 0 where
  emit : Event → Effect
  send : Promise → Effect

pub data Error : Type 0 where
  only_admin only_operator only_admin_or_operator only_self only_pending_admin : Error
  no_pending_admin admin_is_operator nominee_is_operator role_is_self already_installed : Error
  no_state state_version_unknown batches_live requires_one_yocto : Error
  no_batch batch_is_approved batch_not_approved batch_empty batch_live batch_not_discarded : Error
  too_many_batches batch_ids_exhausted digest_mismatch code_is_self init_args_too_long : Error
  init_args_not_an_object not_in_batch : Error
  empty_names too_many_names duplicate_name not_top_level name_too_short name_too_long : Error
  name_is_implicit gas_too_low funding_too_low deposit_mismatch open_failed upgrade_failed : Error
  -- the check of `#[private]`
  private_method : Error

pub record Outcome : Type 0 where
  pub state : RegistrarOpener
  pub effects : List Effect

abbrev pub state_version : ℕ
state_version = 2

abbrev pub gas_per_name : ℕ
gas_per_name = 25 * tgas

-- 10 millinear
abbrev pub min_funding : ℕ
min_funding = 10 ^ 22

abbrev pub max_names_per_call : ℕ
max_names_per_call = 11

abbrev pub max_names_per_add : ℕ
max_names_per_add = 100

abbrev pub max_live_batches : ℕ
max_live_batches = 4

abbrev pub max_init_args_len : ℕ
max_init_args_len = 1024

abbrev pub Check : Type 0
Check = Result Error (Unit {0})

abbrev pub assert_one_yocto : Env → Check
assert_one_yocto env = require (env.attached_deposit == one_yocto) Error.requires_one_yocto

abbrev pub assert_admin_account : Env → RegistrarOpener → Check
assert_admin_account env s = require (env.predecessor_account_id == s.admin) Error.only_admin

abbrev pub assert_admin : Env → RegistrarOpener → Check
assert_admin env s = assert_one_yocto env >> assert_admin_account env s

abbrev pub assert_operator_account : Env → RegistrarOpener → Check
assert_operator_account env s =
    require (env.predecessor_account_id == s.operator) Error.only_operator

abbrev pub assert_operator : Env → RegistrarOpener → Check
assert_operator env s = assert_one_yocto env >> assert_operator_account env s

abbrev pub assert_admin_or_operator : Env → RegistrarOpener → Check
assert_admin_or_operator env s =
    assert_one_yocto env
    >> require (env.predecessor_account_id == s.operator || env.predecessor_account_id == s.admin)
        Error.only_admin_or_operator

abbrev pub batch_mut : RegistrarOpener → ℕ → Result Error Batch
batch_mut s batch_id = unwrap_or (IdMap.get s.batches batch_id) Error.no_batch

-- The names stored for a batch id: none, if nothing was ever stored.
unfoldable pub names_of : RegistrarOpener → ℕ → IdSet
unfolding IdMap.get
names_of s batch_id = elim (IdMap.get s.batch_names batch_id) [ none ↦ [] | some names ↦ names ]
