-- ===== src/Extension/Types.antt =====
-- contracts/hos-extension/src/lib.rs, events.rs, error.rs: the extension's state, what a call may log
-- or send, and the reasons for which it panics.
use tla_contracts.Prelude.{
  ℕ, ◌+◌, ◌*◌, ◌^◌, Bool, false, ◌&&◌, Option, List, [], ◌∷◌, ltb, ◌==◌, not, same_option, Result,
  require, if◌then◌else◌, String, ◌||◌,
}
use tla_contracts.Prelude.IdSet
use tla_contracts.Prelude.IdSet.{IdSet}
use tla_contracts.Near.{AccountId, CryptoHash, Bytes, Env, hour_ns, one_yocto}
use tla_contracts.HosCommon.{OperatingState, RotationCause, ft_storage_deposit_yocto}

pub record PendingSweep : Type 0 where
  pub wallet : AccountId
  pub ft : Option AccountId

-- The derived equality.
abbrev pub same_sweep : PendingSweep → PendingSweep → Bool
same_sweep a b = (a.wallet == b.wallet) && same_option a.ft b.ft

abbrev pub SweepSet : Type 0
SweepSet = List PendingSweep

-- `IterableSet<PendingSweep>`, read by membership alone.
unfoldable pub has_sweep : SweepSet → PendingSweep → Bool
has_sweep [] a = false
has_sweep (x ∷ xs) a = same_sweep a x || has_sweep xs a

unfoldable pub add_sweep : SweepSet → PendingSweep → SweepSet
unfolding has_sweep
add_sweep xs a = if has_sweep xs a then xs else a ∷ xs

unfoldable pub remove_sweep : SweepSet → PendingSweep → SweepSet
remove_sweep [] a = []
remove_sweep (x ∷ xs) a = let rest = remove_sweep xs a in if same_sweep a x then rest else x ∷ rest

pub record HosExtension : Type 0 where
  pub state_version : ℕ
  pub admins : IdSet
  pub registry : AccountId
  pub recovery : AccountId
  pub paused : Bool
  pub version : ℕ
  pub treasury : AccountId
  pub approved_code_hash : Option CryptoHash
  pub approved_at : Option ℕ
  pub council : AccountId
  pub paused_until_ns : ℕ
  pub recovery_reset_pending : IdSet
  pub sweep_pending : SweepSet
  pub upgrade_proven : Bool
  pub pending_council : Option AccountId
  pub pending_council_at : Option ℕ
  pub pending_treasury : Option AccountId
  pub pending_treasury_at : Option ℕ

pub data Event : Type 0 where
  contract_paused contract_unpaused : AccountId → Event
  admin_added admin_removed : AccountId → AccountId → Event
  force_transfer_requested : AccountId → Option AccountId → Bool → AccountId → Event
  force_transfer_completed force_transfer_voided : AccountId → Event
  upgraded : AccountId → Event
  sealed seal_failed : Bytes → AccountId → Event
  recovery_reset_pending : AccountId → Event
  sweep_pending : AccountId → Option AccountId → Event
  upgrade_approved : CryptoHash → AccountId → Event
  council_rotation_approved council_rotated treasury_rotation_approved :
      AccountId → AccountId → Event
  council_rotation_cancelled treasury_rotation_cancelled : AccountId → Event
  treasury_rotated : AccountId → AccountId → AccountId → Event
  balance_skimmed skim_failed : ℕ → AccountId → AccountId → Event
  sweep_requested : AccountId → AccountId → AccountId → Event
  near_sweep_requested : AccountId → AccountId → Event
  sweep_dispatched : AccountId → AccountId → AccountId → ℕ → Event
  sweep_skipped sweep_failed : AccountId → AccountId → String → Event

-- The methods of a leased account that this contract calls.
pub data WalletCall : Type 0 where
  set_lease : ℕ → OperatingState → WalletCall
  retract_lease : ℕ → WalletCall
  set_payout_account : AccountId → AccountId → WalletCall
  migrate : AccountId → WalletCall
  transfer_ownership : Option AccountId → RotationCause → Option AccountId → WalletCall
  re_rent : AccountId → AccountId → ℕ → WalletCall
  sweep_near payout_account : WalletCall
  sweep_ft : AccountId → ℕ → WalletCall

pub data Promise : Type 0 where
  -- a call of the leased account, with the deposit attached
  call_wallet : AccountId → WalletCall → ℕ → Promise
  -- `on_wallet_transferred` of the recovery contract, about the account
  on_wallet_transferred : AccountId → AccountId → Promise
  -- `ft_balance_of` of the token, about the account
  ft_balance_of : AccountId → AccountId → Promise
  -- `storage_deposit` of the token, for the account, with the deposit attached
  storage_deposit : AccountId → AccountId → ℕ → Promise
  transfer : AccountId → ℕ → Promise
  deploy_and_migrate : Bytes → Promise
  delete_key : Bytes → Promise

-- The callback chained to a promise, with its arguments.
pub data Callback : Type 0 where
  no_callback : Callback
  after_recovery_reset after_force_swap after_re_rent after_near_sweep : AccountId → Callback
  after_seal : Bytes → AccountId → Callback
  after_skim : ℕ → AccountId → AccountId → Callback
  after_payout_for_sweep : AccountId → AccountId → AccountId → Callback
  after_balance_for_sweep : AccountId → AccountId → AccountId → AccountId → Callback
  after_storage_for_sweep : AccountId → AccountId → AccountId → AccountId → ℕ → Callback
  after_sweep_settled : AccountId → AccountId → AccountId → ℕ → Callback

pub data Effect : Type 0 where
  emit : Event → Effect
  send : Promise → Callback → Effect

pub data Error : Type 0 where
  only_admin only_council only_registry no_pending_reset no_pending_sweep is_paused : Error
  cannot_remove_last_admin insufficient_deposit insufficient_balance admin_set_full : Error
  empty_code no_approved_hash hash_mismatch approval_too_young park_takes_no_owner : Error
  re_rent_needs_own_call transfer_needs_owner transfer_needs_holder requires_one_yocto : Error
  upgrade_not_proven council_unchanged council_is_self no_council_rotation_pending : Error
  only_pending_council council_rotation_too_young treasury_unchanged treasury_is_self : Error
  no_treasury_rotation_pending only_pending_treasury treasury_rotation_too_young : Error
  empty_batch batch_too_large state_version_unknown no_state : Error
  -- the check of `#[private]`
  private_method : Error

pub record Outcome : Type 0 where
  pub state : HosExtension
  pub effects : List Effect

abbrev pub contract_version : ℕ
contract_version = 1

abbrev pub state_version : ℕ
state_version = 4

abbrev pub upgrade_delay_ns : ℕ
upgrade_delay_ns = 48 * hour_ns

abbrev pub max_migrate_batch : ℕ
max_migrate_batch = 25

-- 100 millinear
abbrev pub skim_buffer : ℕ
skim_buffer = 10 ^ 23

abbrev pub max_admins : ℕ
max_admins = 32

abbrev pub storage_deposit_amount : ℕ
storage_deposit_amount = ft_storage_deposit_yocto

abbrev pub min_sweep_attached : ℕ
min_sweep_attached = ft_storage_deposit_yocto + 1

abbrev pub extension_call_deposit : ℕ
extension_call_deposit = 1

abbrev pub Check : Type 0
Check = Result Error (Unit {0})

module _ (env : Env) where
  abbrev pub assert_admin : HosExtension → Check
  assert_admin x = require (IdSet.contains x.admins env.predecessor_account_id) Error.only_admin

  abbrev pub assert_council : HosExtension → Check
  assert_council x = require (env.predecessor_account_id == x.council) Error.only_council

  abbrev pub assert_one_yocto : Check
  assert_one_yocto = require (env.attached_deposit == one_yocto) Error.requires_one_yocto

  abbrev pub assert_registry : HosExtension → Check
  assert_registry x = require (env.predecessor_account_id == x.registry) Error.only_registry

  unfoldable pub effective_paused : HosExtension → Bool
  effective_paused x = x.paused && ltb env.block_timestamp x.paused_until_ns

  abbrev pub assert_not_paused : HosExtension → Check
  assert_not_paused x = require (not (effective_paused x)) Error.is_paused
