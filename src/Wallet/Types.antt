-- ===== src/Wallet/Types.antt =====
-- contracts/hos-wallet/src/lib.rs, state.rs, events.rs, error.rs: the wallet's state, what a call
-- may send or log, and the reasons for which it panics.
use tla_contracts.Prelude.{ℕ, ◌*◌, ◌^◌, Bool, Option, List, String}
use tla_contracts.Prelude.IdSet.{IdSet}
use tla_contracts.Prelude.IdMap.{IdMap}
use tla_contracts.Near.{AccountId, TokenId, CryptoHash, Bytes, second_ns, hour_ns, tgas}
use tla_contracts.HosCommon.{OperatingState}

pub data FreezeState : Type 0 where
  unfrozen self_frozen authority_frozen : FreezeState

pub data ItemStatus : Type 0 where
  parked suspended expired frozen active : ItemStatus

pub record TokenBudget : Type 0 where
  pub budget : ℕ
  pub spent : ℕ

pub record SpendGrant : Type 0 where
  pub receivers : IdSet
  pub budget_yocto : ℕ
  pub spent_yocto : ℕ
  pub tokens : IdMap TokenBudget
  pub items : IdMap IdSet
  pub expires_at : ℕ

pub record TokenAllowance : Type 0 where
  pub token : AccountId
  pub budget : ℕ

pub record ItemAllowance : Type 0 where
  pub collection : AccountId
  pub token_ids : List TokenId

pub record FtTransferArgs : Type 0 where
  pub receiver_id : AccountId
  pub amount : ℕ

pub record NftTransferArgs : Type 0 where
  pub receiver_id : AccountId
  pub token_id : TokenId
  pub approval_id : Option ℕ

-- The upstream `State<NoPublicKey>`, less its key, which `NoPublicKey` makes empty, and its fixed
-- subwallet id. Its nonces are kept as stored bytes, which the wallet never reads itself.
pub record WalletState : Type 0 where
  pub signature_enabled : Bool
  pub nonces : Bytes
  pub extensions : IdSet

pub record TenantWallet : Type 0 where
  pub state_version : ℕ
  pub wallet : WalletState
  pub authority : AccountId
  pub owner : AccountId
  pub collection_id : AccountId
  pub payout_account : AccountId
  pub lease_until_ns : ℕ
  pub state : OperatingState
  pub frozen : FreezeState
  pub authority_freeze_until_ns : ℕ
  pub spend_grants : IdMap SpendGrant
  pub revert_to : Option AccountId
  pub revert_until_ns : ℕ
  pub rotation_seq : ℕ
  pub pinned_impl : Option CryptoHash
  pub approved_impl : Option CryptoHash
  pub approved_impl_at : ℕ

pub record FunctionCall : Type 0 where
  pub function_name : String
  pub args : Bytes
  pub deposit : ℕ

-- `near_action` is any action that is neither a call nor a transfer.
pub data NearAction : Type 0 where
  function_call : FunctionCall → NearAction
  transfer : ℕ → NearAction
  near_action : ℕ → NearAction

pub record NearPromise : Type 0 where
  pub receiver_id : AccountId
  pub refund_to : Option AccountId
  pub actions : List NearAction

pub data WalletOp : Type 0 where
  set_signature_mode : Bool → WalletOp
  add_extension remove_extension : AccountId → WalletOp

pub record Request : Type 0 where
  pub internal : List WalletOp
  pub external : List NearPromise

pub data Actor : Type 0 where
  extension : AccountId → Actor
  signed_request : Actor

pub record AuthorizationBlob : Type 0 where
  pub payload : String
  pub owner : AccountId
  pub authorization : String

-- What the wallet uses of the crates `defuse_wallet` and `serde_json`.
pub record Upstream : Type 0 where
  pub new_nonces : ℕ → Bytes
  pub check_cleanup : ℕ → Bytes → Bytes
  pub has_extension : WalletState → AccountId → Bool
  pub total_deposit : NearPromise → ℕ
  pub read_ft_args : Bytes → Option FtTransferArgs
  pub read_nft_args : Bytes → Option NftTransferArgs
  pub read_blob : String → Option AuthorizationBlob

pub record WalletInit : Type 0 where
  pub owner_account : AccountId
  pub authority : AccountId
  pub collection_id : AccountId
  pub payout_account : AccountId
  pub lease_until_ns : ℕ
  pub timeout_secs : ℕ

pub data Event : Type 0 where
  wallet_initialized : AccountId → Event
  lease_set : ℕ → OperatingState → Event
  lease_retracted : ℕ → ℕ → Event
  payout_account_set : AccountId → Event
  impl_pin_requested impl_pinned impl_pin_failed impl_approved : CryptoHash → Event
  impl_cancelled : Event
  spend_granted spend_revoked : AccountId → Event
  spend_charged : AccountId → Option AccountId → AccountId → ℕ → ℕ → Event
  item_spent : AccountId → AccountId → TokenId → AccountId → Event
  swept_near : AccountId → ℕ → Event
  swept_ft : AccountId → AccountId → ℕ → Event
  sweep_failed : AccountId → Option AccountId → ℕ → Event
  frozen : Bool → Event
  unfrozen : Event
  extension_added extension_removed : AccountId → Actor → Event

-- A promise that the wallet schedules, the resolving call of its chain included.
pub data Promise : Type 0 where
  -- transfer to the payout account, then `hos_resolve_sweep`
  sweep_near : AccountId → ℕ → Promise
  -- `ft_transfer` on a token to the payout account, then `hos_resolve_sweep`
  sweep_ft : AccountId → AccountId → ℕ → Promise
  -- a promise of the request, as it was given
  forward : NearPromise → Promise
  -- use the global contract, `hos_migrate` with a collection and gas, then `hos_on_pinned`
  bind_impl : CryptoHash → AccountId → ℕ → ℕ → Promise

pub data Effect : Type 0 where
  emit : Event → Effect
  send : Promise → Effect

pub data Error : Type 0 where
  only_parent only_authority only_renter only_owner no_state unauthorized authority_protected :
      Error
  authority_is_self self_target not_active lease_expired frozen not_frozen self_frozen : Error
  authority_frozen invalid_timeout lease_in_past lease_not_monotonic retraction_not_shorter : Error
  retraction_notice_too_short bad_lease_state rerent_needs_own_call reserve_breach : Error
  deposit_overflow payout_is_self owner_moved owner_is_self collection_is_self lease_active : Error
  extensions_locked transfer_not_requested nothing_to_revert revert_window_closed : Error
  revert_target_pinned nothing_to_sweep no_spend_grant grant_expired receiver_not_granted : Error
  grant_action_not_allowed grant_method_not_allowed grant_call_must_stand_alone : Error
  grant_call_deposit grant_args_unreadable grant_approval_not_allowed token_not_granted : Error
  token_cap_exceeded token_listed_twice collection_not_granted collection_listed_twice : Error
  item_not_granted empty_item_grant own_collection_not_grantable refund_target_not_allowed : Error
  grant_cap_exceeded empty_grant grant_in_past authorization_not_json authority_not_owner
        not_an_owner :
      Error
  grantee_not_owner freeze_cooldown state_version_unknown one_yocto no_approved_impl : Error
  impl_pin_too_young collection_moved pin_gas_too_low : Error
  -- the check of `#[private]`
  private_method : Error
  -- upstream's `ContractError`
  signature_disabled insufficient_deposit self_calls_not_allowed lockout : Error
  extension_not_enabled extension_enabled : AccountId → Error

-- A call that succeeds: the state it leaves, and its logs and promises in order.
pub record Outcome : Type 0 where
  pub state : TenantWallet
  pub effects : List Effect

abbrev pub impl_version : ℕ
impl_version = 7

abbrev pub state_version : ℕ
state_version = 1

abbrev pub min_timeout_secs : ℕ
min_timeout_secs = 60

abbrev pub max_timeout_secs : ℕ
max_timeout_secs = 2_592_000

abbrev pub impl_pin_delay_ns : ℕ
impl_pin_delay_ns = 48 * hour_ns

-- 5 millinear
abbrev pub renter_buffer : ℕ
renter_buffer = 5 * 10 ^ 21

abbrev pub revert_window_ns : ℕ
revert_window_ns = 5 * 60 * second_ns

abbrev pub gas_for_pin_reserve : ℕ
gas_for_pin_reserve = 30 * tgas

abbrev pub min_pin_gas : ℕ
min_pin_gas = 100 * tgas
