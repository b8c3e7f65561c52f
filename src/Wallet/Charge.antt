-- ===== src/Wallet/Charge.antt =====
-- contracts/hos-wallet/src/lib.rs: the metering of a delegate's spending against its grant.
pub mod Metering
pub mod Spending
pub mod Fence
use text.Mathlib.Text.{◌==◌ as str_eq}
use tla_contracts.Prelude.{
  Bool, true, false, Option, none, some, List, [], ◌∷◌, ◌++◌, ltb, leb, ◌==◌, ◌!=◌, if◌then◌else◌,
  length, is_none, Result, ok, err, require, unwrap_or, ◌>>=◌, ◌>>◌, checked_add, u128_max,
}
use tla_contracts.Prelude.IdSet
use tla_contracts.Prelude.IdMap
use tla_contracts.Near.{AccountId, Env, one_yocto}
use tla_contracts.Wallet.Types.{
  TenantWallet, SpendGrant, Actor, extension, signed_request, Error, NearPromise, NearAction,
  FunctionCall, Upstream, Event, Effect,
}

-- A grant after a charge, with what was logged.
pub record Charged : Type 0 where
  pub grant : SpendGrant
  pub effects : List Effect

abbrev pub first_call : List NearAction → Option FunctionCall
first_call [] = none
first_call (NearAction.function_call c ∷ _) = some c
first_call (_ ∷ rest) = first_call rest

abbrev pub all_transfers : List NearAction → Bool
all_transfers [] = true
all_transfers (NearAction.transfer _ ∷ rest) = all_transfers rest
all_transfers (_ ∷ rest) = false

module _ (up : Upstream) where
  unfoldable pub charge_transfer : SpendGrant → AccountId → NearPromise → Result Error Charged
  charge_transfer grant delegate p = do
    require (IdSet.contains grant.receivers p.receiver_id) Error.receiver_not_granted
    require (all_transfers p.actions) Error.grant_action_not_allowed
    let amount = up.total_deposit p
    spent ← unwrap_or (checked_add u128_max grant.spent_yocto amount) Error.deposit_overflow
    require (leb spent grant.budget_yocto) Error.grant_cap_exceeded
    ok (record {
      grant = record grant { spent_yocto = spent };
      effects = Effect.emit (Event.spend_charged delegate none p.receiver_id amount spent) ∷ [];
    })

  unfoldable pub charge_ft_transfer :
      SpendGrant → AccountId → NearPromise → FunctionCall → Result Error Charged
  charge_ft_transfer grant delegate p call = do
    args ← unwrap_or (up.read_ft_args call.args) Error.grant_args_unreadable
    require (IdSet.contains grant.receivers args.receiver_id) Error.receiver_not_granted
    budget ← unwrap_or (IdMap.get grant.tokens p.receiver_id) Error.token_not_granted
    spent ← unwrap_or (checked_add u128_max budget.spent args.amount) Error.deposit_overflow
    require (leb spent budget.budget) Error.token_cap_exceeded
    ok (record {
      grant = record grant {
        tokens = IdMap.insert grant.tokens p.receiver_id (record budget { spent = spent });
      };
      effects =
          Effect.emit
            (Event.spend_charged delegate (some p.receiver_id) args.receiver_id args.amount spent)
          ∷ [];
    })

  unfoldable pub charge_nft_transfer :
      SpendGrant → AccountId → NearPromise → FunctionCall → Result Error Charged
  charge_nft_transfer grant delegate p call = do
    args ← unwrap_or (up.read_nft_args call.args) Error.grant_args_unreadable
    require (is_none args.approval_id) Error.grant_approval_not_allowed
    require (IdSet.contains grant.receivers args.receiver_id) Error.receiver_not_granted
    fence ← unwrap_or (IdMap.get grant.items p.receiver_id) Error.collection_not_granted
    require (IdSet.contains fence args.token_id) Error.item_not_granted
    ok (record {
      grant = grant;
      effects =
          Effect.emit (Event.item_spent delegate p.receiver_id args.token_id args.receiver_id) ∷ [];
    })

  unfoldable pub charge_token_call :
      SpendGrant → AccountId → AccountId → NearPromise → FunctionCall → Result Error Charged
  charge_token_call grant delegate collection_id p call = do
    require (call.deposit == one_yocto) Error.grant_call_deposit
    require (p.receiver_id != collection_id) Error.own_collection_not_grantable
    if str_eq call.function_name "ft_transfer"
        then charge_ft_transfer grant delegate p call
        else if str_eq call.function_name "nft_transfer"
        then charge_nft_transfer grant delegate p call
        else err Error.grant_method_not_allowed

  unfoldable pub charge_call :
      SpendGrant → AccountId → AccountId → NearPromise → Option FunctionCall → Result Error Charged
  charge_call grant delegate collection_id p none = charge_transfer grant delegate p
  charge_call grant delegate collection_id p (some call) = do
    require (length p.actions == 1) Error.grant_call_must_stand_alone
    charge_token_call grant delegate collection_id p call

  unfoldable pub charge_promise :
      SpendGrant → AccountId → AccountId → NearPromise → Result Error Charged
  unfolding charge_call
  charge_promise grant delegate collection_id p = do
    require (is_none p.refund_to) Error.refund_target_not_allowed
    charge_call grant delegate collection_id p (first_call p.actions)

  -- The loop of `charge_spend`.
  unfoldable pub charge_all :
      SpendGrant → AccountId → AccountId → List NearPromise → Result Error Charged
  charge_all grant delegate collection_id [] = ok (record { grant = grant; effects = [] })
  charge_all grant delegate collection_id (p ∷ ps) = do
    one ← charge_promise grant delegate collection_id p
    rest ← charge_all one.grant delegate collection_id ps
    ok (record { grant = rest.grant; effects = one.effects ++ rest.effects })

  -- The owner's spending is not metered.
  charge_delegate :
      Env → TenantWallet → AccountId → List NearPromise → Result Error (TenantWallet × List Effect)
  charge_delegate env w id external = if id == w.owner then ok (w, []) else do
    grant ← unwrap_or (IdMap.get w.spend_grants id) Error.no_spend_grant
    require (ltb env.block_timestamp grant.expires_at) Error.grant_expired
    charged ← charge_all grant id w.collection_id external
    ok (record w { spend_grants = IdMap.insert w.spend_grants id charged.grant }, charged.effects)

  unfoldable pub charge_spend :
      Env → TenantWallet → Actor → List NearPromise → Result Error (TenantWallet × List Effect)
  unfolding charge_delegate
  charge_spend env w (extension id) external = charge_delegate env w id external
  charge_spend env w signed_request external = err Error.no_spend_grant
