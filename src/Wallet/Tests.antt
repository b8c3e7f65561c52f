-- ===== src/Wallet/Tests.antt =====
-- A leased account with an owner, an authority and a delegate, for the tests of the wallet.
mod Delegates
mod Terms
use tla_contracts.Wallet.Calls
use tla_contracts.HosCommon.{RotationCause}
use tla_contracts.Prelude.{
  ℕ, ◌+◌, ◌*◌, ◌^◌, ◌≡◌, ◌≢◌, ◌≤◌, ◌⊎◌, ◌↔◌, refl, true, false, Option, none, some, List, [], ◌∷◌,
  Result, ok, err, arith, sat_add, u64_max, ◌==◌, if◌then◌else◌,
}
use tla_contracts.Prelude.Codes
use tla_contracts.Prelude.IdSet
use tla_contracts.Prelude.IdMap
use tla_contracts.Near.{AccountId, Env, day_ns, hour_ns}
use tla_contracts.HosCommon.{
  OperatingState, RotationCause, min_lease_retract_notice_ns, max_authority_hold_ns,
}
use tla_contracts.Wallet.Types.{
  TenantWallet, Upstream, SpendGrant, FreezeState, NearPromise, NearAction, Outcome, Error,
  WalletOp, WalletInit, extension,
}
use tla_contracts.Wallet.Guards.{
  effective_frozen, assert_renter_active, assert_extension_editor, assert_within_reserve,
  assert_renter, check_lockout,
}
use tla_contracts.Wallet.Charge.{
  Charged, charge_all, charge_promise, charge_call, charge_transfer, charge_spend,
}
use tla_contracts.Wallet.Charge.Metering.{Meters, yocto_total, token_total, charge_all-Meters}
use tla_contracts.Wallet.Charge.Fence.{AreAllowed, charge_all-AreAllowed}
use tla_contracts.Wallet.Execute.{
  execute_ops, execute_op, remove_extension, execute_external, execute_request, w_execute_extension,
  forward_all,
}
use tla_contracts.Wallet.Sweep.{sweep_to, sweep_amount}
use tla_contracts.Wallet.Rotation.{hos_transfer_ownership, apply_rotation, open_gate, rotate}
use tla_contracts.Wallet.Freeze.{hos_freeze}
use tla_contracts.Wallet.Lease.{hos_set_payout_account}
use tla_contracts.Wallet.Impl.{hos_pin_impl, hos_on_pinned}
use tla_contracts.Wallet.Init.{hos_init, is_direct_subaccount}
use tla_contracts.Wallet.Calls
use tla_contracts.Wallet.Invariant.{IsValid}
use tla_contracts.Wallet.Invariant.Reach.{receive_all-IsValid, hos_init-IsValid}
use tla_contracts.Wallet.Spending.{
  SameTerms, IsEditor, execute_extension-SameTerms, execute_ops_editors,
}
use tla_contracts.Wallet.Spending.Conditions.{MaySpend, execute_extension-MaySpend}
use tla_contracts.Wallet.Custody.{
  Gate, Rotated, Window, transfer_ownership-Gate, transfer_ownership-Rotated,
}
use tla_contracts.Wallet.Revert.{revert-transfer_ownership}
use tla_contracts.Wallet.Tenure.{receive_all-notice}
use tla_contracts.Wallet.Holds.{own_freeze_stands, authority_freeze_gap, authority_freeze_lapses}
use tla_contracts.Wallet.Naming.{IsLabelOf, is_direct_subaccount_iff}

-- "tla", "bob.tla" and, for any other account, "eve"
abbrev names : AccountId → List ℕ
names id =
    if id == 2
    then b't' ∷ b'l' ∷ b'a' ∷ []
    else if id == 1
    then b'b' ∷ b'o' ∷ b'b' ∷ b'.' ∷ b't' ∷ b'l' ∷ b'a' ∷ []
    else b'e' ∷ b'v' ∷ b'e' ∷ []

-- A receipt on account 1.
abbrev pub env_at : AccountId → ℕ → Env
env_at caller now = record {
  current_account_id = 1;
  predecessor_account_id = caller;
  block_timestamp = now;
  attached_deposit = 1;
  account_balance = 10 ^ 25;
  storage_byte_cost = 10 ^ 19;
  storage_usage = 1000;
  prepaid_gas = 3 * 10 ^ 14;
  used_gas = 0;
  promise_success = false;
  as_str = names;
  sha256 = λ bytes. 7;
}

abbrev pub deposits : List NearAction → ℕ
deposits [] = 0
deposits (NearAction.transfer amount ∷ rest) = amount + deposits rest
deposits (NearAction.function_call call ∷ rest) = deposits rest
deposits (NearAction.near_action tag ∷ rest) = deposits rest

abbrev pub upstream : Upstream
upstream = record {
  new_nonces = λ timeout. [];
  check_cleanup = λ now nonces. nonces;
  has_extension = λ s id. IdSet.contains s.extensions id;
  total_deposit = λ p. deposits p.actions;
  read_ft_args = λ args. none;
  read_nft_args = λ args. none;
  read_blob = λ text. none;
}

-- The delegate 40 may pay account 50 up to a thousand yocto.
abbrev pub grant : SpendGrant
grant = record {
  receivers = 50 ∷ [];
  budget_yocto = 1000;
  spent_yocto = 0;
  tokens = [];
  items = [];
  expires_at = 10 ^ 18;
}

-- Owner 20, authority 10, collection 30, payout account 21; leased until 10 ^ 18.
abbrev pub leased : TenantWallet
leased = record {
  state_version = 1;
  wallet = record { signature_enabled = false; nonces = []; extensions = 20 ∷ 10 ∷ 40 ∷ [] };
  authority = 10;
  owner = 20;
  collection_id = 30;
  payout_account = 21;
  lease_until_ns = 10 ^ 18;
  state = OperatingState.active;
  frozen = FreezeState.unfrozen;
  authority_freeze_until_ns = 0;
  spend_grants = (40, grant) ∷ [];
  revert_to = none;
  revert_until_ns = 0;
  rotation_seq = 0;
  pinned_impl = none;
  approved_impl = some 77;
  approved_impl_at = 0;
}

abbrev pub payment : NearPromise
payment = record { receiver_id = 50; refund_to = none; actions = NearAction.transfer 600 ∷ [] }

abbrev pub result : Result Error Outcome → Outcome
result (ok done) = done
result (err e) = record { state = leased; effects = [] }

abbrev pub charged : Result Error Charged → Charged
charged (ok c) = c
charged (err e) = record { grant = grant; effects = [] }

grants_of_leased :
    (k : AccountId)
    → (IdMap.contains_key (leased.spend_grants) k ≡ true)
    → (IdSet.contains (leased.wallet.extensions) k ≡ true) × (k ≢ 20) × (k ≢ 10)
unfolding IdMap.get IdSet.contains
grants_of_leased k h = ground arith

pub leased-IsValid : IsValid 1 leased
unfolding IdSet.contains
leased-IsValid = record {
  no_key = refl;
  authority_held = refl;
  self_not_held = refl;
  owner_ne_authority = λ e. omega arith;
  owner_ne_self = λ e. omega arith;
  payout_ne_self = λ e. omega arith;
  grants_delegates = grants_of_leased;
}

-- The owner pays, the authority deposits the account with another holder.
abbrev pub receipts : List Calls.Receipt
receipts =
    (env_at 20 100, Calls.execute_extension (record { internal = []; external = payment ∷ [] }))
    ∷ (env_at 10 200, Calls.transfer_ownership (some 60) RotationCause.deposit (some 20))
    ∷ []
