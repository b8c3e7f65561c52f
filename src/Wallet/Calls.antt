-- ===== src/Wallet/Calls.antt =====
-- contracts/hos-wallet/src/lib.rs: every entry point that changes the state, as one step.
use tla_contracts.Prelude.{ℕ, Option, List, [], ◌∷◌, Result, ok, err, require, ◌>>◌, ◌==◌}
use tla_contracts.Near.{AccountId, CryptoHash, Env}
use tla_contracts.HosCommon.{OperatingState, RotationCause}
use tla_contracts.Wallet.Types.{
  TenantWallet, TokenAllowance, ItemAllowance, Error, Upstream, Outcome, Request,
}
use tla_contracts.Wallet.Guards.{Check}
use tla_contracts.Wallet.Grants.{hos_grant_spend, hos_revoke_spend}
use tla_contracts.Wallet.Execute.{w_execute_extension}
use tla_contracts.Wallet.Lease.{hos_set_payout_account, hos_set_lease, hos_retract_lease}
use tla_contracts.Wallet.Freeze.{hos_freeze, hos_unfreeze}
use tla_contracts.Wallet.Rotation.{hos_transfer_ownership, hos_re_rent}
use tla_contracts.Wallet.Sweep.{hos_sweep_near, hos_sweep_ft, hos_resolve_sweep}
use tla_contracts.Wallet.Impl.{hos_approve_impl, hos_cancel_impl, hos_pin_impl, hos_on_pinned}

-- A call with its arguments.
pub data Call : Type 0 where
  execute_signed : Call
  execute_extension : Request → Call
  grant_spend : AccountId → List AccountId → ℕ → List TokenAllowance → List ItemAllowance → ℕ → Call
  revoke_spend : AccountId → Call
  set_payout_account : AccountId → AccountId → Call
  approve_impl : CryptoHash → Call
  cancel_impl pin_impl freeze unfreeze sweep_near : Call
  on_pinned : CryptoHash → ℕ → Call
  set_lease : ℕ → OperatingState → Call
  retract_lease : ℕ → Call
  transfer_ownership : Option AccountId → RotationCause → Option AccountId → Call
  re_rent : AccountId → AccountId → ℕ → Call
  sweep_ft : AccountId → ℕ → Call
  resolve_sweep : AccountId → Option AccountId → ℕ → Call

-- `#[private]`: the caller is this account.
abbrev assert_private : Env → Check
assert_private env =
    require (env.predecessor_account_id == env.current_account_id) Error.private_method

unfoldable pub run_call : Upstream → Env → Call → TenantWallet → Result Error Outcome
run_call up env execute_signed w = err Error.signature_disabled
run_call up env (execute_extension request) w = w_execute_extension env up request w
run_call up env (grant_spend delegate receivers budget tokens items expires_at) w =
    hos_grant_spend env delegate receivers budget tokens items expires_at w
run_call up env (revoke_spend delegate) w = hos_revoke_spend env delegate w
run_call up env (set_payout_account payout expected) w =
    hos_set_payout_account env payout expected w
run_call up env (approve_impl code_hash) w = hos_approve_impl env code_hash w
run_call up env cancel_impl w = hos_cancel_impl env w
run_call up env pin_impl w = hos_pin_impl env w
run_call up env freeze w = hos_freeze env w
run_call up env unfreeze w = hos_unfreeze env w
run_call up env sweep_near w = hos_sweep_near env w
run_call up env (on_pinned code_hash approved_at) w = do
  assert_private env
  ok (hos_on_pinned env code_hash approved_at w)
run_call up env (set_lease until state) w = hos_set_lease env until state w
run_call up env (retract_lease until) w = hos_retract_lease env until w
run_call up env (transfer_ownership to cause asked_by) w =
    hos_transfer_ownership env to cause asked_by w
run_call up env (re_rent to payout until) w = hos_re_rent env to payout until w
run_call up env (sweep_ft ft amount) w = hos_sweep_ft env ft amount w
run_call up env (resolve_sweep payout ft amount) w = do
  assert_private env
  ok (hos_resolve_sweep env payout ft amount w).1

-- A receipt: what the host shows it, and the call that it makes.
abbrev pub Receipt : Type 0
Receipt = Env × Call

-- A call that panics leaves the state as it was.
unfoldable pub receive : Upstream → TenantWallet → Receipt → TenantWallet
unfolding run_call
receive up w (env, call) = elim (run_call up env call w) [ ok done ↦ done.state | err _ ↦ w ]

unfoldable pub receive_all : Upstream → TenantWallet → List Receipt → TenantWallet
receive_all up w [] = w
receive_all up w (r ∷ rs) = receive_all up (receive up w r) rs
