-- ===== src/Wallet/Invariant/Reach.antt =====
-- contracts/hos-wallet/src/lib.rs: every wallet that `hos_init` made is valid, whatever receipts reach it.
use tla_contracts.Prelude.{ok, ◌≡◌, List, [], ◌∷◌, arith}
use tla_contracts.Prelude.IdSet
use tla_contracts.Prelude.IdMap
use tla_contracts.Prelude.IdMap.{IdMap}
use tla_contracts.Prelude.IdSet.{IdSet}
use tla_contracts.Near.{AccountId, Env}
use tla_contracts.Wallet.Types.{TenantWallet, Upstream, WalletInit}
use tla_contracts.Wallet.Invariant.{
  Outcome, IsValid, Ensures, set_payout_account-IsValid, set_lease-IsValid, retract_lease-IsValid,
  freeze-IsValid, unfreeze-IsValid, approve_impl-IsValid, cancel_impl-IsValid, pin_impl-IsValid,
  on_pinned-IsValid, sweep_near-IsValid, sweep_ft-IsValid, revoke_spend-IsValid,
}
use tla_contracts.Wallet.Invariant.Rotation.{transfer_ownership-IsValid, re_rent-IsValid}
use tla_contracts.Wallet.Invariant.Execute.{execute_extension-IsValid}
use tla_contracts.Wallet.Invariant.Grants.{grant_spend-IsValid}
use tla_contracts.Wallet.Sweep.{hos_resolve_sweep}
use tla_contracts.Wallet.Init.{hos_init}
use tla_contracts.Wallet.Calls

module _ (self : AccountId) where
  -- The receipt runs on this account.
  abbrev pub IsHere : Calls.Receipt → Type 0
  IsHere (env, call) = env.current_account_id ≡ self

  abbrev pub AreHere : List Calls.Receipt → Type 0
  AreHere [] = Unit
  AreHere (r ∷ rs) = IsHere r × AreHere rs

  module _ (up : Upstream) where
    run_call-IsValid :
        (env : Env) (call : Calls.Call) (w : TenantWallet)
        → env.current_account_id ≡ self
        → IsValid self w
        → Ensures (IsValid self) (Calls.run_call up env call w)
    unfolding Calls.run_call hos_resolve_sweep
    run_call-IsValid env Calls.execute_signed w here v = tt
    run_call-IsValid env (Calls.execute_extension request) w here v =
        execute_extension-IsValid self env here up request w v
    run_call-IsValid env (Calls.grant_spend d r b t i x) w here v =
        grant_spend-IsValid self w v env d r b t i x
    run_call-IsValid env (Calls.revoke_spend d) w here v = revoke_spend-IsValid self w v env d
    run_call-IsValid env (Calls.set_payout_account p o) w here v =
        set_payout_account-IsValid self w v env here p o
    run_call-IsValid env (Calls.approve_impl h) w here v = approve_impl-IsValid self w v env h
    run_call-IsValid env Calls.cancel_impl w here v = cancel_impl-IsValid self w v env
    run_call-IsValid env Calls.pin_impl w here v = pin_impl-IsValid self w v env
    run_call-IsValid env Calls.freeze w here v = freeze-IsValid self w v env
    run_call-IsValid env Calls.unfreeze w here v = unfreeze-IsValid self w v env
    run_call-IsValid env Calls.sweep_near w here v = sweep_near-IsValid self w v env
    run_call-IsValid env (Calls.on_pinned h at) w here v =
        ground (arith, on_pinned-IsValid self w v env h at)
    run_call-IsValid env (Calls.set_lease until s) w here v = set_lease-IsValid self w v env until s
    run_call-IsValid env (Calls.retract_lease until) w here v =
        retract_lease-IsValid self w v env until
    run_call-IsValid env (Calls.transfer_ownership to c asked) w here v =
        transfer_ownership-IsValid self env here w v to c asked
    run_call-IsValid env (Calls.re_rent to p until) w here v =
        re_rent-IsValid self env here w v to p until
    run_call-IsValid env (Calls.sweep_ft ft amount) w here v =
        sweep_ft-IsValid self w v env ft amount
    run_call-IsValid env (Calls.resolve_sweep p ft amount) w here v = ground arith

    receive-IsValid :
        (r : Calls.Receipt) (w : TenantWallet)
        → IsHere r
        → IsValid self w
        → IsValid self (Calls.receive up w r)
    unfolding Calls.receive
    receive-IsValid (env, call) w here v = ground (arith, run_call-IsValid env call w here v)

    -- From a valid wallet, whatever receipts run on the account, in any order and from any caller,
    -- the wallet stays valid: no key signs, the authority stays in the extension set and this
    -- account out of it, owner and authority differ, neither owner nor payout account is this
    -- account, and every spending grant is held by an extension that is neither party.
    pub receive_all-IsValid :
        (rs : List Calls.Receipt) (w : TenantWallet)
        → AreHere rs
        → IsValid self w
        → IsValid self (Calls.receive_all up w rs)
    unfolding Calls.receive_all
    receive_all-IsValid [] w here v = v
    receive_all-IsValid (r ∷ rs) w here v =
        receive_all-IsValid rs (Calls.receive up w r) here.1 (receive-IsValid r w here.0 v)

-- A wallet that `hos_init` accepts is valid.
pub hos_init-IsValid :
    (up : Upstream) (env : Env) (config : WalletInit) (done : Outcome)
    → hos_init up env config ≡ ok done
    → IsValid env.current_account_id done.state
unfolding hos_init IdSet.collect IdSet.contains IdMap.get
hos_init-IsValid up env config done h = ground arith
