-- ===== src/Wallet/Execute.antt =====
-- contracts/hos-wallet/src/lib.rs: `w_execute_extension`, through which an owner or a delegate acts.
use tla_contracts.Prelude.{
  not, List, [], ◌∷◌, ◌++◌, ◌!=◌, if◌then◌else◌, is_empty, Result, ok, err, require, ◌>>=◌, ◌>>◌,
}
use tla_contracts.Prelude.IdSet
use tla_contracts.Prelude.IdMap
use tla_contracts.Prelude.IdMap.{IdMap}
use tla_contracts.Prelude.IdSet.{IdSet}
use tla_contracts.Near.{AccountId, Env}
use tla_contracts.Wallet.Types.{
  TenantWallet, Actor, extension, Error, NearPromise, Upstream, Event, Effect, Promise, Outcome,
  WalletOp, Request,
}
use tla_contracts.Wallet.Guards.{
  assert_renter_active, assert_renter, assert_extension_editor, check_lockout,
  assert_within_reserve,
}
use tla_contracts.Wallet.Charge.{charge_spend}

module _ (env : Env) where
  unfoldable pub add_extension : AccountId → Actor → TenantWallet → Result Error Outcome
  add_extension account actor w = do
    assert_extension_editor env actor w
    require (account != env.current_account_id) Error.self_target
    require (not (IdSet.contains w.wallet.extensions account)) (Error.extension_enabled account)
    let extensions = IdSet.insert w.wallet.extensions account
    ok (record {
      state = record w { wallet = record (w.wallet) { extensions = extensions } };
      effects = Effect.emit (Event.extension_added account actor) ∷ [];
    })

  -- Unlike upstream, the authority cannot be evicted.
  unfoldable pub remove_extension : AccountId → Actor → TenantWallet → Result Error Outcome
  remove_extension account actor w = do
    assert_extension_editor env actor w
    require (account != w.authority) Error.authority_protected
    require (IdSet.contains w.wallet.extensions account) (Error.extension_not_enabled account)
    let extensions = IdSet.remove w.wallet.extensions account
    let w' = record w {
      wallet = record (w.wallet) { extensions = extensions };
      spend_grants = IdMap.remove w.spend_grants account;
    }
    check_lockout w'
    ok (record { state = w'; effects = Effect.emit (Event.extension_removed account actor) ∷ [] })

  unfoldable pub execute_op : WalletOp → Actor → TenantWallet → Result Error Outcome
  execute_op (WalletOp.set_signature_mode _) actor w = err Error.signature_disabled
  execute_op (WalletOp.add_extension account) actor w = add_extension account actor w
  execute_op (WalletOp.remove_extension account) actor w = remove_extension account actor w

  -- The loop over `request.internal`.
  unfoldable pub execute_ops : List WalletOp → Actor → TenantWallet → Result Error Outcome
  execute_ops [] actor w = ok (record { state = w; effects = [] })
  execute_ops (op ∷ ops) actor w = do
    one ← execute_op op actor w
    rest ← execute_ops ops actor one.state
    ok (record { state = rest.state; effects = one.effects ++ rest.effects })

  -- The loop that sends `request.external`.
  unfoldable pub forward_all : List NearPromise → Result Error (List Effect)
  forward_all [] = ok []
  forward_all (p ∷ ps) = do
    require (p.receiver_id != env.current_account_id) Error.self_calls_not_allowed
    rest ← forward_all ps
    ok (Effect.send (Promise.forward p) ∷ rest)

  module _ (up : Upstream) where
    unfoldable pub execute_external : List NearPromise → Actor → TenantWallet → Result Error Outcome
    execute_external external actor w = do
      assert_renter actor w
      assert_renter_active env w
      charged ← charge_spend up env w actor external
      assert_within_reserve up env external
      sent ← forward_all external
      ok (record { state = charged.0; effects = charged.1 ++ sent })

    unfoldable pub execute_request : Request → Actor → TenantWallet → Result Error Outcome
    execute_request request actor w = do
      inner ← execute_ops request.internal actor w
      if is_empty request.external then ok inner else do
        outer ← execute_external request.external actor inner.state
        ok (record { state = outer.state; effects = inner.effects ++ outer.effects })

    unfoldable pub w_execute_extension : Request → TenantWallet → Result Error Outcome
    w_execute_extension request w = do
      require (env.attached_deposit != 0) Error.insufficient_deposit
      let caller = env.predecessor_account_id
      require (up.has_extension w.wallet caller) (Error.extension_not_enabled caller)
      let nonces = up.check_cleanup env.block_timestamp w.wallet.nonces
      let w' = record w { wallet = record (w.wallet) { nonces = nonces } }
      execute_request request (extension caller) w'
