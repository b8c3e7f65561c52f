-- ===== src/Wallet/Invariant/Execute.antt =====
-- contracts/hos-wallet/src/lib.rs: what an owner, a delegate or the authority does through
-- `w_execute_extension` keeps the wallet valid.
use tla_contracts.Prelude.{◌≡◌, inl, inr, List, [], ◌∷◌, ok, arith, Result-cases}
use tla_contracts.Prelude.IdSet
use tla_contracts.Prelude.IdMap
use tla_contracts.Prelude.IdMap.{IdMap}
use tla_contracts.Prelude.IdSet.{IdSet}
use tla_contracts.Near.{AccountId, Env}
use tla_contracts.Wallet.Types.{
  TenantWallet, Actor, extension, Upstream, WalletOp, Request, NearPromise, Effect,
}
use tla_contracts.Wallet.Invariant.{IsValid, Ensures}
use tla_contracts.Wallet.Execute.{
  add_extension, remove_extension, execute_op, execute_ops, execute_external, execute_request,
  w_execute_extension,
}
use tla_contracts.Wallet.Charge.{charge_spend}

module _ (self : AccountId) (env : Env) (here : env.current_account_id ≡ self) where
  module _ (w : TenantWallet) (v : IsValid self w) (actor : Actor) where
    add_extension-IsValid : (a : AccountId) → Ensures (IsValid self) (add_extension env a actor w)
    unfolding add_extension
    add_extension-IsValid a = grind (arith, IdSet.contains-insert)

    remove_extension-IsValid :
        (a : AccountId) → Ensures (IsValid self) (remove_extension env a actor w)
    unfolding remove_extension
    remove_extension-IsValid a = grind (arith, IdSet.contains-remove, IdMap.get-remove)

    execute_op-IsValid : (op : WalletOp) → Ensures (IsValid self) (execute_op env op actor w)
    unfolding execute_op
    execute_op-IsValid (WalletOp.set_signature_mode b) = tt
    execute_op-IsValid (WalletOp.add_extension a) = add_extension-IsValid a
    execute_op-IsValid (WalletOp.remove_extension a) = remove_extension-IsValid a

  execute_ops-IsValid :
      (ops : List WalletOp) (actor : Actor) (w : TenantWallet)
      → IsValid self w
      → Ensures (IsValid self) (execute_ops env ops actor w)
  unfolding execute_ops
  execute_ops-IsValid [] actor w v = v
  execute_ops-IsValid (op ∷ ops) actor w v = elim (Result-cases (execute_op env op actor w)) [
    | inl (one, e) ↦ rw e (
        ground (
          arith,
          execute_ops-IsValid ops actor one.state (rw e at (execute_op-IsValid w v actor op)),
        ))
    | inr (x, e) ↦ rw e tt
  ]

  module _ (up : Upstream) where
    charge_spend-IsValid :
        (w : TenantWallet) (v : IsValid self w) (actor : Actor) (external : List NearPromise)
        (charged : TenantWallet × List Effect)
        → charge_spend up env w actor external ≡ ok charged
        → IsValid self charged.0
    unfolding charge_spend
    charge_spend-IsValid w v actor external charged e = grind (arith, IdMap.get-insert)

    execute_external-IsValid :
        (external : List NearPromise) (actor : Actor) (w : TenantWallet)
        → IsValid self w
        → Ensures (IsValid self) (execute_external env up external actor w)
    unfolding execute_external
    execute_external-IsValid external actor w v =
        elim (Result-cases (charge_spend up env w actor external)) [
          | inl (charged, e) ↦ ground (arith, e, charge_spend-IsValid w v actor external charged e)
          | inr (x, e) ↦ ground (arith, e)
        ]

    execute_request-IsValid :
        (request : Request) (actor : Actor) (w : TenantWallet)
        → IsValid self w
        → Ensures (IsValid self) (execute_request env up request actor w)
    unfolding execute_request
    execute_request-IsValid request actor w v =
        elim (Result-cases (execute_ops env request.internal actor w)) [
          | inl (inner, e) ↦ rw e (
              ground (
                arith,
                execute_external-IsValid request.external actor inner.state
                    (rw e at (execute_ops-IsValid request.internal actor w v)),
                rw e at (execute_ops-IsValid request.internal actor w v),
              ))
          | inr (x, e) ↦ rw e tt
        ]

    pub execute_extension-IsValid :
        (request : Request) (w : TenantWallet)
        → IsValid self w
        → Ensures (IsValid self) (w_execute_extension env up request w)
    unfolding w_execute_extension
    execute_extension-IsValid request w v = ground (
      arith,
      execute_request-IsValid request (extension env.predecessor_account_id)
          (record w {
            wallet = record (w.wallet) {
              nonces = up.check_cleanup env.block_timestamp w.wallet.nonces;
            };
          })
          (record {
            no_key = v.no_key;
            authority_held = v.authority_held;
            self_not_held = v.self_not_held;
            owner_ne_authority = v.owner_ne_authority;
            owner_ne_self = v.owner_ne_self;
            payout_ne_self = v.payout_ne_self;
            grants_delegates = v.grants_delegates;
          }),
    )
