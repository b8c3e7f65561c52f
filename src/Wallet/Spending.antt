-- ===== src/Wallet/Spending.antt =====
-- contracts/hos-wallet/src/lib.rs: who may send value from a leased account, and under which
-- conditions.
pub mod Conditions
use tla_contracts.Prelude.{◌≤◌, ◌<◌, ◌≡◌, inl, inr, ◌⊎◌, List, [], ◌∷◌, ok, arith, Result-cases}
use tla_contracts.Near.{AccountId, Env}
use tla_contracts.HosCommon.{OperatingState}
use tla_contracts.Wallet.Types.{
  Outcome, FreezeState, TenantWallet, Actor, extension, Upstream, WalletOp, Request, NearPromise,
  Effect,
}
use tla_contracts.Wallet.Guards.{assert_extension_editor, assert_renter_active, effective_frozen}
use tla_contracts.Wallet.Execute.{
  add_extension, remove_extension, execute_op, execute_ops, execute_external, execute_request,
  w_execute_extension,
}
use tla_contracts.Wallet.Charge.{charge_spend}
use tla_contracts.Wallet.Invariant.{Ensures, Ensures-ok}

-- What acting through an extension leaves alone: all but the extension set, the nonces and the
-- grants.
pub record SameTerms (w s : TenantWallet) : Type 0 where
  pub authority : s.authority ≡ w.authority
  pub owner : s.owner ≡ w.owner
  pub collection : s.collection_id ≡ w.collection_id
  pub payout : s.payout_account ≡ w.payout_account
  pub lease : s.lease_until_ns ≡ w.lease_until_ns
  pub state : s.state ≡ w.state
  pub frozen : s.frozen ≡ w.frozen
  pub freeze_until : s.authority_freeze_until_ns ≡ w.authority_freeze_until_ns
  pub revert_to : s.revert_to ≡ w.revert_to
  pub revert_until : s.revert_until_ns ≡ w.revert_until_ns
  pub seq : s.rotation_seq ≡ w.rotation_seq
  pub pinned : s.pinned_impl ≡ w.pinned_impl
  pub approved : s.approved_impl ≡ w.approved_impl
  pub approved_at : s.approved_impl_at ≡ w.approved_impl_at

SameTerms-refl : (w : TenantWallet) → SameTerms w w
SameTerms-refl w = ground arith

SameTerms-trans : (a b c : TenantWallet) → SameTerms a b → SameTerms b c → SameTerms a c
SameTerms-trans a b c h k = ground arith

module _ (env : Env) where
  execute_op-SameTerms :
      (op : WalletOp) (actor : Actor) (w : TenantWallet)
      → Ensures (SameTerms w) (execute_op env op actor w)
  unfolding execute_op add_extension remove_extension
  execute_op-SameTerms (WalletOp.set_signature_mode b) actor w = tt
  execute_op-SameTerms (WalletOp.add_extension a) actor w = ground arith
  execute_op-SameTerms (WalletOp.remove_extension a) actor w = ground arith

  pub execute_ops-SameTerms :
      (ops : List WalletOp) (actor : Actor) (w : TenantWallet)
      → Ensures (SameTerms w) (execute_ops env ops actor w)
  unfolding execute_ops
  execute_ops-SameTerms [] actor w = SameTerms-refl w
  execute_ops-SameTerms (op ∷ ops) actor w = elim (Result-cases (execute_op env op actor w)) [
    | inl (one, e) ↦ elim (Result-cases (execute_ops env ops actor one.state)) [
      | inl (rest, f) ↦
          rw (e, f)
            (SameTerms-trans w one.state rest.state (rw e at (execute_op-SameTerms op actor w))
              (rw f at (execute_ops-SameTerms ops actor one.state)))
      | inr (x, f) ↦ rw (e, f) tt
    ]
    | inr (x, e) ↦ rw e tt
  ]

  module _ (up : Upstream) where
    charge_spend-SameTerms :
        (w : TenantWallet) (actor : Actor) (external : List NearPromise)
        (charged : TenantWallet × List Effect)
        → charge_spend up env w actor external ≡ ok charged
        → SameTerms w charged.0
    unfolding charge_spend
    charge_spend-SameTerms w actor external charged e = ground arith

    execute_external-SameTerms :
        (external : List NearPromise) (actor : Actor) (w : TenantWallet)
        → Ensures (SameTerms w) (execute_external env up external actor w)
    unfolding execute_external
    execute_external-SameTerms external actor w =
        elim (Result-cases (charge_spend up env w actor external)) [
          | inl (charged, e) ↦ ground (arith, e, charge_spend-SameTerms w actor external charged e)
          | inr (x, e) ↦ ground (arith, e)
        ]

    execute_request-SameTerms :
        (request : Request) (actor : Actor) (w : TenantWallet)
        → Ensures (SameTerms w) (execute_request env up request actor w)
    unfolding execute_request
    execute_request-SameTerms request actor w =
        elim (Result-cases (execute_ops env request.internal actor w)) [
          | inl (inner, e) ↦ rw e (
              ground (
                arith,
                execute_external-SameTerms request.external actor inner.state,
                rw e at (execute_ops-SameTerms request.internal actor w),
              ))
          | inr (x, e) ↦ rw e tt
        ]

    pub w_execute_extension-SameTerms :
        (request : Request) (w : TenantWallet)
        → Ensures (SameTerms w) (w_execute_extension env up request w)
    unfolding w_execute_extension
    w_execute_extension-SameTerms request w = ground (
      arith,
      execute_request-SameTerms request (extension env.predecessor_account_id) (record w {
        wallet = record (w.wallet) {
          nonces = up.check_cleanup env.block_timestamp w.wallet.nonces;
        };
      }),
    )

    -- Whatever an extension asks for, a call through it that succeeds leaves every term of the lease
    -- as it was: the parties, the payout account, the lease's end, the state, the freeze, the revert
    -- window, the rotation count and the implementation.
    pub execute_extension-SameTerms :
        (request : Request) (w : TenantWallet) (done : Outcome)
        → w_execute_extension env up request w ≡ ok done
        → SameTerms w done.state
    execute_extension-SameTerms request w done =
        Ensures-ok (SameTerms w) (w_execute_extension-SameTerms request w)

  -- Who may edit the extension set, and when.
  abbrev pub IsEditor : AccountId → TenantWallet → Type 0
  IsEditor id w =
      ((id ≡ w.authority) × (w.lease_until_ns ≤ env.block_timestamp))
      ⊎ ((id ≡ w.owner)
          × (w.state ≡ OperatingState.active)
          × (env.block_timestamp < w.lease_until_ns)
          × (effective_frozen env w ≡ FreezeState.unfrozen))

  execute_op-IsEditor :
      (op : WalletOp) (id : AccountId) (w : TenantWallet)
      → Ensures (λ s. IsEditor id w) (execute_op env op (extension id) w)
  unfolding execute_op add_extension remove_extension assert_extension_editor
  execute_op-IsEditor (WalletOp.set_signature_mode b) id w = tt
  execute_op-IsEditor (WalletOp.add_extension a) id w = ground arith
  execute_op-IsEditor (WalletOp.remove_extension a) id w = ground arith

  pub execute_ops-IsEditor :
      (op : WalletOp) (ops : List WalletOp) (id : AccountId) (w : TenantWallet)
      → Ensures (λ s. IsEditor id w) (execute_ops env (op ∷ ops) (extension id) w)
  unfolding execute_ops
  execute_ops-IsEditor op ops id w = ground (arith, execute_op-IsEditor op id w)

  -- Operations on the extension set that succeed come from the authority after the lease has ended, or
  -- from the owner while the lease runs, the account is active and not frozen.
  pub execute_ops_editors :
      (op : WalletOp) (ops : List WalletOp) (id : AccountId) (w : TenantWallet) (done : Outcome)
      → execute_ops env (op ∷ ops) (extension id) w ≡ ok done
      → IsEditor id w
  execute_ops_editors op ops id w done =
      Ensures-ok (λ s. IsEditor id w) (execute_ops-IsEditor op ops id w)

  -- The renter's check, read as what it asks for.
  abbrev pub IsRenterActive : TenantWallet → Type 0
  IsRenterActive w =
      (w.state ≡ OperatingState.active)
      × (env.block_timestamp < w.lease_until_ns)
      × (effective_frozen env w ≡ FreezeState.unfrozen)

  pub renter_active : (w : TenantWallet) → assert_renter_active env w ≡ ok tt → IsRenterActive w
  unfolding assert_renter_active
  renter_active w h = ground arith
