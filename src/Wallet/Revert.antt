-- ===== src/Wallet/Revert.antt =====
-- contracts/hos-wallet/src/lib.rs: a rotation and the revert that undoes it.
use tla_contracts.Prelude.{
  ◌<◌, ◌||◌, sat_add, u64_max, ◌≡◌, ◌≢◌, sym, ◌∙◌, inl, inr, Bool, true, false, Option, none, some,
  [], ◌∷◌, ok, arith, Result-cases, ◌==◌,
}
use tla_contracts.Prelude.IdSet
use tla_contracts.Prelude.IdSet.{IdSet}
use tla_contracts.Near.{AccountId, Env}
use tla_contracts.HosCommon.{RotationCause, is_revert}
use tla_contracts.Wallet.Types.{TenantWallet, Outcome}
use tla_contracts.Wallet.Guards.{check_lockout}
use tla_contracts.Wallet.Types.{revert_window_ns}
use tla_contracts.Wallet.Invariant.{IsValid}
use tla_contracts.Wallet.Rotation.{open_gate, rotate, apply_rotation, hos_transfer_ownership}
use tla_contracts.Wallet.Custody.{Rotated, Window, transfer_ownership-Rotated}

-- A call by the authority on this account, with the yocto that its calls attach.
pub record IsFromAuthority (self : AccountId) (w : TenantWallet) (env : Env) : Type 0 where
  pub here : env.current_account_id ≡ self
  pub caller : env.predecessor_account_id ≡ w.authority
  pub yocto : env.attached_deposit ≡ 1

-- A set with a member is not empty.
held-ne-nil : (xs : IdSet) (k : AccountId) → IdSet.contains xs k ≡ true → xs ≢ []
unfolding IdSet.contains
held-ne-nil [] k h = cc
held-ne-nil (x ∷ xs) k h = cc

module _ (self : AccountId) (s : TenantWallet) (env : Env) (to : AccountId)
    (from : IsFromAuthority self s env) where
  revert_accepted :
      (asked_by : Option AccountId)
      → s.revert_to ≡ some to
      → env.block_timestamp < s.revert_until_ns
      → to ≢ self
      → to ≢ s.authority
      → IdSet.contains s.wallet.extensions s.authority ≡ true
      → (back : Outcome) × (hos_transfer_ownership env (some to) RotationCause.revert asked_by s
          ≡ ok back)
  revert_accepted asked_by p q ns na held =
      elim (Result-cases (hos_transfer_ownership env (some to) RotationCause.revert asked_by s)) [
        | inl (back, e) ↦ (back, e)
        | inr (x, e) ↦ absurd (
            unfold hos_transfer_ownership apply_rotation open_gate rotate check_lockout in
            ground (
              arith,
              e,
              held-ne-nil (IdSet.retain_eq s.wallet.extensions s.authority) s.authority,
              IdSet.contains-retain_eq s.wallet.extensions s.authority s.authority,
            ))
      ]

revert_refused :
    (env : Env) (to asked_by : Option AccountId) (s : TenantWallet) (x : Outcome)
    → s.revert_to ≡ none
    → hos_transfer_ownership env to RotationCause.revert asked_by s ≢ ok x
unfolding hos_transfer_ownership apply_rotation open_gate
revert_refused env to asked_by s x h k = ground arith

module _ (self : AccountId) (w : TenantWallet) (v : IsValid self w) (env later : Env)
    (to asked_by : Option AccountId) (c : RotationCause) (done : Outcome)
    (rotated : hos_transfer_ownership env to c asked_by w ≡ ok done) (plain : is_revert c ≡ false)
    (from : IsFromAuthority self w later) where
  transferred : Rotated env w to c done × Window env w c done.state
  transferred = transfer_ownership-Rotated env to asked_by w done c rotated

  authority_still_held : IdSet.contains done.state.wallet.extensions done.state.authority ≡ true
  authority_still_held = ground (
    arith,
    v.authority_held,
    transferred.0.authority,
    transferred.0.extensions done.state.authority,
  )

  accepted :
      later.block_timestamp < sat_add u64_max env.block_timestamp revert_window_ns
      → (back : Outcome) × (hos_transfer_ownership later
            (some w.owner)
            RotationCause.revert
            none
            done.state
          ≡ ok back)
  accepted soon =
      revert_accepted self done.state later w.owner
        (record {
          here = from.here;
          caller = from.caller ∙ sym transferred.0.authority;
          yocto = from.yocto;
        })
        none (rw plain at transferred.1.0) (ground (arith, transferred.1.1)) v.owner_ne_self
        (λ e. v.owner_ne_authority (e ∙ transferred.0.authority)) authority_still_held

  restored :
      (back : Outcome)
      → hos_transfer_ownership later (some w.owner) RotationCause.revert none done.state ≡ ok back
      → Rotated later done.state (some w.owner) RotationCause.revert back
        × Window later done.state RotationCause.revert back.state
  restored back e =
      transfer_ownership-Rotated later (some w.owner) none done.state back RotationCause.revert e

  seated : (x : AccountId) (b : Bool) → ((x == x) || b) ≡ true
  seated x b = ground arith

  -- Within five minutes of a rotation of a valid wallet the authority can revert it: the former owner
  -- is back and is the payout account, and no second revert is accepted after that.
  pub revert-transfer_ownership :
      later.block_timestamp < sat_add u64_max env.block_timestamp revert_window_ns
      → (back : Outcome) × (hos_transfer_ownership later
            (some w.owner)
            RotationCause.revert
            none
            done.state
          ≡ ok back)
        × (back.state.owner ≡ w.owner)
        × (back.state.payout_account ≡ w.owner)
        × (IdSet.contains back.state.wallet.extensions w.owner ≡ true)
        × ((e : Env) (t a : Option AccountId) (x : Outcome)
            → hos_transfer_ownership e t RotationCause.revert a back.state ≢ ok x)
  revert-transfer_ownership soon =
      let (back, e) = accepted soon in
      (
        back,
        e,
        (restored back e).0.owner,
        (restored back e).0.payout,
        (restored back e).0.extensions w.owner ∙ seated w.owner _,
        λ l t a x. revert_refused l t a back.state x (restored back e).1.0,
      )
