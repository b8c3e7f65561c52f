-- ===== src/Wallet/Invariant.antt =====
-- contracts/hos-wallet/src/lib.rs: what holds of a wallet from `hos_init` on, kept by the entry
-- points that neither rotate the account nor edit its extensions.
pub mod Rotation
pub mod Execute
pub mod Grants
pub mod Reach
use tla_contracts.Prelude.{
  subst, ℕ, ◌≡◌, ◌≢◌, refl, ◌⊎◌, Bool, true, false, Option, none, some, List, [], ◌∷◌, Result, ok,
  err, arith, is_some,
}
use tla_contracts.Prelude.IdSet
use tla_contracts.Prelude.IdMap
use tla_contracts.Near.{AccountId, Env}
use tla_contracts.HosCommon.{OperatingState, RotationCause}
use tla_contracts.Wallet.Types.{TenantWallet, Outcome, Error}
use tla_contracts.Wallet.Guards.{check_lockout}
use tla_contracts.Wallet.Impl.{hos_approve_impl, hos_cancel_impl, hos_pin_impl, hos_on_pinned}
use tla_contracts.Wallet.Sweep.{hos_sweep_near, hos_sweep_ft}
use tla_contracts.Wallet.Grants.{hos_revoke_spend}
use tla_contracts.Wallet.Lease.{hos_set_payout_account, hos_set_lease, hos_retract_lease}
use tla_contracts.Wallet.Freeze.{hos_freeze, hos_unfreeze}
use tla_contracts.Wallet.Rotation.{hos_transfer_ownership, hos_re_rent, apply_rotation, rotate}

-- A grant is held by a delegate: an account of the extension set that is neither of the parties.
abbrev pub IsDelegate : TenantWallet → AccountId → Type 0
IsDelegate w k = (IdSet.contains w.wallet.extensions k ≡ true) × (k ≢ w.owner) × (k ≢ w.authority)

pub record IsValid (self : AccountId) (w : TenantWallet) : Type 0 where
  pub no_key : w.wallet.signature_enabled ≡ false
  pub authority_held : IdSet.contains w.wallet.extensions w.authority ≡ true
  pub self_not_held : IdSet.contains w.wallet.extensions self ≡ false
  pub owner_ne_authority : w.owner ≢ w.authority
  pub owner_ne_self : w.owner ≢ self
  pub payout_ne_self : w.payout_account ≢ self
  pub grants_delegates :
      (k : AccountId) → is_some (IdMap.get w.spend_grants k) ≡ true → IsDelegate w k

-- What a call ensures of the state that it leaves, where it does not panic.
abbrev pub Ensures : (TenantWallet → Type 0) → Result Error Outcome → Type 0
Ensures P (ok done) = P done.state
Ensures P (err e) = Unit

pub Ensures-ok :
    (P : TenantWallet → Type 0) {r : Result Error Outcome} {done : Outcome}
    → Ensures P r
    → r ≡ ok done
    → P done.state
Ensures-ok P h e = subst (Ensures P) e h

pub Ensures-map :
    {P Q : TenantWallet → Type 0} (r : Result Error Outcome)
    → ((s : TenantWallet) → P s → Q s)
    → Ensures P r
    → Ensures Q r
Ensures-map (ok done) f h = f done.state h
Ensures-map (err e) f h = tt

module _ (self : AccountId) (w : TenantWallet) (v : IsValid self w) (env : Env) where
  pub set_lease-IsValid :
      (until : ℕ) (s : OperatingState) → Ensures (IsValid self) (hos_set_lease env until s w)
  unfolding hos_set_lease
  set_lease-IsValid until s = ground arith

  pub retract_lease-IsValid : (until : ℕ) → Ensures (IsValid self) (hos_retract_lease env until w)
  unfolding hos_retract_lease
  retract_lease-IsValid until = ground arith

  pub freeze-IsValid : Ensures (IsValid self) (hos_freeze env w)
  unfolding hos_freeze
  freeze-IsValid = ground arith

  pub unfreeze-IsValid : Ensures (IsValid self) (hos_unfreeze env w)
  unfolding hos_unfreeze
  unfreeze-IsValid = ground arith

  pub approve_impl-IsValid : (h : ℕ) → Ensures (IsValid self) (hos_approve_impl env h w)
  unfolding hos_approve_impl
  approve_impl-IsValid h = ground arith

  pub cancel_impl-IsValid : Ensures (IsValid self) (hos_cancel_impl env w)
  unfolding hos_cancel_impl
  cancel_impl-IsValid = ground arith

  pub pin_impl-IsValid : Ensures (IsValid self) (hos_pin_impl env w)
  unfolding hos_pin_impl
  pin_impl-IsValid = ground arith

  pub on_pinned-IsValid : (h at : ℕ) → IsValid self (hos_on_pinned env h at w).state
  unfolding hos_on_pinned
  on_pinned-IsValid h at = ground arith

  pub sweep_near-IsValid : Ensures (IsValid self) (hos_sweep_near env w)
  unfolding hos_sweep_near
  sweep_near-IsValid = ground arith

  pub sweep_ft-IsValid : (ft amount : ℕ) → Ensures (IsValid self) (hos_sweep_ft env ft amount w)
  unfolding hos_sweep_ft
  sweep_ft-IsValid ft amount = ground arith

  pub revoke_spend-IsValid : (d : AccountId) → Ensures (IsValid self) (hos_revoke_spend env d w)
  unfolding hos_revoke_spend
  revoke_spend-IsValid d = grind (arith, IdMap.get-remove)

  module _ (here : env.current_account_id ≡ self) where
    pub set_payout_account-IsValid :
        (p o : AccountId) → Ensures (IsValid self) (hos_set_payout_account env p o w)
    unfolding hos_set_payout_account
    set_payout_account-IsValid p o = ground arith
