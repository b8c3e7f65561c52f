-- ===== src/Wallet/Invariant/Rotation.antt =====
-- contracts/hos-wallet/src/lib.rs: a rotation keeps the wallet valid.
use tla_contracts.Prelude.{ℕ, ◌≡◌, inl, inr, Option, none, some, ok, arith, Result-cases}
use tla_contracts.Prelude.IdSet
use tla_contracts.Prelude.IdMap
use tla_contracts.Prelude.IdMap.{IdMap}
use tla_contracts.Prelude.IdSet.{IdSet}
use tla_contracts.Near.{AccountId, Env}
use tla_contracts.HosCommon.{RotationCause}
use tla_contracts.Wallet.Types.{TenantWallet}
use tla_contracts.Wallet.Guards.{check_lockout}
use tla_contracts.Wallet.Invariant.{IsValid, Ensures}
use tla_contracts.Wallet.Rotation.{
  open_gate, rotate, apply_rotation, hos_transfer_ownership, hos_re_rent,
}

module _ (self : AccountId) (env : Env) (here : env.current_account_id ≡ self) where
  module _ (w : TenantWallet) (v : IsValid self w) where
    rotate-IsValid :
        (to : Option AccountId) (c : RotationCause) → Ensures (IsValid self) (rotate env to c w)
    unfolding rotate check_lockout IdMap.get
    rotate-IsValid none c = ground (
      arith,
      IdSet.contains-retain_eq w.wallet.extensions w.authority w.authority,
      IdSet.contains-retain_eq w.wallet.extensions w.authority self,
    )
    rotate-IsValid (some next) c = ground (
      arith,
      IdSet.contains-retain_eq w.wallet.extensions w.authority w.authority,
      IdSet.contains-retain_eq w.wallet.extensions w.authority self,
      IdSet.contains-insert (IdSet.retain_eq w.wallet.extensions w.authority) next w.authority,
      IdSet.contains-insert (IdSet.retain_eq w.wallet.extensions w.authority) next self,
    )

  -- A gate changes only what a revert reads.
  open_gate-IsValid :
      (w : TenantWallet) (v : IsValid self w) (to : Option AccountId) (c : RotationCause)
      (asked_by : Option AccountId) (w' : TenantWallet)
      → open_gate env to c asked_by w ≡ ok w'
      → IsValid self w'
  unfolding open_gate
  open_gate-IsValid w v to c asked_by w' e = ground arith

  pub apply_rotation-IsValid :
      (w : TenantWallet) (v : IsValid self w) (to : Option AccountId) (c : RotationCause)
      (asked_by : Option AccountId)
      → Ensures (IsValid self) (apply_rotation env to c asked_by w)
  unfolding apply_rotation
  apply_rotation-IsValid w v to c asked_by = elim (Result-cases (open_gate env to c asked_by w)) [
    | inl (w', e) ↦ rw e (rotate-IsValid w' (open_gate-IsValid w v to c asked_by w' e) to c)
    | inr (x, e) ↦ rw e tt
  ]

  pub transfer_ownership-IsValid :
      (w : TenantWallet) (v : IsValid self w) (to : Option AccountId) (c : RotationCause)
      (asked_by : Option AccountId)
      → Ensures (IsValid self) (hos_transfer_ownership env to c asked_by w)
  unfolding hos_transfer_ownership
  transfer_ownership-IsValid w v to c asked_by =
      ground (arith, apply_rotation-IsValid w v to c asked_by)

  pub re_rent-IsValid :
      (w : TenantWallet) (v : IsValid self w) (to payout until : ℕ)
      → Ensures (IsValid self) (hos_re_rent env to payout until w)
  unfolding hos_re_rent
  re_rent-IsValid w v to payout until =
      ground (arith, apply_rotation-IsValid w v (some to) RotationCause.re_rent none)
