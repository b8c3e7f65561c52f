-- ===== src/Extension/Resets.antt =====
-- contracts/hos-extension/src/lib.rs: the accounts whose recovery policy is still to be reset.
use tla_contracts.Prelude.{
  ◌≡◌, ◌≢◌, Bool, true, false, Option, none, some, List, [], ◌∷◌, ok, arith,
}
use tla_contracts.Prelude.IdSet
use tla_contracts.Near.{AccountId, Env}
use tla_contracts.Extension.Types.{HosExtension}
use tla_contracts.Extension.Council.{
  approve_council_rotation, cancel_council_rotation, commit_council_rotation,
  approve_treasury_rotation, cancel_treasury_rotation, commit_treasury_rotation, pause, unpause,
  add_admin, remove_admin,
}
use tla_contracts.Extension.Upgrade.{
  approve_upgrade, upgrade, seal, after_seal, skim, after_skim, migrate,
}
use tla_contracts.Extension.Lease.{
  push_lease, retract_lease, set_payout, migrate_wallet, migrate_wallets,
}
use tla_contracts.Extension.Rotation.{
  force_transfer, re_rent, after_re_rent, after_force_swap, after_recovery_reset,
  retry_recovery_reset, reset_recovery,
}
use tla_contracts.Extension.Sweep.{
  sweep_near, after_near_sweep, sweep_ft, retry_sweep, after_payout_for_sweep,
  after_balance_for_sweep, after_storage_for_sweep, after_sweep_settled,
}
use tla_contracts.Extension.Calls
use tla_contracts.Extension.Calls.{Ensures}

-- The receipt is not the recovery contract's answer `true` about the account.
abbrev pub IsUnanswered : AccountId → Calls.Call → Type 0
IsUnanswered wallet (Calls.after_reset w (some true)) = w ≢ wallet
IsUnanswered wallet call = Unit

abbrev pub AreUnanswered : AccountId → List Calls.Receipt → Type 0
AreUnanswered wallet [] = Unit
AreUnanswered wallet ((env, call) ∷ rs) = IsUnanswered wallet call × AreUnanswered wallet rs

module _ (wallet : AccountId) where
  abbrev IsPending : HosExtension → Type 0
  IsPending x = IdSet.contains x.recovery_reset_pending wallet ≡ true

  run_call-IsPending :
      (env : Env) (call : Calls.Call) (x : HosExtension)
      → IsUnanswered wallet call
      → IsPending x
      → Ensures IsPending (Calls.run_call env call x)
  unfolding Calls.run_call approve_council_rotation cancel_council_rotation commit_council_rotation
      approve_treasury_rotation cancel_treasury_rotation commit_treasury_rotation pause unpause
      add_admin remove_admin approve_upgrade upgrade seal after_seal skim after_skim migrate
      push_lease retract_lease set_payout migrate_wallet migrate_wallets force_transfer re_rent
      after_re_rent after_force_swap after_recovery_reset retry_recovery_reset sweep_near
      after_near_sweep sweep_ft retry_sweep after_payout_for_sweep after_balance_for_sweep
      after_storage_for_sweep after_sweep_settled
  run_call-IsPending env (Calls.after_reset w (some true)) x o p =
      ground (arith, IdSet.contains-remove x.recovery_reset_pending w wallet)
  run_call-IsPending env (Calls.after_reset w (some false)) x o p =
      ground (arith, IdSet.contains-insert x.recovery_reset_pending w wallet)
  run_call-IsPending env (Calls.after_reset w none) x o p =
      ground (arith, IdSet.contains-insert x.recovery_reset_pending w wallet)
  run_call-IsPending env call x o p = ground arith

  receive_all-IsPending :
      (rs : List Calls.Receipt) (x : HosExtension)
      → AreUnanswered wallet rs
      → IsPending x
      → IsPending (Calls.receive_all x rs)
  unfolding Calls.receive_all Calls.receive
  receive_all-IsPending [] x o p = p
  receive_all-IsPending ((env, call) ∷ rs) x o p =
      receive_all-IsPending rs (Calls.receive x (env, call)) o.1
        (ground (arith, run_call-IsPending env call x o.0 p))

  -- When the recovery contract does not answer `true` to a reset, the account is pending, and stays so
  -- whatever receipts follow until it does; all that time anyone can have the reset sent again.
  pub reset_stays_due :
      (env later : Env) (reset : Option Bool) (x : HosExtension) (rs : List Calls.Receipt)
      → reset ≢ some true
      → AreUnanswered wallet rs
      → let y = Calls.receive_all (after_recovery_reset env wallet reset x).state rs in
        retry_recovery_reset later wallet y
        ≡ ok (record { state = y; effects = reset_recovery y wallet ∷ [] })
  unfolding retry_recovery_reset after_recovery_reset
  reset_stays_due env later reset x rs failed o = ground (
    arith,
    receive_all-IsPending rs (after_recovery_reset env wallet reset x).state o
        (ground (arith, IdSet.contains-insert x.recovery_reset_pending wallet wallet)),
  )
