-- ===== src/Extension/Authority.antt =====
-- contracts/hos-extension/src/lib.rs: on whose word the extension calls a leased account.
use tla_contracts.Prelude.{
  ℕ, ◌≡◌, ◌≢◌, true, false, none, List, [], ◌∷◌, ok, err, Result, arith, is_none, subst,
}
use tla_contracts.Near.{AccountId, Env}
use tla_contracts.HosCommon.{parks, needs_holder, is_re_rent}
use tla_contracts.Extension.Types.{
  HosExtension, Error, Outcome, WalletCall, Promise, Callback, Effect, effective_paused,
}
use tla_contracts.Extension.Council.{
  approve_council_rotation, cancel_council_rotation, commit_council_rotation,
  approve_treasury_rotation, cancel_treasury_rotation, commit_treasury_rotation, pause, unpause,
  add_admin, remove_admin,
}
use tla_contracts.Extension.Upgrade.{
  approve_upgrade, upgrade, seal, after_seal, skim, after_skim, migrate,
}
use tla_contracts.Extension.Lease.{
  push_lease, retract_lease, set_payout, migrate_wallet, migrate_wallets, migrate_all,
}
use tla_contracts.Extension.Rotation.{
  force_transfer, re_rent, after_re_rent, after_force_swap, after_recovery_reset,
  retry_recovery_reset,
}
use tla_contracts.Extension.Sweep.{
  sweep_near, after_near_sweep, sweep_ft, retry_sweep, after_payout_for_sweep,
  after_balance_for_sweep, after_storage_for_sweep, after_sweep_settled,
}
use tla_contracts.Extension.Calls

-- Where a call of a leased account comes from: the registry, the registry while nothing is paused, the
-- extension's own callback, or anyone.
module _ (env : Env) (x : HosExtension) where
  abbrev pub IsFromRegistry : Type 0
  IsFromRegistry = env.predecessor_account_id ≡ x.registry

  abbrev pub IsUnpaused : Type 0
  IsUnpaused = effective_paused env x ≡ false

  abbrev pub IsWarranted : WalletCall → ℕ → Callback → AccountId → Type 0
  IsWarranted (WalletCall.transfer_ownership to cause asked_by) deposit chained wallet =
      IsFromRegistry
      × IsUnpaused
      × (is_re_rent cause ≡ false)
      × (parks cause ≡ is_none to)
      × (needs_holder cause ≡ true → asked_by ≢ none)
      × (chained ≡ Callback.after_force_swap wallet)
      × (deposit ≡ 1)
  IsWarranted (WalletCall.re_rent to payout until) deposit chained wallet =
      IsFromRegistry × IsUnpaused × (chained ≡ Callback.after_re_rent wallet) × (deposit ≡ 1)
  IsWarranted (WalletCall.set_payout_account payout owner) deposit chained wallet =
      IsFromRegistry × IsUnpaused × (deposit ≡ 1)
  IsWarranted (WalletCall.migrate collection) deposit chained wallet =
      (collection ≡ x.registry) × (deposit ≡ 0)
  IsWarranted (WalletCall.sweep_ft ft amount) deposit chained wallet =
      (env.predecessor_account_id ≡ env.current_account_id) × (deposit ≡ 1)
  IsWarranted WalletCall.payout_account deposit chained wallet = IsFromRegistry × (deposit ≡ 0)
  IsWarranted call deposit chained wallet = IsFromRegistry × (deposit ≡ 1)

  abbrev pub AreWarranted : List Effect → Type 0
  AreWarranted [] = Unit
  AreWarranted (Effect.send (Promise.call_wallet wallet call deposit) chained ∷ rest) =
      IsWarranted call deposit chained wallet × AreWarranted rest
  AreWarranted (_ ∷ rest) = AreWarranted rest

  abbrev Sends : Result Error Outcome → Type 0
  Sends (ok done) = AreWarranted done.effects
  Sends (err e) = Unit

  migrate_all-AreWarranted :
      (wallets : List AccountId) → AreWarranted (migrate_all wallets x.registry)
  unfolding migrate_all
  migrate_all-AreWarranted [] = tt
  migrate_all-AreWarranted (wallet ∷ wallets) = ground (arith, migrate_all-AreWarranted wallets)

  run_call-Sends : (call : Calls.Call) → Sends (Calls.run_call env call x)
  unfolding Calls.run_call approve_council_rotation cancel_council_rotation commit_council_rotation
      approve_treasury_rotation cancel_treasury_rotation commit_treasury_rotation pause unpause
      add_admin remove_admin approve_upgrade upgrade seal after_seal skim after_skim migrate
      push_lease retract_lease set_payout migrate_wallet migrate_wallets force_transfer re_rent
      after_re_rent after_force_swap after_recovery_reset retry_recovery_reset sweep_near
      after_near_sweep sweep_ft retry_sweep after_payout_for_sweep after_balance_for_sweep
      after_storage_for_sweep after_sweep_settled
  run_call-Sends (Calls.migrate_many wallets) = ground (arith, migrate_all-AreWarranted wallets)
  run_call-Sends (Calls.after_payout wallet ft refund_to none) = ground arith
  run_call-Sends (Calls.after_balance wallet ft to refund_to none) = ground arith
  run_call-Sends call = ground arith

  -- Every call that the extension makes of a leased account is warranted. It moves an account to another
  -- owner, rents it again or sets its payout account only for the registry and while it is not paused; a
  -- move parks exactly if no owner is given, names the holder who asked where its cause needs one, and
  -- is followed by its callback. It sets or retracts a lease, sweeps NEAR and asks for the payout
  -- account only for the registry, and sweeps a token only from its own callback. What anyone may cause
  -- is a migration with the registry as the collection and no deposit.
  pub run_call-AreWarranted :
      (call : Calls.Call) (done : Outcome)
      → Calls.run_call env call x ≡ ok done
      → AreWarranted done.effects
  run_call-AreWarranted call done e = subst Sends e (run_call-Sends call)
