-- ===== src/Extension/Lease.antt =====
-- contracts/hos-extension/src/lib.rs: the registry's calls that set a lease or the payout account, and
-- the migration of leased accounts.
use tla_contracts.Prelude.{ℕ, List, [], ◌∷◌, leb, not, is_empty, length, Result, ok, require, ◌>>◌}
use tla_contracts.Near.{AccountId, Env}
use tla_contracts.HosCommon.{OperatingState}
use tla_contracts.Extension.Types.{
  HosExtension, WalletCall, Promise, Callback, Effect, Error, Outcome, max_migrate_batch,
  extension_call_deposit, assert_registry, assert_not_paused,
}

-- A call of a leased account with the one yocto that its methods ask for, and no callback.
abbrev pub call_once : AccountId → WalletCall → List Effect
call_once wallet call =
    Effect.send (Promise.call_wallet wallet call extension_call_deposit) Callback.no_callback ∷ []

module _ (env : Env) where
  unfoldable pub push_lease : AccountId → ℕ → OperatingState → HosExtension → Result Error Outcome
  push_lease wallet lease_until_ns state x = do
    assert_registry env x
    ok (record {
      state = x;
      effects = call_once wallet (WalletCall.set_lease lease_until_ns state);
    })

  unfoldable pub retract_lease : AccountId → ℕ → HosExtension → Result Error Outcome
  retract_lease wallet lease_until_ns x = do
    assert_registry env x
    ok (record { state = x; effects = call_once wallet (WalletCall.retract_lease lease_until_ns) })

  unfoldable pub set_payout :
      AccountId → AccountId → AccountId → HosExtension → Result Error Outcome
  set_payout wallet payout_account expected_owner x = do
    assert_registry env x
    assert_not_paused env x
    ok (record {
      state = x;
      effects = call_once wallet (WalletCall.set_payout_account payout_account expected_owner);
    })

-- Open to anyone; no deposit is attached.
unfoldable pub migrate_wallet : AccountId → HosExtension → Outcome
migrate_wallet wallet x = record {
  state = x;
  effects =
      Effect.send (Promise.call_wallet wallet (WalletCall.migrate x.registry) 0)
        Callback.no_callback
      ∷ [];
}

-- The loop of `migrate_wallets`.
unfoldable pub migrate_all : List AccountId → AccountId → List Effect
migrate_all [] registry = []
migrate_all (wallet ∷ wallets) registry =
    Effect.send (Promise.call_wallet wallet (WalletCall.migrate registry) 0) Callback.no_callback
    ∷ migrate_all wallets registry

unfoldable pub migrate_wallets : List AccountId → HosExtension → Result Error Outcome
migrate_wallets wallets x = do
  require (not (is_empty wallets)) Error.empty_batch
  require (leb (length wallets) max_migrate_batch) Error.batch_too_large
  ok (record { state = x; effects = migrate_all wallets x.registry })
