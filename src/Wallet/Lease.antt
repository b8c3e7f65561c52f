-- ===== src/Wallet/Lease.antt =====
-- contracts/hos-wallet/src/lib.rs: the lease's end and the payout account, set by the authority.
use tla_contracts.Prelude.{ℕ, [], ◌∷◌, leb, ◌==◌, ◌!=◌, Result, ok, require, ◌>>◌, sat_add, u64_max}
use tla_contracts.Near.{AccountId, Env}
use tla_contracts.HosCommon.{OperatingState, is_active, min_lease_retract_notice_ns}
use tla_contracts.Wallet.Types.{TenantWallet, Error, Event, Effect, Outcome}
use tla_contracts.Wallet.Guards.{assert_one_yocto, assert_authority}

module _ (env : Env) where
  unfoldable pub hos_set_payout_account :
      AccountId → AccountId → TenantWallet → Result Error Outcome
  hos_set_payout_account payout_account expected_owner w = do
    assert_one_yocto env
    assert_authority env w
    require (w.owner == expected_owner) Error.owner_moved
    require (payout_account != env.current_account_id) Error.payout_is_self
    ok (record {
      state = record w { payout_account = payout_account };
      effects = Effect.emit (Event.payout_account_set payout_account) ∷ [];
    })

  unfoldable pub hos_set_lease : ℕ → OperatingState → TenantWallet → Result Error Outcome
  hos_set_lease lease_until_ns state w = do
    assert_one_yocto env
    assert_authority env w
    require (leb w.lease_until_ns lease_until_ns) Error.lease_not_monotonic
    require (is_active state) Error.bad_lease_state
    ok (record {
      state = record w { lease_until_ns = lease_until_ns; state = state };
      effects = Effect.emit (Event.lease_set lease_until_ns state) ∷ [];
    })

  unfoldable pub hos_retract_lease : ℕ → TenantWallet → Result Error Outcome
  hos_retract_lease lease_until_ns w = do
    assert_one_yocto env
    assert_authority env w
    require (leb lease_until_ns w.lease_until_ns) Error.retraction_not_shorter
    require (leb (sat_add u64_max env.block_timestamp min_lease_retract_notice_ns) lease_until_ns)
        Error.retraction_notice_too_short
    ok (record {
      state = record w { lease_until_ns = lease_until_ns };
      effects = Effect.emit (Event.lease_retracted w.lease_until_ns lease_until_ns) ∷ [];
    })
