-- ===== src/Wallet/Impl.antt =====
-- contracts/hos-wallet/src/lib.rs: approving, cancelling and pinning the account's implementation.
use tla_contracts.Prelude.{
  ℕ, ◌-◌, ◌||◌, none, some, [], ◌∷◌, leb, ◌==◌, if◌then◌else◌, is_some, Result, ok, require,
  unwrap_or, ◌>>=◌, ◌>>◌, sat_add, u64_max,
}
use tla_contracts.Near.{CryptoHash, Env}
use tla_contracts.Wallet.Types.{
  TenantWallet, Error, Event, Effect, Promise, Outcome, impl_pin_delay_ns, gas_for_pin_reserve,
  min_pin_gas,
}
use tla_contracts.Wallet.Guards.{assert_one_yocto, effective_frozen, assert_authority, is_unfrozen}

module _ (env : Env) where
  unfoldable pub hos_approve_impl : CryptoHash → TenantWallet → Result Error Outcome
  hos_approve_impl code_hash w = do
    assert_one_yocto env
    assert_authority env w
    ok (record {
      state = record w { approved_impl = some code_hash; approved_impl_at = env.block_timestamp };
      effects = Effect.emit (Event.impl_approved code_hash) ∷ [];
    })

  unfoldable pub hos_cancel_impl : TenantWallet → Result Error Outcome
  hos_cancel_impl w = do
    assert_one_yocto env
    let caller = env.predecessor_account_id
    require (caller == w.owner || caller == w.authority) Error.only_owner
    require (is_some w.approved_impl) Error.no_approved_impl
    ok (record {
      state = record w { approved_impl = none; approved_impl_at = 0 };
      effects = Effect.emit Event.impl_cancelled ∷ [];
    })

  unfoldable pub hos_pin_impl : TenantWallet → Result Error Outcome
  hos_pin_impl w = do
    assert_one_yocto env
    assert_authority env w
    require (is_unfrozen (effective_frozen env w)) Error.self_frozen
    raw ← unwrap_or w.approved_impl Error.no_approved_impl
    require (leb (sat_add u64_max w.approved_impl_at impl_pin_delay_ns) env.block_timestamp)
        Error.impl_pin_too_young
    require (leb min_pin_gas env.prepaid_gas) Error.pin_gas_too_low
    ok (record {
      state = record w { approved_impl = none; approved_impl_at = 0 };
      effects =
          Effect.emit (Event.impl_pin_requested raw)
          ∷ Effect.send (
              Promise.bind_impl raw w.collection_id
                (env.prepaid_gas - env.used_gas - gas_for_pin_reserve) w.approved_impl_at)
          ∷ [];
    })

  -- The callback that records the pin, or puts the approval back.
  unfoldable pub hos_on_pinned : CryptoHash → ℕ → TenantWallet → Outcome
  hos_on_pinned code_hash approved_at w =
      if env.promise_success
      then record {
        state = record w { pinned_impl = some code_hash };
        effects = Effect.emit (Event.impl_pinned code_hash) ∷ [];
      }
      else record {
        state = record w { approved_impl = some code_hash; approved_impl_at = approved_at };
        effects = Effect.emit (Event.impl_pin_failed code_hash) ∷ [];
      }
