-- ===== src/Deployer/Publish.antt =====
-- contracts/wallet-impl-deployer/src/lib.rs: approving a code hash and publishing code that matches it.
use tla_contracts.Prelude.{
  ℕ, ◌-◌, Bool, true, false, not, none, some, [], ◌∷◌, ltb, leb, ◌==◌, if◌then◌else◌, length,
  is_empty, Result, ok, require, unwrap_or, ◌>>=◌, ◌>>◌, sat_add, checked_mul, u64_max, u128_max,
}
use tla_contracts.Near.{AccountId, CryptoHash, Bytes, Env}
use tla_contracts.Deployer.Types.{
  ImplDeployer, Event, Promise, Effect, Error, Outcome, global_code_cost_per_byte,
  deploy_lock_ttl_ns, assert_one_yocto, assert_council,
}

module _ (env : Env) where
  unfoldable pub gd_approve : CryptoHash → ImplDeployer → Result Error Outcome
  gd_approve hash d = do
    assert_one_yocto env
    assert_council env d
    ok (record {
      state = record d { approved_hash = some hash; approved_at = some env.block_timestamp };
      effects = Effect.emit (Event.hash_approved hash env.predecessor_account_id) ∷ [];
    })

  -- Open to anyone who pays the storage of code that matches the approval.
  unfoldable pub gd_deploy : Bytes → ImplDeployer → Result Error Outcome
  gd_deploy code d = do
    require (leb d.deploy_locked_until env.block_timestamp) Error.deploy_in_flight
    require (not (is_empty code)) Error.empty_code
    approved ← unwrap_or d.approved_hash Error.no_approved_hash
    require (env.sha256 code == approved) Error.hash_mismatch
    approved_at ← unwrap_or d.approved_at Error.no_approved_hash
    require (leb (sat_add u64_max approved_at d.approval_delay_ns) env.block_timestamp)
        Error.approval_too_young
    cost ←
        unwrap_or (checked_mul u128_max (length code) global_code_cost_per_byte) Error.cost_overflow
    require (leb cost env.attached_deposit) Error.insufficient_deposit
    ok (record {
      state = record d {
        deploy_locked_until = sat_add u64_max env.block_timestamp deploy_lock_ttl_ns;
      };
      effects =
          Effect.send (
            Promise.deploy_global code approved (length code) env.predecessor_account_id
              env.attached_deposit env.account_balance)
          ∷ [];
    })

  -- What the payer gets back of the deposit once the deploy has been paid for.
  unfoldable pub excess_of : ℕ → ℕ → ℕ
  excess_of attached balance_before = attached - (balance_before - env.account_balance)

  -- The callback: the value it returns, and what it leaves.
  unfoldable pub gd_on_deployed : CryptoHash → ℕ → AccountId → ℕ → ℕ → ImplDeployer → Bool × Outcome
  unfolding excess_of
  gd_on_deployed hash size payer attached balance_before d =
      if env.promise_success
      then (
        true,
        record {
          state = record d {
            deploy_locked_until = 0;
            current_hash = some hash;
            approved_hash = none;
            approved_at = none;
          };
          effects =
              Effect.emit (Event.impl_deployed hash size)
              ∷ (if ltb 0 (excess_of attached balance_before)
                  then Effect.send (Promise.transfer payer (excess_of attached balance_before)) ∷ []
                  else []);
        },
      )
      else (
        false,
        record {
          state = record d { deploy_locked_until = 0 };
          effects =
              Effect.emit (Event.deploy_failed hash)
              ∷ Effect.send (Promise.transfer payer attached)
              ∷ [];
        },
      )

  unfoldable pub deploy_cost : ℕ → Result Error ℕ
  deploy_cost size =
      unwrap_or (checked_mul u128_max size global_code_cost_per_byte) Error.cost_overflow
