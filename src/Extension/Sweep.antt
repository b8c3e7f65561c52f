-- ===== src/Extension/Sweep.antt =====
-- contracts/hos-extension/src/lib.rs: sweeping a leased account's balance, in NEAR and in a token, as a
-- chain of calls and callbacks.
use tla_contracts.Prelude.{
  ℕ, Bool, true, false, Option, none, some, [], ◌∷◌, ◌==◌, if◌then◌else◌, String, Result, ok,
  require, ◌>>◌,
}
use tla_contracts.Near.{AccountId, Env}
use tla_contracts.Extension.Types.{
  HosExtension, PendingSweep, WalletCall, Promise, Callback, Event, Effect, Error, Outcome,
  has_sweep, add_sweep, remove_sweep, storage_deposit_amount, min_sweep_attached,
  extension_call_deposit, assert_registry,
}
use tla_contracts.Extension.Rotation.{is_ok_true}

-- What a callback that goes on returns: a value, or the promise that it sends.
abbrev pub Answer : Type 0
Answer = Option Bool × Outcome

-- `abort_and_refund`, on the event that it logs.
abbrev pub abort_and_refund : Event → AccountId → HosExtension → Answer
abort_and_refund event refund_to x = (
  some false,
  record {
    state = x;
    effects =
        Effect.emit event
        ∷ Effect.send (Promise.transfer refund_to min_sweep_attached) Callback.no_callback
        ∷ [];
  },
)

abbrev pub go_on : Promise → Callback → HosExtension → Answer
go_on promise callback x = (none, record { state = x; effects = Effect.send promise callback ∷ [] })

module _ (env : Env) where
  unfoldable pub sweep_near : AccountId → HosExtension → Result Error Outcome
  sweep_near wallet x = do
    assert_registry env x
    ok (record {
      state = x;
      effects =
          Effect.emit (Event.near_sweep_requested wallet env.predecessor_account_id)
          ∷ Effect.send (Promise.call_wallet wallet WalletCall.sweep_near extension_call_deposit)
              (Callback.after_near_sweep wallet)
          ∷ [];
    })

  unfoldable pub after_near_sweep : AccountId → Option Bool → HosExtension → Bool × Outcome
  after_near_sweep wallet settled x =
      let entry : PendingSweep = record { wallet = wallet; ft = none } in
      if is_ok_true settled
      then (
        true,
        record {
          state = record x { sweep_pending = remove_sweep x.sweep_pending entry };
          effects = [];
        },
      )
      else (
        false,
        record {
          state = record x { sweep_pending = add_sweep x.sweep_pending entry };
          effects = Effect.emit (Event.sweep_pending wallet none) ∷ [];
        },
      )

  unfoldable pub sweep_ft : AccountId → AccountId → AccountId → HosExtension → Result Error Outcome
  sweep_ft wallet ft refund_to x = do
    assert_registry env x
    require (env.attached_deposit == min_sweep_attached) Error.insufficient_deposit
    ok (record {
      state = x;
      effects =
          Effect.emit (Event.sweep_requested wallet ft env.predecessor_account_id)
          ∷ Effect.send (Promise.call_wallet wallet WalletCall.payout_account 0)
              (Callback.after_payout_for_sweep wallet ft refund_to)
          ∷ [];
    })

  -- The branches of `retry_sweep` on the token.
  abbrev retry_as : AccountId → Option AccountId → HosExtension → Result Error Outcome
  retry_as wallet none x = do
    require (env.attached_deposit == extension_call_deposit) Error.requires_one_yocto
    sweep_near wallet x
  retry_as wallet (some ft) x = sweep_ft wallet ft env.predecessor_account_id x

  unfoldable pub retry_sweep : AccountId → Option AccountId → HosExtension → Result Error Outcome
  unfolding sweep_near sweep_ft
  retry_sweep wallet ft x = do
    assert_registry env x
    require (has_sweep x.sweep_pending (record { wallet = wallet; ft = ft })) Error.no_pending_sweep
    retry_as wallet ft x

  -- `payout`: the payout account that the leased account answered.
  unfoldable pub after_payout_for_sweep :
      AccountId → AccountId → AccountId → Option AccountId → HosExtension → Answer
  after_payout_for_sweep wallet ft refund_to none x =
      abort_and_refund (Event.sweep_failed wallet ft "payout_query_failed") refund_to x
  after_payout_for_sweep wallet ft refund_to (some destination) x =
      go_on (Promise.ft_balance_of ft wallet)
        (Callback.after_balance_for_sweep wallet ft destination refund_to) x

  -- `balance`: the balance that the token answered.
  unfoldable pub after_balance_for_sweep :
      AccountId → AccountId → AccountId → AccountId → Option ℕ → HosExtension → Answer
  after_balance_for_sweep wallet ft destination refund_to none x =
      abort_and_refund (Event.sweep_skipped wallet ft "balance_query_failed") refund_to x
  after_balance_for_sweep wallet ft destination refund_to (some balance) x =
      if balance == 0
      then abort_and_refund (Event.sweep_skipped wallet ft "zero_balance") refund_to x
      else go_on (Promise.storage_deposit ft destination storage_deposit_amount)
          (Callback.after_storage_for_sweep wallet ft destination refund_to balance) x

  unfoldable pub after_storage_for_sweep :
      AccountId → AccountId → AccountId → AccountId → ℕ → HosExtension → Answer
  after_storage_for_sweep wallet ft destination refund_to balance x =
      if env.promise_success
      then go_on
          (Promise.call_wallet wallet (WalletCall.sweep_ft ft balance) extension_call_deposit)
          (Callback.after_sweep_settled wallet ft destination balance) x
      else abort_and_refund (Event.sweep_failed wallet ft "storage_deposit_failed") refund_to x

  abbrev failure_reason : Option Bool → String
  failure_reason none = "authority_execute_failed"
  failure_reason (some _) = "wallet_resolver_reported_failure"

  unfoldable pub after_sweep_settled :
      AccountId → AccountId → AccountId → ℕ → Option Bool → HosExtension → Bool × Outcome
  after_sweep_settled wallet ft destination amount settled x =
      let entry : PendingSweep = record { wallet = wallet; ft = some ft } in
      if is_ok_true settled
      then (
        true,
        record {
          state = record x { sweep_pending = remove_sweep x.sweep_pending entry };
          effects = Effect.emit (Event.sweep_dispatched wallet ft destination amount) ∷ [];
        },
      )
      else (
        false,
        record {
          state = record x { sweep_pending = add_sweep x.sweep_pending entry };
          effects =
              Effect.emit (Event.sweep_failed wallet ft (failure_reason settled))
              ∷ Effect.emit (Event.sweep_pending wallet (some ft))
              ∷ [];
        },
      )
