-- ===== src/Wallet/Sweep.antt =====
-- contracts/hos-wallet/src/lib.rs: sweeping a balance to the payout account.
use tla_contracts.Prelude.{
  ℕ, ◌-◌, Bool, true, false, Option, none, some, List, [], ◌∷◌, ltb, ◌==◌, ◌!=◌, if◌then◌else◌,
  Result, ok, require, ◌>>◌,
}
use tla_contracts.Near.{AccountId, Env}
use tla_contracts.Wallet.Types.{TenantWallet, Error, Event, Effect, Promise, Outcome}
use tla_contracts.Wallet.Guards.{assert_one_yocto, assert_sweepable, reserve}

-- What may leave: the balance, less the deposit of this call and the reserve.
unfoldable pub sweep_amount : Env → ℕ
sweep_amount env = env.account_balance - env.attached_deposit - reserve env

-- The sweep inside a rotation, which skips what cannot be sent.
unfoldable pub sweep_to : Env → AccountId → List Effect
sweep_to env outgoing =
    if outgoing == env.current_account_id
    then []
    else if sweep_amount env == 0
    then []
    else Effect.send (Promise.sweep_near outgoing (sweep_amount env)) ∷ []

unfoldable pub hos_sweep_near : Env → TenantWallet → Result Error Outcome
hos_sweep_near env w = do
  assert_one_yocto env
  assert_sweepable env w
  require (ltb 0 (sweep_amount env)) Error.nothing_to_sweep
  ok (record {
    state = w;
    effects = Effect.send (Promise.sweep_near w.payout_account (sweep_amount env)) ∷ [];
  })

unfoldable pub hos_sweep_ft : Env → AccountId → ℕ → TenantWallet → Result Error Outcome
hos_sweep_ft env ft amount w = do
  assert_one_yocto env
  assert_sweepable env w
  require (ltb 0 amount) Error.nothing_to_sweep
  require (ft != env.current_account_id) Error.self_target
  ok (record {
    state = w;
    effects = Effect.send (Promise.sweep_ft ft w.payout_account amount) ∷ [];
  })

abbrev swept : AccountId → Option AccountId → ℕ → Event
swept payout_account none amount = Event.swept_near payout_account amount
swept payout_account (some ft) amount = Event.swept_ft payout_account ft amount

-- The value returned and what is logged; the state is as it was.
unfoldable pub hos_resolve_sweep :
    Env → AccountId → Option AccountId → ℕ → TenantWallet → Bool × Outcome
hos_resolve_sweep env payout_account ft amount w =
    if env.promise_success
    then (true, record { state = w; effects = Effect.emit (swept payout_account ft amount) ∷ [] })
    else (
      false,
      record {
        state = w;
        effects = Effect.emit (Event.sweep_failed payout_account ft amount) ∷ [];
      },
    )
