-- ===== src/Extension/Payouts.antt =====
-- contracts/hos-extension/src/lib.rs: where the deposit of a token sweep goes, through the chain of
-- callbacks that `sweep_ft` starts.
use tla_contracts.Prelude.{
  ℕ, zero, suc, ◌+◌, ◌++◌, ◌≡◌, ◌==◌, ◌&&◌, not, refl, ap, ◌∙◌, Bool, Option, some, List, [], ◌∷◌,
  ok, arith, if◌then◌else◌,
}
use tla_contracts.Near.{AccountId, Env}
use tla_contracts.HosCommon.{ft_storage_deposit_yocto}
use tla_contracts.Extension.Types.{
  HosExtension, Outcome, Promise, Event, WalletCall, Callback, Effect, min_sweep_attached,
}
use tla_contracts.Extension.Sweep.{
  sweep_ft, after_payout_for_sweep, after_balance_for_sweep, after_storage_for_sweep,
  after_sweep_settled,
}

-- What the promises of one sweep come to: the payout account and the balance that are answered, whether
-- the storage deposit succeeds, and what the leased account answers to the sweep.
pub record Replies : Type 0 where
  pub payout : Option AccountId
  pub balance : Option ℕ
  pub stored : Bool
  pub settled : Option Bool

module _ (env : Env) (replies : Replies) (x : HosExtension) where
  -- The receipt of the callback to the storage deposit.
  abbrev pub stored_env : Env
  stored_env = record env { promise_success = replies.stored }

  -- What a callback of the sweep sends and logs.
  unfoldable pub called_back : Callback → List Effect
  called_back (Callback.after_payout_for_sweep wallet ft refund_to) =
      (after_payout_for_sweep env wallet ft refund_to replies.payout x).1.effects
  called_back (Callback.after_balance_for_sweep wallet ft to refund_to) =
      (after_balance_for_sweep env wallet ft to refund_to replies.balance x).1.effects
  called_back (Callback.after_storage_for_sweep wallet ft to refund_to balance) =
      (after_storage_for_sweep stored_env wallet ft to refund_to balance x).1.effects
  called_back (Callback.after_sweep_settled wallet ft to amount) =
      (after_sweep_settled env wallet ft to amount replies.settled x).1.effects
  called_back _ = []

  -- A promise, if NEAR leaves with it. A storage deposit that fails is returned.
  abbrev pub paying : Promise → List Promise
  paying (Promise.call_wallet wallet call deposit) =
      if deposit == 0 then [] else Promise.call_wallet wallet call deposit ∷ []
  paying (Promise.storage_deposit ft account deposit) =
      if replies.stored then Promise.storage_deposit ft account deposit ∷ [] else []
  paying (Promise.transfer to amount) = Promise.transfer to amount ∷ []
  paying _ = []

  -- The promises that pay NEAR among some effects, and among those of the callbacks that they lead to, as
  -- many deep as there is fuel.
  unfoldable pub payments : ℕ → List Effect → List Promise
  payments zero effects = []
  payments (suc n) [] = []
  payments (suc n) (Effect.emit event ∷ effects) = payments (suc n) effects
  payments (suc n) (Effect.send promise callback ∷ effects) =
      paying promise ++ payments n (called_back callback) ++ payments (suc n) effects

  -- What the deposit should come to, by the answers.
  unfoldable pub settlement :
      AccountId → AccountId → AccountId → Option AccountId → Option ℕ → List Promise
  settlement wallet ft refund_to (some to) (some balance) =
      if not (balance == 0) && replies.stored
      then Promise.storage_deposit ft to ft_storage_deposit_yocto
        ∷ Promise.call_wallet wallet (WalletCall.sweep_ft ft balance) 1
        ∷ []
      else Promise.transfer refund_to env.attached_deposit ∷ []
  settlement wallet ft refund_to _ _ = Promise.transfer refund_to env.attached_deposit ∷ []

  payments-payout :
      (n : ℕ) (wallet ft refund_to : AccountId)
      → env.attached_deposit ≡ min_sweep_attached
      → payments
          (suc (suc (suc (suc n))))
          (called_back (Callback.after_payout_for_sweep wallet ft refund_to))
        ≡ settlement wallet ft refund_to replies.payout replies.balance
  unfolding payments called_back settlement after_payout_for_sweep after_balance_for_sweep
      after_storage_for_sweep after_sweep_settled
  payments-payout n wallet ft refund_to e = ground arith

  sweep_ft-effects :
      (wallet ft refund_to : AccountId) (done : Outcome)
      → sweep_ft env wallet ft refund_to x ≡ ok done
      → (env.attached_deposit ≡ min_sweep_attached)
        × (done.effects
            ≡ Effect.emit (Event.sweep_requested wallet ft env.predecessor_account_id)
              ∷ Effect.send
                  (Promise.call_wallet wallet WalletCall.payout_account 0)
                  (Callback.after_payout_for_sweep wallet ft refund_to)
              ∷ [])
  unfolding sweep_ft
  sweep_ft-effects wallet ft refund_to done e = ground arith

  append_nil : (ps : List Promise) → ps ++ [] ≡ ps
  append_nil [] = refl
  append_nil (p ∷ ps) = ap (λ qs. p ∷ qs) (append_nil ps)

  -- Whatever the leased account, the token and the storage deposit answer, the deposit of a token sweep
  -- goes one of two ways, and nothing else is paid by the sweep and its callbacks. If the leased account
  -- answers its payout account, the token a balance above zero, and the storage deposit succeeds, then
  -- the deposit, which is the storage deposit and one yocto, pays the token the storage of the payout
  -- account and the leased account the call that sweeps that balance. Otherwise it goes in full to the
  -- account that the caller named for the refund.
  pub payments-sweep_ft :
      (n : ℕ) (wallet ft refund_to : AccountId) (done : Outcome)
      → sweep_ft env wallet ft refund_to x ≡ ok done
      → (env.attached_deposit ≡ ft_storage_deposit_yocto + 1)
        × (payments (suc (suc (suc (suc (suc n))))) done.effects
            ≡ settlement wallet ft refund_to replies.payout replies.balance)
  unfolding payments
  payments-sweep_ft n wallet ft refund_to done e =
      let r = sweep_ft-effects wallet ft refund_to done e in
      (
        ground (arith, r.0),
        rw r.1 (
            ap (λ ps. ps ++ []) (payments-payout n wallet ft refund_to r.0)
            ∙ append_nil (settlement wallet ft refund_to replies.payout replies.balance)),
      )
