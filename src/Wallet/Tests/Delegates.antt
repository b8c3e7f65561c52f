-- ===== src/Wallet/Tests/Delegates.antt =====
-- The theorems about the validity of the wallet and the spending from it, at inputs where their
-- hypotheses hold.
use tla_contracts.Prelude.{◌≡◌, ◌+◌, true, List, refl, [], ◌∷◌, arith}
use tla_contracts.Prelude.IdSet
use tla_contracts.Prelude.IdMap
use tla_contracts.Wallet.Types.{Outcome, NearAction}
use tla_contracts.Wallet.Guards.{assert_renter_active, assert_within_reserve, assert_renter}
use tla_contracts.Wallet.Charge.{
  all_transfers, charge_all, charge_promise, charge_call, charge_transfer, charge_spend,
}
use tla_contracts.Wallet.Charge.Metering.{Meters, budget_of, token_total}
use tla_contracts.Wallet.Charge.Spending.{
  transfers_in, transferred, near_total, call_count, charge_all-Spends,
}
use tla_contracts.Wallet.Charge.Fence.{AreAllowed, charge_all-AreAllowed}
use tla_contracts.Wallet.Execute.{
  execute_ops, execute_external, execute_request, w_execute_extension, forward_all,
}
use tla_contracts.Wallet.Calls
use tla_contracts.Wallet.Invariant.{IsValid}
use tla_contracts.Wallet.Invariant.Reach.{receive_all-IsValid}
use tla_contracts.Wallet.Spending.{SameTerms, execute_extension-SameTerms}
use tla_contracts.Wallet.Spending.Conditions.{MaySpend, execute_extension-MaySpend}
use tla_contracts.Wallet.Tests.{
  receipts, env_at, upstream, grant, leased, payment, result, charged, leased-IsValid, deposits,
}

-- The deposits of plain transfers, in the concrete instance.
deposits-transfers_in :
    (actions : List NearAction)
    → all_transfers actions ≡ true
    → deposits actions ≡ transfers_in actions
unfolding transfers_in
deposits-transfers_in [] plain = refl
deposits-transfers_in (NearAction.transfer amount ∷ actions) plain =
    ground (arith, deposits-transfers_in actions plain)
deposits-transfers_in (NearAction.function_call call ∷ actions) plain = absurd (ground arith)
deposits-transfers_in (NearAction.near_action tag ∷ actions) plain = absurd (ground arith)

receive_all-IsValid_example : IsValid 1 (Calls.receive_all upstream leased receipts)
receive_all-IsValid_example =
    receive_all-IsValid 1 upstream receipts leased (refl, (refl, tt)) leased-IsValid

execute_extension-MaySpend_example : MaySpend upstream (env_at 40 100) 40 leased (payment ∷ [])
unfolding w_execute_extension execute_request execute_ops execute_external assert_renter
    assert_renter_active charge_spend charge_all charge_promise charge_call charge_transfer
    assert_within_reserve forward_all IdSet.contains IdMap.get IdMap.insert
execute_extension-MaySpend_example =
    execute_extension-MaySpend upstream (env_at 40 100) [] payment [] leased
      (result (
        w_execute_extension (env_at 40 100) upstream
          (record { internal = []; external = payment ∷ [] }) leased))
      refl

charge_all-Spends_example :
    Meters grant
      (transferred (payment ∷ []))
      (λ t. token_total upstream t (payment ∷ []))
      (charged (charge_all upstream grant 40 30 (payment ∷ []))).grant
    × (near_total (payment ∷ []) ≡ transferred (payment ∷ []) + call_count (payment ∷ []))
unfolding charge_all charge_promise charge_call charge_transfer IdSet.contains
charge_all-Spends_example =
    charge_all-Spends upstream 40 30 (λ p plain. deposits-transfers_in p.actions plain)
      (payment ∷ []) grant (charged (charge_all upstream grant 40 30 (payment ∷ []))) refl

charge_all-AreAllowed_example :
    AreAllowed upstream 40 30 (50 ∷ []) [] (budget_of grant) (payment ∷ [])
unfolding charge_all charge_promise charge_call charge_transfer IdSet.contains
charge_all-AreAllowed_example =
    charge_all-AreAllowed upstream 40 30 (payment ∷ []) grant
      (charged (charge_all upstream grant 40 30 (payment ∷ []))) refl

abbrev spent : Outcome
spent = result (
    w_execute_extension (env_at 40 100) upstream (record { internal = []; external = payment ∷ [] })
      leased)

execute_extension-SameTerms_example : SameTerms leased spent.state
unfolding w_execute_extension execute_request execute_ops execute_external assert_renter
    assert_renter_active charge_spend charge_all charge_promise charge_call charge_transfer
    assert_within_reserve forward_all IdSet.contains IdMap.get IdMap.insert
execute_extension-SameTerms_example =
    execute_extension-SameTerms (env_at 40 100) upstream
      (record { internal = []; external = payment ∷ [] }) leased spent refl

-- The owner takes the delegate out of the extension set.
