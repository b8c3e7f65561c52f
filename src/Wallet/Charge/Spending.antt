-- ===== src/Wallet/Charge/Spending.antt =====
-- contracts/hos-wallet/src/lib.rs: what the meters of a grant count of the NEAR that a request sends.
use tla_contracts.Prelude.{
  ℕ, ◌+◌, ◌≡◌, inl, inr, true, some, List, [], ◌∷◌, ok, arith, length, subst, refl, Option-cases,
  Result-cases,
}
use tla_contracts.Near.{AccountId}
use tla_contracts.Wallet.Types.{Upstream, NearPromise, NearAction, FunctionCall, SpendGrant}
use tla_contracts.Wallet.Charge.{
  Charged, first_call, all_transfers, charge_transfer, charge_token_call, charge_call,
  charge_promise, charge_all,
}
use tla_contracts.Wallet.Charge.Metering.{
  Meters, yocto_of, yocto_total, token_total, charge_all-Meters,
}

-- The NEAR that transfers send.
unfoldable pub transfers_in : List NearAction → ℕ
transfers_in [] = 0
transfers_in (NearAction.transfer amount ∷ actions) = amount + transfers_in actions
transfers_in (_ ∷ actions) = transfers_in actions

calls_in : List NearAction → ℕ
calls_in [] = 0
calls_in (NearAction.function_call call ∷ actions) = 1 + calls_in actions
calls_in (_ ∷ actions) = calls_in actions

-- The NEAR that transfers and calls send.
near_in : List NearAction → ℕ
near_in [] = 0
near_in (NearAction.transfer amount ∷ actions) = amount + near_in actions
near_in (NearAction.function_call call ∷ actions) = call.deposit + near_in actions
near_in (NearAction.near_action tag ∷ actions) = near_in actions

-- What the transfers of a request send, what its transfers and calls send, and how many calls it has.
pub transferred : List NearPromise → ℕ
transferred [] = 0
transferred (p ∷ ps) = transfers_in p.actions + transferred ps

pub near_total : List NearPromise → ℕ
near_total [] = 0
near_total (p ∷ ps) = near_in p.actions + near_total ps

pub call_count : List NearPromise → ℕ
call_count [] = 0
call_count (p ∷ ps) = calls_in p.actions + call_count ps

near_in-transfers :
    (actions : List NearAction)
    → all_transfers actions ≡ true
    → near_in actions ≡ transfers_in actions + calls_in actions
unfolding near_in transfers_in calls_in
near_in-transfers [] plain = refl
near_in-transfers (NearAction.transfer amount ∷ actions) plain =
    ground (arith, near_in-transfers actions plain)
near_in-transfers (NearAction.function_call call ∷ actions) plain = absurd (ground arith)
near_in-transfers (NearAction.near_action tag ∷ actions) plain = absurd (ground arith)

-- A call that stands alone.
alone :
    (actions : List NearAction) (call : FunctionCall)
    → first_call actions ≡ some call
    → length actions ≡ 1
    → call.deposit ≡ 1
    → (near_in actions ≡ transfers_in actions + calls_in actions) × (transfers_in actions ≡ 0)
unfolding near_in transfers_in calls_in
alone [] call e one deposit = absurd (ground arith)
alone (NearAction.function_call c ∷ []) call e one deposit = ground arith
alone (NearAction.transfer amount ∷ []) call e one deposit = absurd (ground arith)
alone (NearAction.near_action tag ∷ []) call e one deposit = absurd (ground arith)
alone (a ∷ b ∷ actions) call e one deposit = absurd (ground arith)

module _ (up : Upstream) (delegate collection : AccountId)
    (sums : (p : NearPromise)
      → all_transfers p.actions ≡ true
      → up.total_deposit p ≡ transfers_in p.actions) where
  promise-Spends :
      (g : SpendGrant) (p : NearPromise) (c : Charged)
      → charge_promise up g delegate collection p ≡ ok c
      → (yocto_of up p ≡ transfers_in p.actions)
        × (near_in p.actions ≡ transfers_in p.actions + calls_in p.actions)
  unfolding charge_promise charge_call charge_transfer charge_token_call yocto_of
  promise-Spends g p c h = elim (Option-cases (first_call p.actions)) [
    | inl e ↦
        let plain : all_transfers p.actions ≡ true = ground (arith, e) in
        (rw (e, yocto_of) (sums p plain), near_in-transfers p.actions plain)
    | inr (call, e) ↦
        let r = alone p.actions call e (ground (arith, e)) (ground (arith, e)) in
        (rw (e, yocto_of) (ground (arith, r)), r.0)
  ]

  charge_all-Sends :
      (ps : List NearPromise) (g : SpendGrant) (c : Charged)
      → charge_all up g delegate collection ps ≡ ok c
      → (yocto_total up ps ≡ transferred ps) × (near_total ps ≡ transferred ps + call_count ps)
  unfolding charge_all yocto_total transferred near_total call_count
  charge_all-Sends [] g c h = ground arith
  charge_all-Sends (p ∷ ps) g c h =
      elim (Result-cases (charge_promise up g delegate collection p)) [
        | inl (one, e) ↦ elim (Result-cases (charge_all up one.grant delegate collection ps)) [
          | inl (rest, f) ↦
              omega (arith, promise-Spends g p one e, charge_all-Sends ps one.grant rest f)
          | inr (x, f) ↦ absurd (ground (arith, e, f))
        ]
        | inr (x, e) ↦ absurd (ground (arith, e))
      ]

  -- A request that a delegate's grant lets through moves its meters by exactly the NEAR that its transfers
  -- send and by what each `ft_transfer` moves of its token, keeps the NEAR spent within the budget if it
  -- grew, and leaves the budgets, receivers, items and expiry of the grant as they were. All the NEAR
  -- that the request sends is its transfers and one yocto for each call, which is not metered. This
  -- is so where the deposit of plain transfers is the sum of their amounts.
  pub charge_all-Spends :
      (ps : List NearPromise) (g : SpendGrant) (c : Charged)
      → charge_all up g delegate collection ps ≡ ok c
      → Meters g (transferred ps) (λ t. token_total up t ps) c.grant
        × (near_total ps ≡ transferred ps + call_count ps)
  charge_all-Spends ps g c h =
      let r = charge_all-Sends ps g c h in
      (
        subst (λ n. Meters g n (λ t. token_total up t ps) c.grant) r.0
            (charge_all-Meters up delegate collection ps g c h),
        r.1,
      )
