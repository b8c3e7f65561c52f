-- ===== src/Wallet/Grants.antt =====
-- contracts/hos-wallet/src/lib.rs: granting and revoking a delegate's spending.
use tla_contracts.Prelude.{
  ℕ, not, Option, none, some, List, [], ◌∷◌, ltb, ◌!=◌, is_none, is_empty, Result, ok, require,
  ◌>>=◌, ◌>>◌,
}
use tla_contracts.Prelude.IdSet
use tla_contracts.Prelude.IdMap
use tla_contracts.Prelude.IdMap.{IdMap}
use tla_contracts.Prelude.IdSet.{IdSet}
use tla_contracts.Near.{AccountId, Env}
use tla_contracts.Wallet.Types.{
  TenantWallet, SpendGrant, TokenBudget, TokenAllowance, ItemAllowance, Error, Event, Effect,
  Outcome,
}
use tla_contracts.Wallet.Guards.{Check, assert_one_yocto, assert_renter_active, assert_owner_caller}

-- Nothing a grant names may be this account or its own collection.
abbrev assert_grantable : Env → AccountId → AccountId → Check
assert_grantable env target collection_id = do
  require (target != collection_id) Error.own_collection_not_grantable
  require (target != env.current_account_id) Error.self_target

-- What the held grant has already spent of a token.
abbrev pub token_spent : Option SpendGrant → AccountId → ℕ
token_spent none token = 0
token_spent (some grant) token = elim (IdMap.get grant.tokens token) [
  | none ↦ 0
  | some budget ↦ budget.spent
]

abbrev pub yocto_spent : Option SpendGrant → ℕ
yocto_spent none = 0
yocto_spent (some grant) = grant.spent_yocto

module _ (env : Env) where
  -- The loop of `token_budgets`, over the map built so far.
  unfoldable pub token_budgets_from :
      IdMap TokenBudget
      → List TokenAllowance
      → Option SpendGrant
      → AccountId
      → Result Error (IdMap TokenBudget)
  token_budgets_from budgets [] held collection_id = ok budgets
  token_budgets_from budgets (allowance ∷ rest) held collection_id = do
    assert_grantable env allowance.token collection_id
    require (is_none (IdMap.get budgets allowance.token)) Error.token_listed_twice
    token_budgets_from
        (IdMap.insert budgets allowance.token
          (record { budget = allowance.budget; spent = token_spent held allowance.token }))
        rest held collection_id

  abbrev pub token_budgets :
      List TokenAllowance → Option SpendGrant → AccountId → Result Error (IdMap TokenBudget)
  token_budgets = token_budgets_from []

  unfoldable pub item_fences_from :
      IdMap IdSet → List ItemAllowance → AccountId → Result Error (IdMap IdSet)
  item_fences_from fences [] collection_id = ok fences
  item_fences_from fences (allowance ∷ rest) collection_id = do
    assert_grantable env allowance.collection collection_id
    require (not (is_empty allowance.token_ids)) Error.empty_item_grant
    require (is_none (IdMap.get fences allowance.collection)) Error.collection_listed_twice
    item_fences_from (IdMap.insert fences allowance.collection (IdSet.collect allowance.token_ids))
        rest collection_id

  abbrev pub item_fences : List ItemAllowance → AccountId → Result Error (IdMap IdSet)
  item_fences = item_fences_from []

  unfoldable pub hos_grant_spend :
      AccountId
      → List AccountId
      → ℕ
      → List TokenAllowance
      → List ItemAllowance
      → ℕ
      → TenantWallet
      → Result Error Outcome
  hos_grant_spend delegate receivers budget_yocto tokens items expires_at w = do
    assert_one_yocto env
    assert_owner_caller env w
    assert_renter_active env w
    require (delegate != w.owner) Error.unauthorized
    require (delegate != w.authority) Error.unauthorized
    require (IdSet.contains w.wallet.extensions delegate) Error.unauthorized
    require (not (is_empty receivers)) Error.empty_grant
    require (ltb env.block_timestamp expires_at) Error.grant_in_past
    let held = IdMap.get w.spend_grants delegate
    budgets ← token_budgets tokens held w.collection_id
    fences ← item_fences items w.collection_id
    ok (record {
      state = record w {
        spend_grants = IdMap.insert w.spend_grants delegate (record {
          receivers = IdSet.collect receivers;
          budget_yocto = budget_yocto;
          spent_yocto = yocto_spent held;
          tokens = budgets;
          items = fences;
          expires_at = expires_at;
        });
      };
      effects = Effect.emit (Event.spend_granted delegate) ∷ [];
    })

  unfoldable pub hos_revoke_spend : AccountId → TenantWallet → Result Error Outcome
  hos_revoke_spend delegate w = do
    assert_one_yocto env
    assert_owner_caller env w
    ok (record {
      state = record w { spend_grants = IdMap.remove w.spend_grants delegate };
      effects = Effect.emit (Event.spend_revoked delegate) ∷ [];
    })
