-- ===== src/Wallet/Charge/Metering.antt =====
-- contracts/hos-wallet/src/lib.rs: what a delegate's request costs its grant, against a plain
-- reading of the request.
use text.Mathlib.Text.{◌==◌ as str_eq}
use tla_contracts.Prelude.{
  ℕ, ◌+◌, ◌≤◌, ◌++◌, ◌≡◌, ◌∙◌, ap, subst, inl, inr, ◌⊎◌, Option, none, some, List, [], ◌∷◌, ok,
  arith, Bool-cases, Option-cases, Result-cases, ◌==◌, if◌then◌else◌,
}
use tla_contracts.Prelude.IdMap
use tla_contracts.Prelude.IdMap.{IdMap}
use tla_contracts.Near.{AccountId}
use tla_contracts.Wallet.Types.{Upstream, NearPromise, SpendGrant}
use tla_contracts.Wallet.Types.{FunctionCall, TokenBudget}
use tla_contracts.Wallet.Charge.{
  Charged, first_call, charge_transfer, charge_ft_transfer, charge_nft_transfer, charge_token_call,
  charge_call, charge_promise, charge_all,
}

module _ (up : Upstream) where
  -- The amount that an `ft_transfer` moves.
  pub ft_amount : FunctionCall → ℕ
  ft_amount call =
      if str_eq call.function_name "ft_transfer"
      then elim (up.read_ft_args call.args) [ none ↦ 0 | some args ↦ args.amount ]
      else 0

  -- What a promise costs in NEAR: its deposits, if it makes no call.
  unfoldable pub yocto_of : NearPromise → ℕ
  yocto_of p = elim (first_call p.actions) [ none ↦ up.total_deposit p | some call ↦ 0 ]

  -- What a promise costs of a token.
  pub token_of : AccountId → NearPromise → ℕ
  unfolding ft_amount
  token_of token p =
      if token == p.receiver_id
      then elim (first_call p.actions) [ none ↦ 0 | some call ↦ ft_amount call ]
      else 0

  unfoldable pub yocto_total : List NearPromise → ℕ
  yocto_total [] = 0
  yocto_total (p ∷ ps) = yocto_of p + yocto_total ps

  pub token_total : AccountId → List NearPromise → ℕ
  token_total token [] = 0
  token_total token (p ∷ ps) = token_of token p + token_total token ps

abbrev spent_in : Option TokenBudget → ℕ
spent_in none = 0
spent_in (some b) = b.spent

abbrev budget_in : Option TokenBudget → Option ℕ
budget_in none = none
budget_in (some b) = some b.budget

-- What a grant has spent of a token, and the budget that it names.
abbrev pub spent_of : SpendGrant → AccountId → ℕ
spent_of g token = spent_in (IdMap.get g.tokens token)

abbrev pub budget_of : SpendGrant → AccountId → Option ℕ
budget_of g token = budget_in (IdMap.get g.tokens token)

-- A charge moves the meters by the given costs, within the budgets, and leaves the terms.
pub record Meters (g : SpendGrant) (yocto : ℕ) (cost : AccountId → ℕ) (g' : SpendGrant)
    : Type 0 where
  pub receivers : g'.receivers ≡ g.receivers
  pub items : g'.items ≡ g.items
  pub expires : g'.expires_at ≡ g.expires_at
  pub budget : g'.budget_yocto ≡ g.budget_yocto
  pub spent : g'.spent_yocto ≡ g.spent_yocto + yocto
  pub within : (g'.spent_yocto ≡ g.spent_yocto) ⊎ (g'.spent_yocto ≤ g.budget_yocto)
  pub budgets : (t : AccountId) → budget_of g' t ≡ budget_of g t
  pub tokens : (t : AccountId) → spent_of g' t ≡ spent_of g t + cost t

-- The same costs, written otherwise.
Meters-cost :
    {g g' : SpendGrant} {yocto : ℕ} {f f' : AccountId → ℕ}
    → Meters g yocto f g'
    → ((t : AccountId) → f t ≡ f' t)
    → Meters g yocto f' g'
Meters-cost m e = record {
  receivers = m.receivers;
  items = m.items;
  expires = m.expires;
  budget = m.budget;
  spent = m.spent;
  within = m.within;
  budgets = m.budgets;
  tokens = λ t. ground (arith, m.tokens t, e t);
}

module _ (up : Upstream) (delegate collection : AccountId) where
  charge_transfer-Meters :
      (g : SpendGrant) (p : NearPromise) (c : Charged)
      → charge_transfer up g delegate p ≡ ok c
      → Meters g (up.total_deposit p) (λ t. 0) c.grant
  unfolding charge_transfer
  charge_transfer-Meters g p c h = ground arith

  -- The cost of a token call, by its receiver.
  abbrev cost_at : AccountId → ℕ → AccountId → ℕ
  cost_at token amount t = if t == token then amount else 0

  charge_ft_transfer-Meters :
      (g : SpendGrant) (p : NearPromise) (call : FunctionCall) (c : Charged)
      → charge_ft_transfer up g delegate p call ≡ ok c
      → Meters g 0
          (cost_at p.receiver_id
            (elim (up.read_ft_args call.args) [ none ↦ 0 | some args ↦ args.amount ]))
          c.grant
  unfolding charge_ft_transfer
  charge_ft_transfer-Meters g p call c h = record {
    receivers = ground arith;
    items = ground arith;
    expires = ground arith;
    budget = ground arith;
    spent = ground arith;
    within = ground arith;
    budgets = λ t. grind (arith, IdMap.get-insert);
    tokens = λ t. grind (arith, IdMap.get-insert);
  }

  charge_nft_transfer-Meters :
      (g : SpendGrant) (p : NearPromise) (call : FunctionCall) (c : Charged)
      → charge_nft_transfer up g delegate p call ≡ ok c
      → Meters g 0 (λ t. 0) c.grant
  unfolding charge_nft_transfer
  charge_nft_transfer-Meters g p call c h = ground arith

  charge_token_call-Meters :
      (g : SpendGrant) (p : NearPromise) (call : FunctionCall) (c : Charged)
      → charge_token_call up g delegate collection p call ≡ ok c
      → Meters g 0 (cost_at p.receiver_id (ft_amount up call)) c.grant
  unfolding charge_token_call ft_amount
  charge_token_call-Meters g p call c h =
      elim (Bool-cases (str_eq call.function_name "ft_transfer")) [
        | inl e ↦ rw e (charge_ft_transfer-Meters g p call c (ground (arith, e)))
        | inr e ↦ rw e (
            Meters-cost (charge_nft_transfer-Meters g p call c (ground (arith, e)))
              (λ t. ground arith))
      ]

  pub charge_promise-Meters :
      (g : SpendGrant) (p : NearPromise) (c : Charged)
      → charge_promise up g delegate collection p ≡ ok c
      → Meters g (yocto_of up p) (λ t. token_of up t p) c.grant
  unfolding charge_promise charge_call yocto_of token_of
  charge_promise-Meters g p c h = elim (Option-cases (first_call p.actions)) [
    | inl e ↦
        rw (e, yocto_of)
          (Meters-cost (charge_transfer-Meters g p c (ground (arith, e))) (λ t. ground arith))
    | inr (call, e) ↦ rw (e, yocto_of) (charge_token_call-Meters g p call c (ground (arith, e)))
  ]

  -- Two charges in a row cost the sum.
  Meters-trans :
      (a b c : SpendGrant) (x y : ℕ) (f g : AccountId → ℕ)
      → Meters a x f b
      → Meters b y g c
      → Meters a (x + y) (λ t. f t + g t) c
  Meters-trans a b c x y f g m n = record {
    receivers = n.receivers ∙ m.receivers;
    items = n.items ∙ m.items;
    expires = n.expires ∙ m.expires;
    budget = n.budget ∙ m.budget;
    spent = omega arith;
    within = ground arith;
    budgets = λ t. n.budgets t ∙ m.budgets t;
    tokens = λ t. omega (arith, m.tokens t, n.tokens t);
  }

  -- A request costs the sum of what its promises cost.
  pub charge_all-Meters :
      (ps : List NearPromise) (g : SpendGrant) (c : Charged)
      → charge_all up g delegate collection ps ≡ ok c
      → Meters g (yocto_total up ps) (λ t. token_total up t ps) c.grant
  unfolding charge_all yocto_total token_total
  charge_all-Meters [] g c h = ground arith
  charge_all-Meters (p ∷ ps) g c h =
      elim (Result-cases (charge_promise up g delegate collection p)) [
        | inl (one, e) ↦ elim (Result-cases (charge_all up one.grant delegate collection ps)) [
          | inl (rest, f) ↦
              subst (Meters g _ _) (ap (λ (x : Charged). x.grant) (done one rest e f)) (
                Meters-trans g one.grant rest.grant _ _ _ _ (charge_promise-Meters g p one e)
                  (charge_all-Meters ps one.grant rest f))
          | inr (x, f) ↦ absurd (ground (arith, e, f))
        ]
        | inr (x, e) ↦ absurd (ground (arith, e))
      ]
    where
      done :
          (one rest : Charged)
          → charge_promise up g delegate collection p ≡ ok one
          → charge_all up one.grant delegate collection ps ≡ ok rest
          → record { grant = rest.grant; effects = one.effects ++ rest.effects } ≡ c
      done one rest e f = ground (arith, e, f)
