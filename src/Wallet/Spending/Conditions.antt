-- ===== src/Wallet/Spending/Conditions.antt =====
-- contracts/hos-wallet/src/lib.rs: the conditions under which a request may send value.
use tla_contracts.Prelude.{
  ℕ, ◌+◌, ◌≤◌, ◌<◌, ◌≡◌, ◌≢◌, sym, ◌∙◌, inl, inr, ◌⊎◌, some, List, [], ◌∷◌, ok, arith, Bool-cases,
  Option-cases, Result-cases, ◌==◌, ==_iff,
}
use tla_contracts.Prelude.IdMap
use tla_contracts.Prelude.IdMap.{IdMap}
use tla_contracts.Near.{AccountId, Env}
use tla_contracts.HosCommon.{OperatingState}
use tla_contracts.Wallet.Types.{
  Outcome, TenantWallet, extension, Upstream, WalletOp, NearPromise, SpendGrant, Effect,
}
use tla_contracts.Wallet.Guards.{effective_frozen}
use tla_contracts.Wallet.Guards.{assert_renter, reserve, assert_within_reserve, total_deposits}
use tla_contracts.Wallet.Execute.{
  execute_ops, execute_external, execute_request, w_execute_extension,
}
use tla_contracts.Wallet.Charge.{charge_spend}
use tla_contracts.Wallet.Types.{FreezeState}
use tla_contracts.Wallet.Invariant.{Ensures, Ensures-map, Ensures-ok}
use tla_contracts.Wallet.Spending.{
  SameTerms, execute_ops-SameTerms, execute_ops-IsEditor, renter_active, IsEditor,
}

-- The deposits of a request's promises.
pub sum_deposits : Upstream → List NearPromise → ℕ
sum_deposits up [] = 0
sum_deposits up (p ∷ ps) = up.total_deposit p + sum_deposits up ps

module _ (up : Upstream) where
  total_deposits-eq-sum :
      (acc : ℕ) (ps : List NearPromise) (t : ℕ)
      → total_deposits up acc ps ≡ some t
      → t ≡ acc + sum_deposits up ps
  unfolding total_deposits sum_deposits
  total_deposits-eq-sum acc [] t h = ground arith
  total_deposits-eq-sum acc (p ∷ ps) t h =
      ground (arith, total_deposits-eq-sum (acc + up.total_deposit p) ps t)

  module _ (env : Env) where
    within_reserve :
        (ps : List NearPromise)
        → assert_within_reserve up env ps ≡ ok tt
        → sum_deposits up ps + reserve env ≤ env.account_balance
    unfolding assert_within_reserve
    within_reserve ps h = elim (Option-cases (total_deposits up 0 ps)) [
      | inl e ↦ ground (arith, e)
      | inr (t, e) ↦ ground (arith, e, total_deposits-eq-sum 0 ps t e, reserve_pos)
    ]
      where
        reserve_pos : 0 < reserve env
        reserve_pos = unfold reserve in omega arith

    -- What a spender is: the owner, or a delegate whose grant has not expired.
    abbrev IsSpender : AccountId → TenantWallet → Type 0
    IsSpender id w =
        (id ≡ w.owner)
        ⊎ ((grant : SpendGrant) × (IdMap.get w.spend_grants id ≡ some grant)
            × (env.block_timestamp < grant.expires_at))

    charge_spend-IsSpender :
        (w : TenantWallet) (id : AccountId) (ps : List NearPromise)
        (charged : TenantWallet × List Effect)
        → charge_spend up env w (extension id) ps ≡ ok charged
        → IsSpender id w
    unfolding charge_spend
    charge_spend-IsSpender w id ps charged h = elim (Bool-cases (id == w.owner)) [
      | inl e ↦ inl ((==_iff id w.owner).0 e)
      | inr e ↦ elim (Option-cases (IdMap.get w.spend_grants id)) [
        | inl n ↦ absurd (ground (arith, e, n))
        | inr (grant, g) ↦ inr (grant, g, ground (arith, e, g))
      ]
    ]

    -- The conditions of a request that sends value.
    pub record MaySpend (id : AccountId) (w : TenantWallet) (ps : List NearPromise) : Type 0 where
      pub not_authority : id ≢ w.authority
      pub active : w.state ≡ OperatingState.active
      pub running : env.block_timestamp < w.lease_until_ns
      pub thawed : effective_frozen env w ≡ FreezeState.unfrozen
      pub reserved : sum_deposits up ps + reserve env ≤ env.account_balance
      pub spender : IsSpender id w

    execute_external-MaySpend :
        (ps : List NearPromise) (id : AccountId) (w : TenantWallet)
        → Ensures (λ s. MaySpend id w ps) (execute_external env up ps (extension id) w)
    unfolding execute_external assert_renter
    execute_external-MaySpend ps id w =
        elim (Result-cases (charge_spend up env w (extension id) ps)) [
          | inl (charged, e) ↦ ground (
            arith,
            e,
            charge_spend-IsSpender w id ps charged e,
            renter_active env w,
            within_reserve ps,
          )
          | inr (x, e) ↦ ground (arith, e)
        ]

    -- With internal operations the caller has to be the owner, so the grants do not matter.
    MaySpend-back :
        (id : AccountId) (w inner : TenantWallet) (ps : List NearPromise)
        → SameTerms w inner
        → IsEditor env id w
        → MaySpend id inner ps
        → MaySpend id w ps
    MaySpend-back id w inner ps same (inl authority) may =
        absurd (may.not_authority (authority.0 ∙ sym same.authority))
    MaySpend-back id w inner ps same (inr owner) may = record {
      not_authority = λ e. may.not_authority (e ∙ sym same.authority);
      active = sym same.state ∙ may.active;
      running = owner.2;
      thawed = owner.3;
      reserved = may.reserved;
      spender = inl owner.0;
    }

    execute_request-MaySpend :
        (internal : List WalletOp) (p : NearPromise) (ps : List NearPromise) (id : AccountId)
        (w : TenantWallet)
        → Ensures
            (λ s. MaySpend id w (p ∷ ps))
            (execute_request env up
              (record { internal = internal; external = p ∷ ps })
              (extension id)
              w)
    unfolding execute_request
    execute_request-MaySpend [] p ps id w =
        unfold execute_ops in
        elim (Result-cases (execute_external env up (p ∷ ps) (extension id) w)) [
          | inl (outer, e) ↦ rw e (rw e at (execute_external-MaySpend (p ∷ ps) id w))
          | inr (x, e) ↦ rw e tt
        ]
    execute_request-MaySpend (op ∷ ops) p ps id w =
        elim (Result-cases (execute_ops env (op ∷ ops) (extension id) w)) [
          | inl (inner, e) ↦
              elim (Result-cases (execute_external env up (p ∷ ps) (extension id) inner.state)) [
                | inl (outer, f) ↦
                    rw (e, f)
                      (MaySpend-back id w inner.state (p ∷ ps)
                        (rw e at (execute_ops-SameTerms env (op ∷ ops) (extension id) w))
                        (rw e at (execute_ops-IsEditor env op ops id w))
                        (rw f at (execute_external-MaySpend (p ∷ ps) id inner.state)))
                | inr (x, f) ↦ rw (e, f) tt
              ]
          | inr (x, e) ↦ rw e tt
        ]

    abbrev cleaned : TenantWallet → TenantWallet
    cleaned w = record w {
      wallet = record (w.wallet) { nonces = up.check_cleanup env.block_timestamp w.wallet.nonces };
    }

    MaySpend-cleaned :
        (id : AccountId) (w : TenantWallet) (ps : List NearPromise)
        → MaySpend id (cleaned w) ps
        → MaySpend id w ps
    MaySpend-cleaned id w ps may = record {
      not_authority = may.not_authority;
      active = may.active;
      running = may.running;
      thawed = unfold effective_frozen in may.thawed;
      reserved = may.reserved;
      spender = may.spender;
    }

    w_execute_extension-MaySpend :
        (internal : List WalletOp) (p : NearPromise) (ps : List NearPromise) (w : TenantWallet)
        → Ensures
            (λ s. MaySpend env.predecessor_account_id w (p ∷ ps))
            (w_execute_extension env up (record { internal = internal; external = p ∷ ps }) w)
    unfolding w_execute_extension
    w_execute_extension-MaySpend internal p ps w = ground (
      arith,
      Ensures-map
          (execute_request env up (record { internal = internal; external = p ∷ ps })
            (extension env.predecessor_account_id) (cleaned w))
          (λ _. MaySpend-cleaned env.predecessor_account_id w (p ∷ ps))
          (execute_request-MaySpend internal p ps env.predecessor_account_id (cleaned w)),
    )

    -- A call through an extension that sends anything and succeeds comes from the owner, or from a
    -- delegate whose grant has not expired, and never from the authority; the lease runs, the
    -- account is active and not frozen, and the deposits leave the storage reserve in the balance.
    pub execute_extension-MaySpend :
        (internal : List WalletOp) (p : NearPromise) (ps : List NearPromise) (w : TenantWallet)
        (done : Outcome)
        → w_execute_extension env up (record { internal = internal; external = p ∷ ps }) w ≡ ok done
        → MaySpend env.predecessor_account_id w (p ∷ ps)
    execute_extension-MaySpend internal p ps w done =
        Ensures-ok (λ s. MaySpend env.predecessor_account_id w (p ∷ ps))
          (w_execute_extension-MaySpend internal p ps w)
