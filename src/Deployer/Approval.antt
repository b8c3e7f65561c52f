-- ===== src/Deployer/Approval.antt =====
-- contracts/wallet-impl-deployer/src/lib.rs: what precedes a publication and a change of council.
use tla_contracts.Prelude.{
  ℕ, ◌≡◌, ◌≤◌, ◌⊎◌, refl, ◌∙◌, inl, inr, Option, some, List, [], ◌∷◌, ok, sat_add, u64_max, arith,
  Option-cases, Result-cases,
}
use tla_contracts.Near.{AccountId, CryptoHash, Bytes, Env}
use tla_contracts.Deployer.Types.{ImplDeployer, Outcome, or_default, new}
use tla_contracts.Deployer.Publish.{gd_approve, gd_deploy, gd_on_deployed}
use tla_contracts.Deployer.Upgrade.{
  approve_self_upgrade, upgrade_self, gd_delete_key, gd_on_key_deleted, migrate,
}
use tla_contracts.Deployer.Council.{
  approve_council_rotation, cancel_council_rotation, commit_council_rotation,
}
use tla_contracts.Deployer.Calls
use tla_contracts.Deployer.Calls.{Ensures}

-- The council of the time approved the hash, in a call at the given time.
abbrev pub ApprovedBy : CryptoHash → ℕ → AccountId → Calls.Receipt → Type 0
ApprovedBy h t council (env, call) =
    (call ≡ Calls.approve h) × (env.block_timestamp ≡ t) × (env.predecessor_account_id ≡ council)

-- Such a call is among the receipts that a deployer took.
abbrev pub WasApproved : CryptoHash → ℕ → ImplDeployer → List Calls.Receipt → Type 0
WasApproved h t d [] = ⊥
WasApproved h t d (r ∷ rs) = ApprovedBy h t d.council r ⊎ WasApproved h t (Calls.receive d r) rs

abbrev Holds : CryptoHash → ℕ → ImplDeployer → Type 0
Holds h t d = (d.approved_hash ≡ some h) × (d.approved_at ≡ some t)

-- An approval that stands after a call stood before it, or is the call.
approval_of_call :
    (h : CryptoHash) (t : ℕ) (env : Env) (call : Calls.Call) (d : ImplDeployer)
    → Ensures
        (λ s.
          ((Holds h t s → Holds h t d ⊎ ApprovedBy h t d.council (env, call))
            × (s.approval_delay_ns ≡ d.approval_delay_ns)))
        (Calls.run_call env call d)
unfolding Calls.run_call gd_approve gd_deploy gd_on_deployed approve_self_upgrade upgrade_self
    approve_council_rotation cancel_council_rotation commit_council_rotation gd_delete_key
    gd_on_key_deleted migrate
approval_of_call h t env (Calls.approve k) d = ground arith
approval_of_call h t env (Calls.deploy code) d = ground arith
approval_of_call h t env (Calls.on_deployed k size payer attached before) d = ground arith
approval_of_call h t env (Calls.approve_upgrade k) d = ground arith
approval_of_call h t env (Calls.upgrade code) d = ground arith
approval_of_call h t env (Calls.approve_rotation c) d = ground arith
approval_of_call h t env Calls.cancel_rotation d = ground arith
approval_of_call h t env Calls.commit_rotation d = ground arith
approval_of_call h t env (Calls.delete_key k) d = ground arith
approval_of_call h t env (Calls.on_key_deleted k by) d = ground arith
approval_of_call h t env Calls.migrate_state d = ground arith

approval_of_receipt :
    (h : CryptoHash) (t : ℕ) (r : Calls.Receipt) (d : ImplDeployer)
    → (Holds h t (Calls.receive d r) → Holds h t d ⊎ ApprovedBy h t d.council r)
      × ((Calls.receive d r).approval_delay_ns ≡ d.approval_delay_ns)
unfolding Calls.receive
approval_of_receipt h t (env, call) d = elim (Result-cases (Calls.run_call env call d)) [
  | inl (done, e) ↦ rw (e, Calls.receive) (rw e at (approval_of_call h t env call d))
  | inr (x, e) ↦ rw (e, Calls.receive) (λ k. inl k, refl)
]

approval_of_receipts :
    (h : CryptoHash) (t : ℕ) (rs : List Calls.Receipt) (d : ImplDeployer)
    → (Holds h t (Calls.receive_all d rs) → Holds h t d ⊎ WasApproved h t d rs)
      × ((Calls.receive_all d rs).approval_delay_ns ≡ d.approval_delay_ns)
unfolding Calls.receive_all
approval_of_receipts h t [] d = (λ k. inl k, refl)
approval_of_receipts h t (r ∷ rs) d =
    let later = approval_of_receipts h t rs (Calls.receive d r) in
    let first = approval_of_receipt h t r d in (λ k. both first.0 (later.0 k), later.1 ∙ first.1)
  where
    both :
        (Holds h t (Calls.receive d r) → Holds h t d ⊎ ApprovedBy h t d.council r)
        → Holds h t (Calls.receive d r) ⊎ WasApproved h t (Calls.receive d r) rs
        → Holds h t d ⊎ WasApproved h t d (r ∷ rs)
    both f (inl a) = elim (f a) [ inl b ↦ inl b | inr b ↦ inr (inl b) ]
    both f (inr b) = inr (inr b)

-- Code that a deployer publishes, after any receipts since it was set up, has the hash that the
-- council of the time approved in one of them, no later than the approval delay before, and the delay
-- is the one that the deployer was set up with, 48 hours if none was given.
pub gd_deploy-approved :
    (start env : Env) (council : AccountId) (delay : Option ℕ) (d : ImplDeployer)
    (rs : List Calls.Receipt) (code : Bytes) (done : Outcome)
    → new start council delay ≡ ok d
    → gd_deploy env code (Calls.receive_all d rs) ≡ ok done
    → (t : ℕ) × WasApproved (env.sha256 code) t d rs
      × (sat_add u64_max t (or_default delay) ≤ env.block_timestamp)
unfolding new gd_deploy
gd_deploy-approved start env council delay d rs code done set h =
    elim (Option-cases (Calls.receive_all d rs).approved_at) [
      | inl e ↦ absurd (ground (arith, e))
      | inr (t, e) ↦
          let past = approval_of_receipts (env.sha256 code) t rs d in
          (
            t,
            elim (past.0 (ground (arith, e), e)) [ inl k ↦ absurd (ground (arith, k)) | inr k ↦ k ],
            ground (arith, e, past.1),
          )
    ]
