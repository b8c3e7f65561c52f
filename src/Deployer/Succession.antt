-- ===== src/Deployer/Succession.antt =====
-- contracts/wallet-impl-deployer/src/lib.rs: how the council changes, and what a deploy costs its payer.
use tla_contracts.Prelude.{
  ℕ, ◌+◌, ◌≡◌, ◌≢◌, ◌≤◌, ◌⊎◌, subst, inl, inr, Option, some, List, [], ◌∷◌, ◌==◌, if◌then◌else◌, ok,
  sat_add, u64_max, arith, Option-cases, Result-cases,
}
use tla_contracts.Near.{AccountId, Env}
use tla_contracts.Deployer.Types.{
  ImplDeployer, Promise, Effect, Outcome, default_approval_delay_ns, new,
}
use tla_contracts.Deployer.Publish.{gd_approve, gd_deploy, gd_on_deployed}
use tla_contracts.Deployer.Upgrade.{
  approve_self_upgrade, upgrade_self, gd_delete_key, gd_on_key_deleted, migrate,
}
use tla_contracts.Deployer.Council.{
  approve_council_rotation, cancel_council_rotation, commit_council_rotation,
}
use tla_contracts.Deployer.Calls
use tla_contracts.Deployer.Calls.{Ensures}

-- The council of the time named its successor, in a call at the given time.
abbrev pub NamedBy : AccountId → ℕ → AccountId → Calls.Receipt → Type 0
NamedBy p t council (env, call) =
    (call ≡ Calls.approve_rotation p)
    × (env.block_timestamp ≡ t)
    × (env.predecessor_account_id ≡ council)
    × (p ≢ council)

abbrev pub WasNamed : AccountId → ℕ → ImplDeployer → List Calls.Receipt → Type 0
WasNamed p t d [] = ⊥
WasNamed p t d (r ∷ rs) = NamedBy p t d.council r ⊎ WasNamed p t (Calls.receive d r) rs

abbrev IsPending : AccountId → ℕ → ImplDeployer → Type 0
IsPending p t d = (d.pending_council ≡ some p) × (d.pending_council_at ≡ some t)

-- What a call does to the council and to the nomination.
record Succession (p : AccountId) (t : ℕ) (env : Env) (call : Calls.Call) (d s : ImplDeployer)
    : Type 0 where
  pub named : IsPending p t s → IsPending p t d ⊎ NamedBy p t d.council (env, call)
  pub council :
      (s.council ≡ d.council)
      ⊎ ((call ≡ Calls.commit_rotation)
          × (d.pending_council ≡ some s.council)
          × (env.predecessor_account_id ≡ s.council))

call-Succession :
    (p : AccountId) (t : ℕ) (env : Env) (call : Calls.Call) (d : ImplDeployer)
    → Ensures (Succession p t env call d) (Calls.run_call env call d)
unfolding Calls.run_call gd_approve gd_deploy gd_on_deployed approve_self_upgrade upgrade_self
    approve_council_rotation cancel_council_rotation commit_council_rotation gd_delete_key
    gd_on_key_deleted migrate
call-Succession p t env (Calls.approve k) d = ground arith
call-Succession p t env (Calls.deploy code) d = ground arith
call-Succession p t env (Calls.on_deployed k size payer attached before) d = ground arith
call-Succession p t env (Calls.approve_upgrade k) d = ground arith
call-Succession p t env (Calls.upgrade code) d = ground arith
call-Succession p t env (Calls.approve_rotation c) d = ground arith
call-Succession p t env Calls.cancel_rotation d = ground arith
call-Succession p t env Calls.commit_rotation d = ground arith
call-Succession p t env (Calls.delete_key k) d = ground arith
call-Succession p t env (Calls.on_key_deleted k by) d = ground arith
call-Succession p t env Calls.migrate_state d = ground arith

receipt-named :
    (p : AccountId) (t : ℕ) (r : Calls.Receipt) (d : ImplDeployer)
    → IsPending p t (Calls.receive d r)
    → IsPending p t d ⊎ NamedBy p t d.council r
unfolding Calls.receive
receipt-named p t (env, call) d = elim (Result-cases (Calls.run_call env call d)) [
  | inl (done, e) ↦ rw (e, Calls.receive) ((rw e at (call-Succession p t env call d)).named)
  | inr (x, e) ↦ rw (e, Calls.receive) (λ k. inl k)
]

receipts-named :
    (p : AccountId) (t : ℕ) (rs : List Calls.Receipt) (d : ImplDeployer)
    → IsPending p t (Calls.receive_all d rs)
    → IsPending p t d ⊎ WasNamed p t d rs
unfolding Calls.receive_all
receipts-named p t [] d k = inl k
receipts-named p t (r ∷ rs) d k = elim (receipts-named p t rs (Calls.receive d r) k) [
  | inl a ↦ elim (receipt-named p t r d a) [ inl b ↦ inl b | inr b ↦ inr (inl b) ]
  | inr b ↦ inr (inr b)
]

-- A council that commits, after any receipts since the deployer was set up, was named in one of them
-- by the council of that time, at least 48 hours before, and commits by its own call.
pub commit_council_rotation-named :
    (start env : Env) (council : AccountId) (delay : Option ℕ) (d : ImplDeployer)
    (rs : List Calls.Receipt) (done : Outcome)
    → new start council delay ≡ ok d
    → commit_council_rotation env (Calls.receive_all d rs) ≡ ok done
    → (t : ℕ) × WasNamed done.state.council t d rs
      × (env.predecessor_account_id ≡ done.state.council)
      × (sat_add u64_max t default_approval_delay_ns ≤ env.block_timestamp)
unfolding new commit_council_rotation
commit_council_rotation-named start env council delay d rs done set h =
    elim (Option-cases (Calls.receive_all d rs).pending_council_at) [
      | inl e ↦ absurd (ground (arith, e))
      | inr (t, e) ↦ (
        t,
        elim (receipts-named done.state.council t rs d (ground (arith, e), e)) [
          | inl k ↦ absurd (ground (arith, k))
          | inr k ↦ k
        ],
        ground (arith, e),
        ground (arith, e),
      )
    ]

-- A call that leaves another council is the commit of the one that was pending, made by that account.
pub council_changes_by_commit :
    (env : Env) (call : Calls.Call) (d : ImplDeployer) (done : Outcome)
    → Calls.run_call env call d ≡ ok done
    → (done.state.council ≡ d.council)
      ⊎ ((call ≡ Calls.commit_rotation)
          × (d.pending_council ≡ some done.state.council)
          × (env.predecessor_account_id ≡ done.state.council))
council_changes_by_commit env call d done e =
    (subst (Ensures (Succession 0 0 env call d)) e (call-Succession 0 0 env call d)).council

-- What a call sends to an account in plain transfers.
abbrev pub paid_to : AccountId → List Effect → ℕ
paid_to payer [] = 0
paid_to payer (Effect.send (Promise.transfer to amount) ∷ rest) =
    if to == payer then amount + paid_to payer rest else paid_to payer rest
paid_to payer (_ ∷ rest) = paid_to payer rest
