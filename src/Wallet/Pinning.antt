-- ===== src/Wallet/Pinning.antt =====
-- contracts/hos-wallet/src/lib.rs: what precedes a pin of the implementation, and what its failure leaves.
use tla_contracts.Prelude.{
  ℕ, ◌≤◌, ◌≡◌, ◌⊎◌, ◌++◌, inl, inr, refl, sat_add, u64_max, false, Option, none, some, List, [],
  ◌∷◌, ok, err, subst, arith, Option-cases, Result-cases,
}
use tla_contracts.Near.{AccountId, CryptoHash, Env}
use tla_contracts.HosCommon.{RotationCause}
use tla_contracts.Wallet.Types.{
  TenantWallet, Upstream, Outcome, Effect, Promise, FreezeState, impl_pin_delay_ns,
}
use tla_contracts.Wallet.Guards.{effective_frozen}
use tla_contracts.Wallet.Invariant.{Ensures, Ensures-map}
use tla_contracts.Wallet.Calls
use tla_contracts.Wallet.Grants.{hos_grant_spend, hos_revoke_spend}
use tla_contracts.Wallet.Execute.{w_execute_extension}
use tla_contracts.Wallet.Lease.{hos_set_payout_account, hos_set_lease, hos_retract_lease}
use tla_contracts.Wallet.Freeze.{hos_freeze, hos_unfreeze}
use tla_contracts.Wallet.Rotation.{
  open_gate, rotate, apply_rotation, hos_transfer_ownership, hos_re_rent,
}
use tla_contracts.Wallet.Sweep.{hos_sweep_near, hos_sweep_ft, hos_resolve_sweep}
use tla_contracts.Wallet.Impl.{hos_approve_impl, hos_cancel_impl, hos_pin_impl, hos_on_pinned}
use tla_contracts.Wallet.Spending.{w_execute_extension-SameTerms}

-- The binds that are asked for among a call's effects: the code, and the approval's time.
abbrev pub bound : List Effect → List (CryptoHash × ℕ)
bound [] = []
bound (Effect.send (Promise.bind_impl code collection gas t) ∷ rest) = (code, t) ∷ bound rest
bound (_ ∷ rest) = bound rest

-- Only a pin asks for one that `hos_on_pinned` answers.
abbrev sent_by : Calls.Call → List Effect → List (CryptoHash × ℕ)
sent_by Calls.pin_impl effects = bound effects
sent_by call effects = []

abbrev IsIn : CryptoHash → ℕ → List (CryptoHash × ℕ) → Type 0
IsIn h t [] = ⊥
IsIn h t ((code, u) ∷ rest) = ((h ≡ code) × (t ≡ u)) ⊎ IsIn h t rest

-- A callback to a pin has the arguments of a bind that was sent.
abbrev IsAnswer : List (CryptoHash × ℕ) → Calls.Call → Type 0
IsAnswer sent (Calls.on_pinned h t) = IsIn h t sent
IsAnswer sent call = Unit

-- The authority of the time approved the code, in a call at the given time.
abbrev pub ApprovedBy : CryptoHash → ℕ → AccountId → Calls.Receipt → Type 0
ApprovedBy h t authority (env, call) =
    (call ≡ Calls.approve_impl h)
    × (env.block_timestamp ≡ t)
    × (env.predecessor_account_id ≡ authority)

SameApproval : TenantWallet → TenantWallet → Type 0
SameApproval w s = (s.approved_impl ≡ w.approved_impl) × (s.approved_impl_at ≡ w.approved_impl_at)

module _ (env : Env) where
  rotate-SameApproval :
      (to : Option AccountId) (c : RotationCause) (w : TenantWallet)
      → Ensures (SameApproval w) (rotate env to c w)
  unfolding rotate SameApproval
  rotate-SameApproval none c w = ground arith
  rotate-SameApproval (some next) c w = ground arith

  open_gate-SameApproval :
      (to : Option AccountId) (c : RotationCause) (asked_by : Option AccountId)
      (w w' s : TenantWallet)
      → open_gate env to c asked_by w ≡ ok w'
      → SameApproval w' s
      → SameApproval w s
  unfolding open_gate SameApproval
  open_gate-SameApproval to c asked_by w w' s e h = ground arith

  apply_rotation-SameApproval :
      (to : Option AccountId) (c : RotationCause) (asked_by : Option AccountId) (w : TenantWallet)
      → Ensures (SameApproval w) (apply_rotation env to c asked_by w)
  unfolding apply_rotation
  apply_rotation-SameApproval to c asked_by w =
      elim (Result-cases (open_gate env to c asked_by w)) [
        | inl (w', e) ↦ rw e (
            Ensures-map (rotate env to c w') (λ s. open_gate-SameApproval to c asked_by w w' s e)
              (rotate-SameApproval to c w'))
        | inr (x, e) ↦ rw e tt
      ]

-- What a call does to the approval that stands, for one code and time.
abbrev Stands : CryptoHash → ℕ → TenantWallet → Type 0
Stands h t w = (w.approved_impl ≡ some h) × (w.approved_impl_at ≡ t)

abbrev Approves : CryptoHash → ℕ → Env → Calls.Call → TenantWallet → TenantWallet → Type 0
Approves h t env call w s =
    Stands h t s
    → Stands h t w ⊎ ApprovedBy h t w.authority (env, call) ⊎ (call ≡ Calls.on_pinned h t)

module _ (up : Upstream) where
  run_call-Approves :
      (h : CryptoHash) (t : ℕ) (env : Env) (call : Calls.Call) (w : TenantWallet)
      → Ensures (Approves h t env call w) (Calls.run_call up env call w)
  unfolding Calls.run_call hos_grant_spend hos_revoke_spend hos_set_payout_account hos_approve_impl
      hos_cancel_impl hos_pin_impl hos_sweep_near hos_on_pinned hos_set_lease hos_retract_lease
      hos_freeze hos_unfreeze hos_transfer_ownership hos_re_rent hos_sweep_ft hos_resolve_sweep
      SameApproval
  run_call-Approves h t env Calls.execute_signed w = tt
  run_call-Approves h t env (Calls.execute_extension request) w =
      Ensures-map (w_execute_extension env up request w) (λ s same k. inl (ground (arith, same, k)))
        (w_execute_extension-SameTerms env up request w)
  run_call-Approves h t env (Calls.transfer_ownership to c asked) w =
      ground (arith, apply_rotation-SameApproval env to c asked w)
  run_call-Approves h t env (Calls.re_rent to p until) w =
      ground (arith, apply_rotation-SameApproval env (some to) RotationCause.re_rent none w)
  run_call-Approves h t env call w = ground arith

  -- What one receipt has sent to be bound.
  abbrev binds_in : TenantWallet → Calls.Receipt → List (CryptoHash × ℕ)
  binds_in w (env, call) = elim (Calls.run_call up env call w) [
    | ok done ↦ sent_by call done.effects
    | err _ ↦ []
  ]

  -- Every callback to a pin, among the receipts, answers a bind that was sent before: with the given ones,
  -- or by a pin among the receipts.
  unfoldable pub AnswersOnly : TenantWallet → List (CryptoHash × ℕ) → List Calls.Receipt → Type 0
  AnswersOnly w sent [] = Unit
  AnswersOnly w sent ((env, call) ∷ rs) =
      IsAnswer sent call
      × AnswersOnly (Calls.receive up w (env, call)) (binds_in w (env, call) ++ sent) rs

  -- Such a call is among the receipts that a wallet took.
  abbrev pub WasApproved : CryptoHash → ℕ → TenantWallet → List Calls.Receipt → Type 0
  WasApproved h t w [] = ⊥
  WasApproved h t w (r ∷ rs) =
      ApprovedBy h t w.authority r ⊎ WasApproved h t (Calls.receive up w r) rs

  -- The approval that stands and those of the binds that were sent are all of one kind.
  record Sound (P : CryptoHash → ℕ → Type 0) (w : TenantWallet) (sent : List (CryptoHash × ℕ))
      : Type 0 where
    pub standing : (h : CryptoHash) (t : ℕ) → Stands h t w → P h t
    pub binds : (h : CryptoHash) (t : ℕ) → IsIn h t sent → P h t

  IsIn-append :
      (h : CryptoHash) (t : ℕ) (xs ys : List (CryptoHash × ℕ))
      → IsIn h t (xs ++ ys)
      → IsIn h t xs ⊎ IsIn h t ys
  IsIn-append h t [] ys k = inr k
  IsIn-append h t (x ∷ xs) ys (inl k) = inl (inl k)
  IsIn-append h t (x ∷ xs) ys (inr k) = elim (IsIn-append h t xs ys k) [
    | inl l ↦ inl (inr l)
    | inr l ↦ inr l
  ]

  -- A pin sends the approval that stands.
  binds_in-Stands :
      (h : CryptoHash) (t : ℕ) (env : Env) (call : Calls.Call) (w : TenantWallet)
      → IsIn h t (binds_in w (env, call))
      → Stands h t w
  unfolding Calls.run_call hos_pin_impl
  binds_in-Stands h t env Calls.pin_impl w k = ground (arith, k)
  binds_in-Stands h t env call w k = absurd (ground (arith, k))

  module _ (P : CryptoHash → ℕ → Type 0) where
    receive-Sound :
        (env : Env) (call : Calls.Call) (w : TenantWallet) (sent : List (CryptoHash × ℕ))
        → ((h : CryptoHash) (t : ℕ) → ApprovedBy h t w.authority (env, call) → P h t)
        → IsAnswer sent call
        → Sound P w sent
        → Sound P (Calls.receive up w (env, call)) (binds_in w (env, call) ++ sent)
    unfolding Calls.receive
    receive-Sound env call w sent new answer s = record {
      standing = elim (Result-cases (Calls.run_call up env call w)) [
        | inl (done, e) ↦
            rw (e, Calls.receive)
              (λ h t k. elim ((rw e at (run_call-Approves h t env call w)) k) [
                | inl l ↦ s.standing h t l
                | inr (inl l) ↦ new h t l
                | inr (inr l) ↦ s.binds h t (subst (IsAnswer sent) l answer)
              ])
        | inr (x, e) ↦ rw (e, Calls.receive) s.standing
      ];
      binds = λ h t k. elim (IsIn-append h t (binds_in w (env, call)) sent k) [
        | inl l ↦ s.standing h t (binds_in-Stands h t env call w l)
        | inr l ↦ s.binds h t l
      ];
    }

    receive_all-Sound :
        (rs : List Calls.Receipt) (w : TenantWallet) (sent : List (CryptoHash × ℕ))
        → ((h : CryptoHash) (t : ℕ) → WasApproved h t w rs → P h t)
        → AnswersOnly w sent rs
        → Sound P w sent
        → (h : CryptoHash) (t : ℕ) → Stands h t (Calls.receive_all up w rs)
        → P h t
    unfolding Calls.receive_all AnswersOnly
    receive_all-Sound [] w sent new answers s = s.standing
    receive_all-Sound ((env, call) ∷ rs) w sent new answers s =
        receive_all-Sound rs (Calls.receive up w (env, call)) (binds_in w (env, call) ++ sent)
          (λ h t k. new h t (inr k)) answers.1
          (receive-Sound env call w sent (λ h t k. new h t (inl k)) answers.0 s)

  -- A pin that is accepted, after any receipts since a time when nothing was approved, if the callbacks
  -- among them answer pins among them, comes from the authority, on an account that is not frozen,
  -- and asks only for the bind of code that the authority of the time approved in one of the receipts,
  -- no later than 48 hours before. It uses the approval up, and if its bind fails, the callback with the
  -- arguments that the pin sent puts back what the pin took, whatever else has changed in between.
  pub pin_impl-approved :
      (env failed : Env) (w between : TenantWallet) (rs : List Calls.Receipt) (done : Outcome)
      → w.approved_impl ≡ none
      → AnswersOnly w [] rs
      → hos_pin_impl env (Calls.receive_all up w rs) ≡ ok done
      → failed.promise_success ≡ false
      → let late = Calls.receive_all up w rs in
        (env.predecessor_account_id ≡ late.authority)
        × (effective_frozen env late ≡ FreezeState.unfrozen)
        × (done.state ≡ record late { approved_impl = none; approved_impl_at = 0 })
        × (code : CryptoHash) × (t : ℕ) × WasApproved code t w rs
        × (sat_add u64_max t impl_pin_delay_ns ≤ env.block_timestamp)
        × (bound done.effects ≡ (code, t) ∷ [])
        × ((hos_on_pinned failed code t between).state ≡ record between {
          approved_impl = late.approved_impl;
          approved_impl_at = late.approved_impl_at;
        })
  unfolding hos_pin_impl hos_on_pinned
  pin_impl-approved env failed w between rs done quiet answers h failure =
      let late = Calls.receive_all up w rs in
      elim (Option-cases late.approved_impl) [
        | inl e ↦ absurd (ground (arith, e))
        | inr (code, e) ↦ (
          ground (arith, e),
          ground (arith, e),
          ground (arith, e),
          code,
          late.approved_impl_at,
          receive_all-Sound (λ k t. WasApproved k t w rs) rs w [] (λ k t l. l) answers
              (record { standing = λ k t l. absurd (ground (arith, l)); binds = λ k t l. absurd l })
              code late.approved_impl_at (e, refl),
          ground (arith, e),
          ground (arith, e),
          ground (arith, e),
        )
      ]
