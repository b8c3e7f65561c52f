-- ===== src/Recovery/Warrants/Reach.antt =====
-- contracts/mpc-recovery/src/lib.rs: every recovery that is under way has its warrant, whatever receipts
-- reach the contract.
use tla_contracts.Prelude.{
  ℕ, ◌≡◌, some, List, [], ◌∷◌, ok, arith, Option-cases, Result-cases, ◌⊎◌, inl, inr, refl,
}
use tla_contracts.Prelude.IdMap
use tla_contracts.Near.{AccountId, Bytes, Env}
use tla_contracts.Recovery.Types.{Keys, PublicKey, Policy, Phase, Account, MpcRecovery, Outcome}
use tla_contracts.Recovery.Governance.{
  new, seal, after_seal, approve_upgrade, upgrade, set_watchers, set_installer,
  approve_owner_rotation, cancel_owner_rotation, commit_owner_rotation, set_registry, migrate,
}
use tla_contracts.Recovery.Policies.{
  arm_policy_install, disarm_policy_install, on_wallet_transferred,
}
use tla_contracts.Recovery.Names.{on_name_recovered, claim_name_finalized}
use tla_contracts.Recovery.Native.{finalize_recovery, sign_add_key}
use tla_contracts.Recovery.Calls
use tla_contracts.Recovery.Calls.{Ensures}
use tla_contracts.Recovery.Warrants
use tla_contracts.Recovery.Warrants.Native.{
  request_recovery-IsGuarded, submit_verdict-IsGuarded, finalize_recovery-IsGuarded,
  abort_recovery-IsGuarded, on_signed-IsGuarded, claim_native_finalized-IsGuarded,
}
use tla_contracts.Recovery.Warrants.Names.{request_name_recovery-IsGuarded, recover_name-IsGuarded}
use tla_contracts.Recovery.Warrants.Settling.{
  settle_name_resolving-IsGuarded, install_policy-IsGuarded, on_wallet_transferred-IsGuarded,
}

module _ (keys : Keys) (Took : MpcRecovery → Env → Calls.Call → Type 0) (a : AccountId) where
  run_call-IsGuarded :
      (env : Env) (call : Calls.Call) (m : MpcRecovery) (done : Outcome)
      → Took m env call
      → Calls.run_call keys env call m ≡ ok done
      → Warrants.IsGuarded keys Took a m
      → Warrants.IsGuarded keys Took a done.state
  unfolding Calls.run_call seal after_seal approve_upgrade upgrade set_watchers set_installer
      approve_owner_rotation cancel_owner_rotation commit_owner_rotation set_registry migrate
      arm_policy_install disarm_policy_install on_name_recovered claim_name_finalized
  run_call-IsGuarded env (Calls.request account k r attestation) m done took h g =
      request_recovery-IsGuarded keys Took a env account m done g k r attestation took h
  run_call-IsGuarded env (Calls.judge account verdict signatures) m done took h g =
      submit_verdict-IsGuarded keys Took a env account m done g verdict signatures took h
  run_call-IsGuarded env (Calls.finalize account nonce hash) m done took h g =
      finalize_recovery-IsGuarded keys Took a env account m done g nonce hash h
  run_call-IsGuarded env (Calls.abort account) m done took h g =
      abort_recovery-IsGuarded keys Took a env account m done g h
  run_call-IsGuarded env (Calls.after_signed account r signed) m done took h g =
      on_signed-IsGuarded keys Took a env account m done g r signed (ground (arith, h))
  run_call-IsGuarded env (Calls.claim_native account r) m done took h g =
      claim_native_finalized-IsGuarded keys Took a env account m done g r h
  run_call-IsGuarded env (Calls.request_name tla name o attestation) m done took h g =
      request_name_recovery-IsGuarded keys Took a env m done g tla name o attestation took h
  run_call-IsGuarded env (Calls.recover tla name o expected deadline signatures) m done took h g =
      recover_name-IsGuarded keys Took a env m done g tla name o expected deadline signatures took h
  run_call-IsGuarded env (Calls.install account mpc attestation timelock) m done took h g =
      install_policy-IsGuarded keys Took a env account m done.state g mpc attestation timelock
        (done, h, refl)
  run_call-IsGuarded env (Calls.after_name account r) m done took h g =
      settle_name_resolving-IsGuarded keys Took a env account m done.state g r env.promise_success
        (ground (arith, h))
  run_call-IsGuarded env (Calls.claim_name account r over) m done took h g =
      settle_name_resolving-IsGuarded keys Took a env account m done.state g r over
        (ground (arith, h))
  run_call-IsGuarded env (Calls.reset account) m done took h g =
      elim (Result-cases (on_wallet_transferred keys env account m)) [
        | inl (value, e) ↦
            on_wallet_transferred-IsGuarded keys Took a env account m done.state g value e
              (ground (arith, e, h))
        | inr (x, e) ↦ absurd (ground (arith, e, h))
      ]
  run_call-IsGuarded env call m done took h g =
      Warrants.keep-IsGuarded keys Took a m done.state (ground (arith, h, g.0)) g

  receive-IsGuarded :
      (env : Env) (call : Calls.Call) (m : MpcRecovery)
      → Took m env call
      → Warrants.IsGuarded keys Took a m
      → Warrants.IsGuarded keys Took a (Calls.receive keys m (env, call))
  unfolding Calls.receive
  receive-IsGuarded env call m took g = elim (Result-cases (Calls.run_call keys env call m)) [
    | inl (done, e) ↦ rw (e, Calls.receive) (run_call-IsGuarded env call m done took e g)
    | inr (x, e) ↦ rw (e, Calls.receive) g
  ]

module _ (keys : Keys) where
  -- The contract took the receipt in, in the state late, when the receipts came in from a state on.
  pub TookIn : List (Env × Calls.Call) → MpcRecovery → MpcRecovery → Env → Calls.Call → Type 0
  TookIn [] m late env call = ⊥
  TookIn (r ∷ rs) m late env call =
      ((late ≡ m) × (r ≡ (env, call))) ⊎ TookIn rs (Calls.receive keys m r) late env call

  module _ (Took : MpcRecovery → Env → Calls.Call → Type 0) (a : AccountId) where
    receive_all-IsGuarded :
        (rs : List (Env × Calls.Call)) (m : MpcRecovery)
        → ((late : MpcRecovery) (env : Env) (call : Calls.Call)
            → TookIn rs m late env call
            → Took late env call)
        → Warrants.IsGuarded keys Took a m
        → Warrants.IsGuarded keys Took a (Calls.receive_all keys m rs)
    unfolding Calls.receive_all TookIn
    receive_all-IsGuarded [] m took g = g
    receive_all-IsGuarded ((env, call) ∷ rs) m took g =
        receive_all-IsGuarded rs (Calls.receive keys m (env, call))
          (λ late e c h. took late e c (inr h))
          (receive-IsGuarded keys Took a env call m (took m env call (inl (refl, refl))) g)

module _ (keys : Keys) (a : AccountId) where
  -- From the set-up on, whatever receipts reach the contract, a recovery that is under way at an account
  -- has its warrant among those receipts: a request that the account's attestation key of the time
  -- signed for this owner and round; and once it is approved, a receipt at least the account's timelock
  -- after the request, with the signatures, on that verdict, of a quorum of the watchers that the contract
  -- had then, and a quorum of at least two. For a name, the receipt that starts the handover is that
  -- receipt, and came by the deadline that the watchers signed.
  pub new-IsGuarded :
      (env : Env) (owner signer transfer_authority : AccountId) (watchers : List PublicKey)
      (threshold : ℕ) (m : MpcRecovery) (rs : List (Env × Calls.Call))
      → new keys env owner signer transfer_authority watchers threshold ≡ ok m
      → Warrants.IsGuarded keys (TookIn keys rs m) a (Calls.receive_all keys m rs)
  unfolding new IdMap.get
  new-IsGuarded env owner signer transfer_authority watchers threshold m rs e =
      receive_all-IsGuarded keys (TookIn keys rs m) a rs m (λ late e c h. h)
        (Warrants.keep-IsGuarded keys (TookIn keys rs m) a (record m { accounts = [] }) m
          (ground (arith, e)) (ground (arith, e), tt))

  -- What a finalized recovery rests on.
  abbrev pub Signs :
      (MpcRecovery → Env → Calls.Call → Type 0) → Env → ℕ → Bytes → MpcRecovery → Outcome → Type 0
  Signs Took env nonce hash m done =
      (entry : Account) × (k : PublicKey) × (r : ℕ) × (IdMap.get m.accounts a ≡ some entry)
      × (done.effects ≡ sign_add_key keys env a entry.policy.mpc_public_key nonce hash k r m ∷ [])
      × Warrants.WasApproved keys Took a entry.policy k r

  finalize-Signs :
      (Took : MpcRecovery → Env → Calls.Call → Type 0) (env : Env) (nonce : ℕ) (hash : Bytes)
      (m : MpcRecovery) (done : Outcome) (policy : Policy) (round : ℕ) (phase : Phase)
      → Warrants.IsGuarded keys Took a m
      → IdMap.get m.accounts a ≡ some (record { policy = policy; round = round; phase = phase })
      → finalize_recovery keys env a nonce hash m ≡ ok done
      → Signs Took env nonce hash m done
  unfolding finalize_recovery
  finalize-Signs Took env nonce hash m done policy round (Phase.approved k r) g e h =
      let entry : Account = record { policy = policy; round = round; phase = Phase.approved k r } in
      (entry, k, r, e, ground (arith, e, h), Warrants.held keys Took a m a entry g e refl)
  finalize-Signs Took env nonce hash m done policy round phase g e h = absurd (ground (arith, e, h))

  -- The contract asks the signer to add a key to a native account only if, among the receipts since its
  -- set-up, there was a request for that key that the account's attestation key of the time had signed,
  -- and, at least the account's timelock after it, a receipt with the signatures, on the approval of the
  -- key for the round, of a quorum of the watchers that the contract had then, and a quorum of at least
  -- two. So it is whatever receipts came.
  pub finalize_recovery-Signs :
      (env start : Env) (owner signer transfer_authority : AccountId) (watchers : List PublicKey)
      (threshold : ℕ) (m : MpcRecovery) (rs : List (Env × Calls.Call)) (nonce : ℕ) (hash : Bytes)
      (done : Outcome)
      → new keys start owner signer transfer_authority watchers threshold ≡ ok m
      → finalize_recovery keys env a nonce hash (Calls.receive_all keys m rs) ≡ ok done
      → Signs (TookIn keys rs m) env nonce hash (Calls.receive_all keys m rs) done
  unfolding finalize_recovery
  finalize_recovery-Signs env start owner signer transfer_authority watchers threshold m rs nonce
        hash done e h =
      let late = Calls.receive_all keys m rs in
      let g = new-IsGuarded start owner signer transfer_authority watchers threshold m rs e in
      elim (Option-cases (IdMap.get late.accounts a)) [
        | inl f ↦ absurd (ground (arith, f, h))
        | inr (entry, f) ↦
            finalize-Signs (TookIn keys rs m) env nonce hash late done entry.policy entry.round
              entry.phase g f h
      ]
