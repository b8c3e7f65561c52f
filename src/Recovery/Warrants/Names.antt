-- ===== src/Recovery/Warrants/Names.antt =====
-- contracts/mpc-recovery/src/lib.rs: the recovery of a name goes ahead only on its warrant, and setting a
-- policy up or resetting it starts none.
use tla_contracts.Prelude.{
  ℕ, ◌+◌, ◌≡◌, some, List, ◌∷◌, ◌++◌, ok, arith, Option-cases, inl, inr, refl, subst,
}
use tla_contracts.Prelude.IdMap
use tla_contracts.Near.{AccountId, Bytes, Env}
use tla_contracts.Recovery.Types.{
  Keys, Policy, Phase, Account, MpcRecovery, WatcherSignature, Outcome,
}
use tla_contracts.Recovery.Names.{request_name_recovery, recover_name}
use tla_contracts.Recovery.Calls
use tla_contracts.Recovery.Warrants

module _ (keys : Keys) (Took : MpcRecovery → Env → Calls.Call → Type 0) (a : AccountId) (env : Env)
    (m : MpcRecovery) (done : Outcome) (g : Warrants.IsGuarded keys Took a m) where
  abbrev entry_of : Policy → ℕ → Phase → Account
  entry_of policy round phase = record { policy = policy; round = round; phase = phase }

  abbrev Holds : AccountId → Policy → ℕ → Phase → Type 0
  Holds account policy round phase =
      IdMap.get m.accounts account ≡ some (entry_of policy round phase)

  write :
      (account : AccountId) (policy : Policy) (round : ℕ) (phase : Phase)
      → (done.state.accounts ≡ IdMap.insert m.accounts account (entry_of policy round phase))
        × (done.state.threshold ≡ m.threshold)
      → (a ≡ account → Warrants.IsWarranted keys Took account policy phase)
      → Warrants.IsGuarded keys Took a done.state
  write account policy round phase t new =
      Warrants.write-IsGuarded keys Took a m done.state account (entry_of policy round phase) t new
        g

  pub request_name_recovery-IsGuarded :
      (tla : AccountId) (name : Bytes) (o : AccountId) (attestation : Bytes)
      → Took m env (Calls.request_name tla name o attestation)
      → request_name_recovery keys env tla name o attestation m ≡ ok done
      → Warrants.IsGuarded keys Took a done.state
  unfolding request_name_recovery
  request_name_recovery-IsGuarded tla name o attestation took h =
      elim (Option-cases (keys.parse (name ++ (b'.' ∷ env.as_str tla)))) [
        | inl p ↦ absurd (ground (arith, p, h))
        | inr (account, p) ↦ elim (Option-cases (IdMap.get m.accounts account)) [
          | inl e ↦ absurd (ground (arith, p, e, h))
          | inr (entry, e) ↦
              write account entry.policy (entry.round + 1)
                (Phase.name_requested o entry.round env.block_timestamp) (ground (arith, p, e, h))
                (λ w.
                  Warrants.name_asked m env tla name attestation took (entry, e, refl) p refl
                    (ground (arith, p, e, h)))
        ]
      ]

  recover-IsGuarded :
      (tla : AccountId) (name : Bytes) (o expected : AccountId) (deadline : ℕ)
      (signatures : List WatcherSignature) (account : AccountId) (policy : Policy) (round : ℕ)
      (phase : Phase)
      → Took m env (Calls.recover tla name o expected deadline signatures)
      → keys.parse (name ++ (b'.' ∷ env.as_str tla)) ≡ some account
      → Holds account policy round phase
      → recover_name keys env tla name o expected deadline signatures m ≡ ok done
      → Warrants.IsGuarded keys Took a done.state
  unfolding recover_name
  recover-IsGuarded tla name o expected deadline signatures account policy round
        (Phase.name_requested u r t) took p e h =
      let same : u ≡ o = ground (arith, p, e, h) in
      write account policy round (Phase.name_resolving o r t) (ground (arith, p, e, h)) (λ w. (
        subst (λ x. Warrants.WasNameRequested keys Took account policy x r t) same
            (Warrants.held keys Took a m account
              (entry_of policy round (Phase.name_requested u r t)) g e w),
        Warrants.name_approved_by m env tla name expected deadline signatures took
            (entry_of policy round (Phase.name_requested u r t), e, refl) p
            (ground (arith, p, e, h)) (ground (arith, p, e, h)) g.0 (ground (arith, p, e, h)),
      ))
  recover-IsGuarded tla name o expected deadline signatures account policy round phase took p e h =
      absurd (ground (arith, p, e, h))

  pub recover_name-IsGuarded :
      (tla : AccountId) (name : Bytes) (o expected : AccountId) (deadline : ℕ)
      (signatures : List WatcherSignature)
      → Took m env (Calls.recover tla name o expected deadline signatures)
      → recover_name keys env tla name o expected deadline signatures m ≡ ok done
      → Warrants.IsGuarded keys Took a done.state
  unfolding recover_name
  recover_name-IsGuarded tla name o expected deadline signatures took h =
      elim (Option-cases (keys.parse (name ++ (b'.' ∷ env.as_str tla)))) [
        | inl p ↦ absurd (ground (arith, p, h))
        | inr (account, p) ↦ elim (Option-cases (IdMap.get m.accounts account)) [
          | inl e ↦ absurd (ground (arith, p, e, h))
          | inr (entry, e) ↦
              recover-IsGuarded tla name o expected deadline signatures account entry.policy
                entry.round entry.phase took p e h
        ]
      ]
