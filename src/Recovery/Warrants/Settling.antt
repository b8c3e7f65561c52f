-- ===== src/Recovery/Warrants/Settling.antt =====
-- contracts/mpc-recovery/src/lib.rs: settling the recovery of a name, and setting a policy up or
-- resetting it, start no recovery.
use tla_contracts.Prelude.{
  ℕ, ◌≡◌, Bool, some, Result, ok, arith, Option-cases, Bool-cases, inl, inr, subst, ◌==◌,
}
use tla_contracts.Prelude.IdMap
use tla_contracts.Near.{AccountId, Env}
use tla_contracts.Recovery.Types.{
  Keys, PublicKey, Policy, Phase, Account, MpcRecovery, Error, Outcome,
}
use tla_contracts.Recovery.Policies.{install_policy, on_wallet_transferred, round_floor_of}
use tla_contracts.Recovery.Names.{settle_name_resolving}
use tla_contracts.Recovery.Calls
use tla_contracts.Recovery.Warrants

module _ (keys : Keys) (Took : MpcRecovery → Env → Calls.Call → Type 0) (a : AccountId) (env : Env)
    (account : AccountId) (m s : MpcRecovery) (g : Warrants.IsGuarded keys Took a m) where
  abbrev entry_of : Policy → ℕ → Phase → Account
  entry_of policy round phase = record { policy = policy; round = round; phase = phase }

  abbrev Holds : Policy → ℕ → Phase → Type 0
  Holds policy round phase = IdMap.get m.accounts account ≡ some (entry_of policy round phase)

  write :
      (policy : Policy) (round : ℕ) (phase : Phase)
      → (s.accounts ≡ IdMap.insert m.accounts account (entry_of policy round phase))
        × (s.threshold ≡ m.threshold)
      → (a ≡ account → Warrants.IsWarranted keys Took account policy phase)
      → Warrants.IsGuarded keys Took a s
  write policy round phase t new =
      Warrants.write-IsGuarded keys Took a m s account (entry_of policy round phase) t new g

  settle-IsGuarded :
      (r : ℕ) (done : Bool) (policy : Policy) (round : ℕ) (phase : Phase)
      → Holds policy round phase
      → (settle_name_resolving account r done m).1 ≡ s
      → Warrants.IsGuarded keys Took a s
  unfolding settle_name_resolving
  settle-IsGuarded r done policy round (Phase.name_resolving o q t) e h =
      elim (Bool-cases (q == r)) [
        | inl same ↦ elim (Bool-cases done) [
          | inl over ↦ write policy round Phase.idle (ground (arith, e, h, same, over)) (λ w. tt)
          | inr back ↦
              write policy round (Phase.name_requested o r t) (ground (arith, e, h, same, back))
                (λ w.
                  subst (λ x. Warrants.WasNameRequested keys Took account policy o x t)
                    (ground (arith, same))
                    (Warrants.held keys Took a m account
                      (entry_of policy round (Phase.name_resolving o q t)) g e w).0)
        ]
        | inr other ↦ Warrants.keep-IsGuarded keys Took a m s (ground (arith, e, h, other, g.0)) g
      ]
  settle-IsGuarded r done policy round phase e h =
      Warrants.keep-IsGuarded keys Took a m s (ground (arith, e, h, g.0)) g

  pub settle_name_resolving-IsGuarded :
      (r : ℕ) (done : Bool)
      → (settle_name_resolving account r done m).1 ≡ s
      → Warrants.IsGuarded keys Took a s
  unfolding settle_name_resolving
  settle_name_resolving-IsGuarded r done h = elim (Option-cases (IdMap.get m.accounts account)) [
    | inl e ↦ Warrants.keep-IsGuarded keys Took a m s (ground (arith, e, h, g.0)) g
    | inr (entry, e) ↦ settle-IsGuarded r done entry.policy entry.round entry.phase e h
  ]

  -- The policy that an installation writes.
  abbrev policy_of : PublicKey → PublicKey → ℕ → Policy
  policy_of mpc attestation timelock = record {
    mpc_public_key = mpc;
    attestation_key = attestation;
    timelock_secs = timelock;
  }

  -- The state that a call leaves.
  abbrev Leaves : Result Error Outcome → Type 0
  Leaves r = (done : Outcome) × (r ≡ ok done) × (done.state ≡ s)

  reinstall-IsGuarded :
      (mpc attestation : PublicKey) (timelock : ℕ) (policy : Policy) (round : ℕ) (phase : Phase)
      → Holds policy round phase
      → Leaves (install_policy keys env account mpc attestation timelock m)
      → Warrants.IsGuarded keys Took a s
  unfolding install_policy
  reinstall-IsGuarded mpc attestation timelock policy round Phase.idle e h =
      write (policy_of mpc attestation timelock) round Phase.idle (ground (arith, e, h)) (λ w. tt)
  reinstall-IsGuarded mpc attestation timelock policy round (Phase.cooldown until) e h =
      write (policy_of mpc attestation timelock) round (Phase.cooldown until) (ground (arith, e, h))
        (λ w. tt)
  reinstall-IsGuarded mpc attestation timelock policy round phase e h =
      absurd (ground (arith, e, h))

  pub install_policy-IsGuarded :
      (mpc attestation : PublicKey) (timelock : ℕ)
      → Leaves (install_policy keys env account mpc attestation timelock m)
      → Warrants.IsGuarded keys Took a s
  unfolding install_policy
  install_policy-IsGuarded mpc attestation timelock h =
      elim (Option-cases (IdMap.get m.accounts account)) [
        | inl e ↦
            write (policy_of mpc attestation timelock) (round_floor_of m account) Phase.idle
              (ground (arith, e, h)) (λ w. tt)
        | inr (entry, e) ↦
            reinstall-IsGuarded mpc attestation timelock entry.policy entry.round entry.phase e h
      ]

  reset-IsGuarded :
      (policy : Policy) (round : ℕ) (phase : Phase) (value : Bool × Outcome)
      → Holds policy round phase
      → on_wallet_transferred keys env account m ≡ ok value
      → value.1.state ≡ s
      → Warrants.IsGuarded keys Took a s
  unfolding on_wallet_transferred
  reset-IsGuarded policy round (Phase.resolving k r) value e h f =
      Warrants.keep-IsGuarded keys Took a m s (ground (arith, e, h, f, g.0)) g
  reset-IsGuarded policy round phase value e h f =
      Warrants.drop-IsGuarded keys Took a m s account (ground (arith, e, h, f)) g

  pub on_wallet_transferred-IsGuarded :
      (value : Bool × Outcome)
      → on_wallet_transferred keys env account m ≡ ok value
      → value.1.state ≡ s
      → Warrants.IsGuarded keys Took a s
  unfolding on_wallet_transferred
  on_wallet_transferred-IsGuarded value h f = elim (Option-cases (IdMap.get m.accounts account)) [
    | inl e ↦ Warrants.keep-IsGuarded keys Took a m s (ground (arith, e, h, f, g.0)) g
    | inr (entry, e) ↦ reset-IsGuarded entry.policy entry.round entry.phase value e h f
  ]
