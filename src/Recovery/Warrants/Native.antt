-- ===== src/Recovery/Warrants/Native.antt =====
-- contracts/mpc-recovery/src/lib.rs: a native recovery goes ahead only on its warrant.
use tla_contracts.Prelude.{
  ℕ, ◌+◌, ◌≡◌, Bool, some, List, ok, arith, Option-cases, Bool-cases, inl, inr, refl, subst, ◌==◌,
  if◌then◌else◌, sat_add, u64_max,
}
use tla_contracts.Prelude.IdMap
use tla_contracts.Near.{AccountId, Bytes, Env}
use tla_contracts.Recovery.Types.{
  Keys, PublicKey, Policy, Phase, Account, MpcRecovery, Verdict, WatcherSignature, Outcome,
  abort_cooldown_ns, holder_abort_cooldown_ns,
}
use tla_contracts.Recovery.Native.{
  request_recovery, submit_verdict, finalize_recovery, abort_recovery, on_signed,
  claim_native_finalized, settle_resolving,
}
use tla_contracts.Recovery.Calls
use tla_contracts.Recovery.Warrants

module _ (keys : Keys) (Took : MpcRecovery → Env → Calls.Call → Type 0) (a : AccountId) (env : Env)
    (account : AccountId) (m : MpcRecovery) (done : Outcome)
    (g : Warrants.IsGuarded keys Took a m) where
  -- An entry of the account as its parts.
  abbrev pub entry_of : Policy → ℕ → Phase → Account
  entry_of policy round phase = record { policy = policy; round = round; phase = phase }

  abbrev Holds : Policy → ℕ → Phase → Type 0
  Holds policy round phase = IdMap.get m.accounts account ≡ some (entry_of policy round phase)

  write :
      (policy : Policy) (round : ℕ) (phase : Phase)
      → (done.state.accounts ≡ IdMap.insert m.accounts account (entry_of policy round phase))
        × (done.state.threshold ≡ m.threshold)
      → (a ≡ account → Warrants.IsWarranted keys Took account policy phase)
      → Warrants.IsGuarded keys Took a done.state
  write policy round phase t new =
      Warrants.write-IsGuarded keys Took a m done.state account (entry_of policy round phase) t new
        g

  pub request_recovery-IsGuarded :
      (k : PublicKey) (r : ℕ) (attestation : Bytes)
      → Took m env (Calls.request account k r attestation)
      → request_recovery keys env account k r attestation m ≡ ok done
      → Warrants.IsGuarded keys Took a done.state
  unfolding request_recovery
  request_recovery-IsGuarded k r attestation took h =
      elim (Option-cases (IdMap.get m.accounts account)) [
        | inl e ↦ absurd (ground (arith, e, h))
        | inr (entry, e) ↦
            write entry.policy (entry.round + 1) (Phase.requested k entry.round env.block_timestamp)
              (ground (arith, e, h))
              (λ w.
                Warrants.asked m env attestation
                  (subst (λ x. Took m env (Calls.request account k x attestation))
                    (ground (arith, e, h)) took)
                  (entry, e, refl) refl (ground (arith, e, h)))
      ]

  judge-IsGuarded :
      (verdict : Verdict) (signatures : List WatcherSignature) (policy : Policy) (round : ℕ)
      (phase : Phase)
      → Took m env (Calls.judge account verdict signatures)
      → Holds policy round phase
      → submit_verdict keys env account verdict signatures m ≡ ok done
      → Warrants.IsGuarded keys Took a done.state
  unfolding submit_verdict
  judge-IsGuarded Verdict.approve signatures policy round (Phase.requested k r t) took e h =
      write policy round (Phase.approved k r) (ground (arith, e, h)) (λ w.
        Warrants.approved_by t m env signatures
          (Warrants.held keys Took a m account (entry_of policy round (Phase.requested k r t)) g e
            w)
          took (entry_of policy round (Phase.requested k r t), e, refl) (ground (arith, e, h)) g.0
          (ground (arith, e, h)))
  judge-IsGuarded Verdict.cancel signatures policy round (Phase.requested k r t) took e h =
      write policy round Phase.idle (ground (arith, e, h)) (λ w. tt)
  judge-IsGuarded verdict signatures policy round phase took e h = absurd (ground (arith, e, h))

  pub submit_verdict-IsGuarded :
      (verdict : Verdict) (signatures : List WatcherSignature)
      → Took m env (Calls.judge account verdict signatures)
      → submit_verdict keys env account verdict signatures m ≡ ok done
      → Warrants.IsGuarded keys Took a done.state
  unfolding submit_verdict
  submit_verdict-IsGuarded verdict signatures took h =
      elim (Option-cases (IdMap.get m.accounts account)) [
        | inl e ↦ absurd (ground (arith, e, h))
        | inr (entry, e) ↦
            judge-IsGuarded verdict signatures entry.policy entry.round entry.phase took e h
      ]

  finalize-IsGuarded :
      (nonce : ℕ) (hash : Bytes) (policy : Policy) (round : ℕ) (phase : Phase)
      → Holds policy round phase
      → finalize_recovery keys env account nonce hash m ≡ ok done
      → Warrants.IsGuarded keys Took a done.state
  unfolding finalize_recovery
  finalize-IsGuarded nonce hash policy round (Phase.approved k r) e h =
      write policy round (Phase.resolving k r) (ground (arith, e, h))
        (Warrants.held keys Took a m account (entry_of policy round (Phase.approved k r)) g e)
  finalize-IsGuarded nonce hash policy round phase e h = absurd (ground (arith, e, h))

  pub finalize_recovery-IsGuarded :
      (nonce : ℕ) (hash : Bytes)
      → finalize_recovery keys env account nonce hash m ≡ ok done
      → Warrants.IsGuarded keys Took a done.state
  unfolding finalize_recovery
  finalize_recovery-IsGuarded nonce hash h = elim (Option-cases (IdMap.get m.accounts account)) [
    | inl e ↦ absurd (ground (arith, e, h))
    | inr (entry, e) ↦ finalize-IsGuarded nonce hash entry.policy entry.round entry.phase e h
  ]

  pub abort_recovery-IsGuarded :
      abort_recovery keys env account m ≡ ok done → Warrants.IsGuarded keys Took a done.state
  unfolding abort_recovery
  abort_recovery-IsGuarded h = elim (Option-cases (IdMap.get m.accounts account)) [
    | inl e ↦ absurd (ground (arith, e, h))
    | inr (entry, e) ↦
        write entry.policy entry.round
          (Phase.cooldown (
            sat_add u64_max env.block_timestamp (
              if env.predecessor_account_id == account
              then holder_abort_cooldown_ns
              else abort_cooldown_ns)))
          (ground (arith, e, h)) (λ w. tt)
  ]

  settle-IsGuarded :
      (r : ℕ) (signed : Bool) (policy : Policy) (round : ℕ) (phase : Phase)
      → Holds policy round phase
      → (on_signed keys env account r signed m).1 ≡ done
      → Warrants.IsGuarded keys Took a done.state
  unfolding on_signed settle_resolving
  settle-IsGuarded r signed policy round (Phase.resolving k s) e h = elim (Bool-cases (s == r)) [
    | inl same ↦ write policy round (Phase.approved k r) (ground (arith, e, h, same)) (λ w.
        subst (Warrants.WasApproved keys Took account policy k) (ground (arith, same))
          (Warrants.held keys Took a m account (entry_of policy round (Phase.resolving k s)) g e w))
    | inr other ↦
        Warrants.keep-IsGuarded keys Took a m done.state (ground (arith, e, h, other, g.0)) g
  ]
  settle-IsGuarded r signed policy round phase e h =
      Warrants.keep-IsGuarded keys Took a m done.state (ground (arith, e, h, g.0)) g

  pub on_signed-IsGuarded :
      (r : ℕ) (signed : Bool)
      → (on_signed keys env account r signed m).1 ≡ done
      → Warrants.IsGuarded keys Took a done.state
  unfolding on_signed settle_resolving
  on_signed-IsGuarded r signed h = elim (Option-cases (IdMap.get m.accounts account)) [
    | inl e ↦ Warrants.keep-IsGuarded keys Took a m done.state (ground (arith, e, h, g.0)) g
    | inr (entry, e) ↦ settle-IsGuarded r signed entry.policy entry.round entry.phase e h
  ]

  pub claim_native_finalized-IsGuarded :
      (r : ℕ)
      → claim_native_finalized keys env account r m ≡ ok done
      → Warrants.IsGuarded keys Took a done.state
  unfolding claim_native_finalized
  claim_native_finalized-IsGuarded r h = elim (Option-cases (IdMap.get m.accounts account)) [
    | inl e ↦ absurd (ground (arith, e, h))
    | inr (entry, e) ↦ write entry.policy entry.round Phase.idle (ground (arith, e, h)) (λ w. tt)
  ]
