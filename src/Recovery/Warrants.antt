-- ===== src/Recovery/Warrants.antt =====
-- contracts/mpc-recovery/src/lib.rs: what was signed, and when, before a recovery goes ahead.
pub mod Native
pub mod Names
pub mod Settling
pub mod Reach
use tla_contracts.Prelude.{
  ℕ, ◌+◌, ◌*◌, ◌≡◌, ◌≢◌, ◌≤◌, Bool, true, false, Option, none, some, List, [], ◌∷◌, ◌++◌, Result,
  ok, err, arith, Option-cases, Bool-cases, Result-cases, inl, inr, refl, subst, sym, ◌==◌,
  if◌then◌else◌,
}
use tla_contracts.Prelude.IdMap
use tla_contracts.Near.{AccountId, Bytes, Env, second_ns}
use tla_contracts.Recovery.Types.{
  Keys, PublicKey, Policy, Phase, Account, MpcRecovery, Verdict, WatcherSignature, Error, Outcome,
  min_watcher_threshold,
}
use tla_contracts.Recovery.Calls
use tla_contracts.Recovery.Native.{read_signatures}
use tla_contracts.Recovery.Proofs.{
  request_message, verdict_message, name_request_message, name_recovery_message, verify,
  verify_quorum,
}

-- Took says of a receipt that the contract took it in, and in which state.
module _ (keys : Keys) (Took : MpcRecovery → Env → Calls.Call → Type 0) where
  -- The account has the policy, in a state.
  abbrev pub HasPolicy : AccountId → Policy → MpcRecovery → Type 0
  HasPolicy account policy m =
      (entry : Account) × (IdMap.get m.accounts account ≡ some entry) × (entry.policy ≡ policy)

  -- A receipt at the time was the request, signed by the attestation key that the account had then.
  pub data WasRequested (account : AccountId) (policy : Policy) (k : PublicKey) (r t : ℕ)
      : Type 0 where
    asked :
        (m : MpcRecovery) (env : Env) (signature : Bytes)
        → Took m env (Calls.request account k r signature)
        → HasPolicy account policy m
        → env.block_timestamp ≡ t
        → verify keys
            (request_message keys env.as_str env.current_account_id account k r)
            signature
            policy.attestation_key
          ≡ true
        → WasRequested account policy k r t

  -- A receipt after the timelock since the request was the verdict, signed by a quorum of at least two
  -- of the watchers that the contract had then.
  pub data WasApproved (account : AccountId) (policy : Policy) (k : PublicKey) (r : ℕ)
      : Type 0 where
    approved_by :
        (t : ℕ) (m : MpcRecovery) (env : Env) (signatures : List WatcherSignature)
        → WasRequested account policy k r t
        → Took m env (Calls.judge account Verdict.approve signatures)
        → HasPolicy account policy m
        → t + policy.timelock_secs * second_ns ≤ env.block_timestamp
        → min_watcher_threshold ≤ m.threshold
        → verify_quorum keys
            (verdict_message keys env.as_str env.current_account_id account k r true)
            (read_signatures signatures)
            m.watchers
            m.threshold
          ≡ true
        → WasApproved account policy k r

  pub data WasNameRequested (account : AccountId) (policy : Policy) (o : AccountId) (r t : ℕ)
      : Type 0 where
    name_asked :
        (m : MpcRecovery) (env : Env) (tla : AccountId) (name signature : Bytes)
        → Took m env (Calls.request_name tla name o signature)
        → HasPolicy account policy m
        → keys.parse (name ++ (b'.' ∷ env.as_str tla)) ≡ some account
        → env.block_timestamp ≡ t
        → verify keys
            (name_request_message keys env.as_str env.current_account_id tla name o r)
            signature
            policy.attestation_key
          ≡ true
        → WasNameRequested account policy o r t

  pub data WasNameApproved (account : AccountId) (policy : Policy) (o : AccountId) (r t : ℕ)
      : Type 0 where
    name_approved_by :
        (m : MpcRecovery) (env : Env) (tla : AccountId) (name : Bytes) (expected : AccountId)
        (deadline : ℕ) (signatures : List WatcherSignature)
        → Took m env (Calls.recover tla name o expected deadline signatures)
        → HasPolicy account policy m
        → keys.parse (name ++ (b'.' ∷ env.as_str tla)) ≡ some account
        → t + policy.timelock_secs * second_ns ≤ env.block_timestamp
        → env.block_timestamp ≤ deadline
        → min_watcher_threshold ≤ m.threshold
        → verify_quorum keys
            (name_recovery_message keys env.as_str env.current_account_id tla name o expected
              deadline r)
            (read_signatures signatures)
            m.watchers
            m.threshold
          ≡ true
        → WasNameApproved account policy o r t

  -- What has been signed for the phase that an account's recovery is in.
  abbrev pub IsWarranted : AccountId → Policy → Phase → Type 0
  IsWarranted account policy (Phase.requested k r t) = WasRequested account policy k r t
  IsWarranted account policy (Phase.approved k r) = WasApproved account policy k r
  IsWarranted account policy (Phase.resolving k r) = WasApproved account policy k r
  IsWarranted account policy (Phase.name_requested o r t) = WasNameRequested account policy o r t
  IsWarranted account policy (Phase.name_resolving o r t) =
      WasNameRequested account policy o r t × WasNameApproved account policy o r t
  IsWarranted account policy phase = Unit

  abbrev IsWarrantedAt : AccountId → Option Account → Type 0
  IsWarrantedAt account none = Unit
  IsWarrantedAt account (some entry) = IsWarranted account entry.policy entry.phase

  module _ (a : AccountId) where
    -- The account's recovery is warranted, and a quorum is at least two.
    abbrev pub IsGuarded : MpcRecovery → Type 0
    IsGuarded m = (min_watcher_threshold ≤ m.threshold) × IsWarrantedAt a (IdMap.get m.accounts a)

    either-IsWarrantedAt :
        (b : Bool) (new old : Option Account)
        → (b ≡ true → IsWarrantedAt a new)
        → IsWarrantedAt a old
        → IsWarrantedAt a (if b then new else old)
    either-IsWarrantedAt true new old p q = p refl
    either-IsWarrantedAt false new old p q = q

    insert-IsWarrantedAt :
        (m : MpcRecovery) (account : AccountId) (entry : Account)
        → (a ≡ account → IsWarranted account entry.policy entry.phase)
        → IsWarrantedAt a (IdMap.get m.accounts a)
        → IsWarrantedAt a (IdMap.get (IdMap.insert m.accounts account entry) a)
    insert-IsWarrantedAt m account entry new old =
        rw (IdMap.get-insert m.accounts account a entry) (
          either-IsWarrantedAt (a == account) (some entry) (IdMap.get m.accounts a)
            (λ e.
              let w : a ≡ account = ground (arith, e) in
              subst (λ x. IsWarranted x entry.policy entry.phase) (sym w) (new w))
            old)

    -- What a recovery that is under way at an account rests on.
    pub held :
        (m : MpcRecovery) (account : AccountId) (entry : Account)
        → IsGuarded m
        → IdMap.get m.accounts account ≡ some entry
        → a ≡ account
        → IsWarranted account entry.policy entry.phase
    held m account entry g e w =
        subst (IsWarrantedAt account) e
          (subst (λ x. IsWarrantedAt x (IdMap.get m.accounts x)) w g.1)

    -- A call that writes one entry.
    pub write-IsGuarded :
        (m s : MpcRecovery) (account : AccountId) (entry : Account)
        → (s.accounts ≡ IdMap.insert m.accounts account entry) × (s.threshold ≡ m.threshold)
        → (a ≡ account → IsWarranted account entry.policy entry.phase)
        → IsGuarded m
        → IsGuarded s
    write-IsGuarded m s account entry t new g =
        (ground (arith, t, g.0), rw t.0 (insert-IsWarrantedAt m account entry new g.1))

    -- A call that writes no entry.
    pub keep-IsGuarded :
        (m s : MpcRecovery)
        → (s.accounts ≡ m.accounts) × (min_watcher_threshold ≤ s.threshold)
        → IsGuarded m
        → IsGuarded s
    keep-IsGuarded m s t g = (t.1, rw t.0 g.1)

    -- A call that takes one entry away.
    pub drop-IsGuarded :
        (m s : MpcRecovery) (account : AccountId)
        → (s.accounts ≡ IdMap.remove m.accounts account) × (s.threshold ≡ m.threshold)
        → IsGuarded m
        → IsGuarded s
    drop-IsGuarded m s account t g = (
      ground (arith, t, g.0),
      rw (t.0, IdMap.get-remove m.accounts account a)
          (either-IsWarrantedAt (a == account) none (IdMap.get m.accounts a) (λ e. tt) g.1),
    )
