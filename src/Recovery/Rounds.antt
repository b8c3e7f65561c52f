-- ===== src/Recovery/Rounds.antt =====
-- contracts/mpc-recovery/src/lib.rs: the rounds of an account's recoveries, through reset and
-- reinstallation.
use tla_contracts.Prelude.{ℕ, ◌+◌, ◌++◌, ◌≡◌, ◌≤◌, Option, none, some, List, [], ◌∷◌, ok, arith}
use tla_contracts.Prelude.IdMap
use tla_contracts.Near.{AccountId, Env}
use tla_contracts.Recovery.Types.{Keys, Phase, Account, MpcRecovery, Outcome}
use tla_contracts.Recovery.Governance.{
  seal, after_seal, approve_upgrade, upgrade, set_watchers, set_installer, approve_owner_rotation,
  cancel_owner_rotation, commit_owner_rotation, set_registry, migrate,
}
use tla_contracts.Recovery.Policies.{
  arm_policy_install, disarm_policy_install, install_policy, on_wallet_transferred, round_floor_of,
}
use tla_contracts.Recovery.Native.{
  request_recovery, submit_verdict, finalize_recovery, abort_recovery, on_signed,
  claim_native_finalized, set_phase, settle_resolving,
}
use tla_contracts.Recovery.Names.{
  request_name_recovery, recover_name, on_name_recovered, claim_name_finalized,
  settle_name_resolving,
}
use tla_contracts.Recovery.Calls
use tla_contracts.Recovery.Calls.{Ensures}

-- The round of an account's next request: its policy's, or the floor that a reset left.
abbrev round_over : Option Account → ℕ → ℕ
round_over none floor = floor
round_over (some entry) floor = entry.round

unfoldable pub next_round : MpcRecovery → AccountId → ℕ
unfolding round_floor_of
next_round m a = round_over (IdMap.get m.accounts a) (round_floor_of m a)

module _ (keys : Keys) (a : AccountId) where
  next_round-set_phase :
      (account : AccountId) (entry : Account) (phase : Phase) (m : MpcRecovery)
      → IdMap.get m.accounts account ≡ some entry
      → next_round (set_phase account entry phase m) a ≡ next_round m a
  unfolding next_round
  next_round-set_phase account entry phase m e =
      ground (arith, e, IdMap.get-insert m.accounts account a (record entry { phase = phase }))

  run_call-next_round :
      (env : Env) (call : Calls.Call) (m : MpcRecovery)
      → Ensures (λ s. next_round m a ≤ next_round s a) (Calls.run_call keys env call m)
  unfolding Calls.run_call seal after_seal approve_upgrade upgrade set_watchers set_installer
      approve_owner_rotation cancel_owner_rotation commit_owner_rotation set_registry migrate
      arm_policy_install disarm_policy_install install_policy on_wallet_transferred request_recovery
      submit_verdict finalize_recovery abort_recovery on_signed claim_native_finalized
      request_name_recovery recover_name on_name_recovered claim_name_finalized settle_resolving
      settle_name_resolving next_round round_floor_of
  run_call-next_round env (Calls.judge account verdict signatures) m =
      grind (arith, next_round-set_phase account)
  run_call-next_round env (Calls.finalize account nonce hash) m =
      grind (arith, next_round-set_phase account)
  run_call-next_round env (Calls.abort account) m = grind (arith, next_round-set_phase account)
  run_call-next_round env (Calls.after_signed account round signed) m =
      grind (arith, next_round-set_phase account)
  run_call-next_round env (Calls.claim_native account round) m =
      grind (arith, next_round-set_phase account)
  run_call-next_round env (Calls.recover tla name owner expected deadline signatures) m =
      grind (arith, next_round-set_phase)
  run_call-next_round env (Calls.after_name account round) m =
      grind (arith, next_round-set_phase account)
  run_call-next_round env (Calls.claim_name account round done) m =
      grind (arith, next_round-set_phase account)
  run_call-next_round env (Calls.request account new_owner round attestation) m =
      grind (arith, IdMap.get-insert m.accounts account a)
  run_call-next_round env (Calls.request_name tla name new_owner attestation) m =
      grind (arith, IdMap.get-insert m.accounts)
  run_call-next_round env (Calls.install account mpc attestation timelock) m =
      grind (arith, IdMap.get-insert m.accounts account a)
  run_call-next_round env (Calls.reset account) m =
      grind (arith, IdMap.get-insert m.round_floor account a, IdMap.get-remove m.accounts account a)
  run_call-next_round env call m = ground arith

  receive_all-next_round :
      (rs : List (Env × Calls.Call)) (m : MpcRecovery)
      → next_round m a ≤ next_round (Calls.receive_all keys m rs) a
  unfolding Calls.receive_all Calls.receive
  receive_all-next_round [] m = ground arith
  receive_all-next_round ((env, call) ∷ rs) m = ground (
    arith,
    run_call-next_round env call m,
    receive_all-next_round rs (Calls.receive keys m (env, call)),
  )

  -- The round at which a phase's request was made.
  abbrev round_in : Phase → Option ℕ
  round_in (Phase.requested k r t) = some r
  round_in (Phase.name_requested o r t) = some r
  round_in _ = none

  abbrev IsAtRound : ℕ → Option Account → Type 0
  IsAtRound r none = ⊥
  IsAtRound r (some entry) = round_in entry.phase ≡ some r

  -- The call is a request of either kind for the account, and leaves its recovery requested at the round.
  abbrev pub IsRequestAt : Env → Calls.Call → ℕ → MpcRecovery → Type 0
  IsRequestAt env (Calls.request account k given s) r m =
      (account ≡ a) × IsAtRound r (IdMap.get m.accounts a)
  IsRequestAt env (Calls.request_name tla name o s) r m =
      (keys.parse (name ++ (b'.' ∷ env.as_str tla)) ≡ some a) × IsAtRound r (IdMap.get m.accounts a)
  IsRequestAt env call r m = ⊥

  uses-next_round :
      (env : Env) (call : Calls.Call) (r : ℕ) (m : MpcRecovery) (done : Outcome)
      → Calls.run_call keys env call m ≡ ok done
      → IsRequestAt env call r done.state
      → (r ≡ next_round m a) × (next_round done.state a ≡ r + 1)
  unfolding Calls.run_call request_recovery request_name_recovery next_round
  uses-next_round env (Calls.request account k given s) r m done e u =
      grind (arith, e, u, IdMap.get-insert m.accounts account a)
  uses-next_round env (Calls.request_name tla name o s) r m done e u =
      grind (arith, e, u, IdMap.get-insert m.accounts)
  uses-next_round env call r m done e u = absurd (ground (arith, u))

  -- A round of an account's recovery is used once: after a request for the account at the round was
  -- accepted, of a native account or of a leased name, no request of either kind at that round is,
  -- whatever receipts come in between, the reset of the policy and its reinstallation included.
  pub round_used_once :
      (env later : Env) (call next : Calls.Call) (round : ℕ) (m : MpcRecovery)
      (done again : Outcome) (rs : List (Env × Calls.Call))
      → Calls.run_call keys env call m ≡ ok done
      → IsRequestAt env call round done.state
      → ¬ (
          (Calls.run_call keys later next (Calls.receive_all keys done.state rs) ≡ ok again)
          × IsRequestAt later next round again.state)
  round_used_once env later call next round m done again rs e u (f, v) =
      let late = Calls.receive_all keys done.state rs in
      omega (
        arith,
        uses-next_round env call round m done e u,
        uses-next_round later next round late again f v,
        receive_all-next_round rs done.state,
      )
