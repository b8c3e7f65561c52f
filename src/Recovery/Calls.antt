-- ===== src/Recovery/Calls.antt =====
-- contracts/mpc-recovery/src/lib.rs: every entry point of the recovery contract, as one step.
use tla_contracts.Prelude.{ℕ, Bool, some, none, List, [], ◌∷◌, ◌==◌, Result, ok, err, require, ◌>>◌}
use tla_contracts.Near.{AccountId, CryptoHash, Bytes, Env}
use tla_contracts.Recovery.Types.{
  Keys, PublicKey, Verdict, WatcherSignature, MpcRecovery, Error, Outcome,
}
use tla_contracts.Recovery.Governance.{
  seal, after_seal, approve_upgrade, upgrade, set_watchers, set_installer, approve_owner_rotation,
  cancel_owner_rotation, commit_owner_rotation, set_registry, Stored, migrate,
}
use tla_contracts.Recovery.Policies.{
  arm_policy_install, disarm_policy_install, install_policy, on_wallet_transferred,
}
use tla_contracts.Recovery.Native.{
  request_recovery, submit_verdict, finalize_recovery, abort_recovery, on_signed,
  claim_native_finalized,
}
use tla_contracts.Recovery.Names.{
  request_name_recovery, recover_name, on_name_recovered, claim_name_finalized,
}

-- The constructors that begin with `after` are the callbacks; `migrate_state` is `migrate` on a state of
-- the current version.
pub data Call : Type 0 where
  seal_key : Bytes → Call
  after_key : Bytes → AccountId → Call
  approve_code : CryptoHash → Call
  upgrade_to : Bytes → Call
  migrate_state : Call
  name_watchers : List PublicKey → ℕ → Call
  name_installer name_owner name_registry : AccountId → Call
  cancel_owner commit_owner : Call
  arm : PublicKey → ℕ → Call
  disarm : Call
  install : AccountId → PublicKey → PublicKey → ℕ → Call
  request : AccountId → PublicKey → ℕ → Bytes → Call
  judge : AccountId → Verdict → List WatcherSignature → Call
  finalize : AccountId → ℕ → Bytes → Call
  abort : AccountId → Call
  after_signed : AccountId → ℕ → Bool → Call
  claim_native : AccountId → ℕ → Call
  request_name : AccountId → Bytes → AccountId → Bytes → Call
  recover : AccountId → Bytes → AccountId → AccountId → ℕ → List WatcherSignature → Call
  after_name : AccountId → ℕ → Call
  claim_name : AccountId → ℕ → Bool → Call
  reset : AccountId → Call

abbrev assert_private : Env → Result Error (Unit {0})
assert_private env =
    require (env.predecessor_account_id == env.current_account_id) Error.private_method

abbrev stored_now : MpcRecovery → Stored
stored_now m = record { version = some m.state_version; now = some m; v1 = none }

abbrev without_value : Result Error (Bool × Outcome) → Result Error Outcome
without_value (ok done) = ok done.1
without_value (err e) = err e

module _ (keys : Keys) where
  unfoldable pub run_call : Env → Call → MpcRecovery → Result Error Outcome
  run_call env (seal_key key) m = seal env key m
  run_call env (after_key key by) m = assert_private env >> ok (after_seal env key by m).1
  run_call env (approve_code hash) m = approve_upgrade env hash m
  run_call env (upgrade_to code) m = upgrade env code m
  run_call env migrate_state m = migrate env (stored_now m)
  run_call env (name_watchers watchers threshold) m = set_watchers env keys watchers threshold m
  run_call env (name_installer account) m = set_installer env account m
  run_call env (name_owner account) m = approve_owner_rotation env account m
  run_call env (name_registry account) m = set_registry env account m
  run_call env cancel_owner m = cancel_owner_rotation env m
  run_call env commit_owner m = commit_owner_rotation env m
  run_call env (arm key timelock) m = arm_policy_install keys env key timelock m
  run_call env disarm m = disarm_policy_install keys env m
  run_call env (install account mpc attestation timelock) m =
      install_policy keys env account mpc attestation timelock m
  run_call env (request account new_owner round attestation) m =
      request_recovery keys env account new_owner round attestation m
  run_call env (judge account verdict signatures) m =
      submit_verdict keys env account verdict signatures m
  run_call env (finalize account nonce hash) m = finalize_recovery keys env account nonce hash m
  run_call env (abort account) m = abort_recovery keys env account m
  run_call env (after_signed account round signed) m =
      assert_private env >> ok (on_signed keys env account round signed m).1
  run_call env (claim_native account round) m = claim_native_finalized keys env account round m
  run_call env (request_name tla name new_owner attestation) m =
      request_name_recovery keys env tla name new_owner attestation m
  run_call env (recover tla name new_owner expected deadline signatures) m =
      recover_name keys env tla name new_owner expected deadline signatures m
  run_call env (after_name account round) m =
      assert_private env >> ok (on_name_recovered env account round m).1
  run_call env (claim_name account round settled) m =
      claim_name_finalized env account round settled m
  run_call env (reset wallet) m = without_value (on_wallet_transferred keys env wallet m)

  -- A call that panics leaves the state as it was.
  unfoldable pub receive : MpcRecovery → Env × Call → MpcRecovery
  unfolding run_call
  receive m (env, call) = elim (run_call env call m) [ ok done ↦ done.state | err _ ↦ m ]

  unfoldable pub receive_all : MpcRecovery → List (Env × Call) → MpcRecovery
  receive_all m [] = m
  receive_all m (r ∷ rs) = receive_all (receive m r) rs

-- The state that a call leaves, if it succeeds.
abbrev pub Ensures : (MpcRecovery → Type 0) → Result Error Outcome → Type 0
Ensures P (ok done) = P done.state
Ensures P (err e) = Unit
