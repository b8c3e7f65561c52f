-- ===== src/Deployer/Calls.antt =====
-- contracts/wallet-impl-deployer/src/lib.rs: every entry point of a running deployer, as one step.
use tla_contracts.Prelude.{ℕ, some, none, List, [], ◌∷◌, ◌==◌, Result, ok, err, require, ◌>>◌}
use tla_contracts.Near.{AccountId, CryptoHash, Bytes, Env}
use tla_contracts.Deployer.Types.{ImplDeployer, Error, Outcome}
use tla_contracts.Deployer.Publish.{gd_approve, gd_deploy, gd_on_deployed}
use tla_contracts.Deployer.Upgrade.{
  approve_self_upgrade, upgrade_self, gd_delete_key, gd_on_key_deleted, migrate,
}
use tla_contracts.Deployer.Council.{
  approve_council_rotation, cancel_council_rotation, commit_council_rotation,
}

-- `migrate_state` is `migrate` on a state of the current version.
pub data Call : Type 0 where
  approve : CryptoHash → Call
  deploy : Bytes → Call
  on_deployed : CryptoHash → ℕ → AccountId → ℕ → ℕ → Call
  approve_upgrade : CryptoHash → Call
  upgrade : Bytes → Call
  approve_rotation : AccountId → Call
  cancel_rotation commit_rotation : Call
  delete_key : Bytes → Call
  on_key_deleted : Bytes → AccountId → Call
  migrate_state : Call

abbrev assert_private : Env → Result Error (Unit {0})
assert_private env =
    require (env.predecessor_account_id == env.current_account_id) Error.private_method

unfoldable pub run_call : Env → Call → ImplDeployer → Result Error Outcome
run_call env (approve hash) d = gd_approve env hash d
run_call env (deploy code) d = gd_deploy env code d
run_call env (on_deployed hash size payer attached before) d = do
  assert_private env
  ok (gd_on_deployed env hash size payer attached before d).1
run_call env (approve_upgrade hash) d = approve_self_upgrade env hash d
run_call env (upgrade code) d = upgrade_self env code d
run_call env (approve_rotation new_council) d = approve_council_rotation env new_council d
run_call env cancel_rotation d = cancel_council_rotation env d
run_call env commit_rotation d = commit_council_rotation env d
run_call env (delete_key key) d = gd_delete_key env key d
run_call env (on_key_deleted key by) d = do
  assert_private env
  ok (gd_on_key_deleted env key by d).1
run_call env migrate_state d = migrate env (some d.state_version) (some d) none

abbrev pub Receipt : Type 0
Receipt = Env × Call

-- A call that panics leaves the state as it was.
unfoldable pub receive : ImplDeployer → Receipt → ImplDeployer
unfolding run_call
receive d (env, call) = elim (run_call env call d) [ ok done ↦ done.state | err _ ↦ d ]

unfoldable pub receive_all : ImplDeployer → List Receipt → ImplDeployer
receive_all d [] = d
receive_all d (r ∷ rs) = receive_all (receive d r) rs

abbrev pub Ensures : (ImplDeployer → Type 0) → Result Error Outcome → Type 0
Ensures P (ok done) = P done.state
Ensures P (err e) = Unit
