-- ===== src/Registrar/Calls.antt =====
-- contracts/registrar/src/lib.rs: every entry point of the registrar, as one step.
use tla_contracts.Prelude.{
  ℕ, Option, some, none, List, [], ◌∷◌, ◌==◌, Result, ok, err, require, ◌>>◌,
}
use tla_contracts.Near.{AccountId, CryptoHash, Bytes, Env}
use tla_contracts.Registrar.Types.{Registrar, Error, Outcome}
use tla_contracts.Registrar.Mint.{create_sub_account, on_minted}
use tla_contracts.Registrar.Council.{
  set_min_balance, approve_upgrade, approve_council_rotation, cancel_council_rotation,
  commit_council_rotation, upgrade_self, seal, after_seal, Stored, migrate,
}

-- `after_minted` and `after_key` are the callbacks that change or log something; `migrate_state` is
-- `migrate` on a state of the current version.
pub data Call : Type 0 where
  mint : Bytes → AccountId → AccountId → ℕ → Call
  after_minted : AccountId → AccountId → ℕ → Call
  fund : ℕ → Call
  approve : CryptoHash → Call
  name_council : AccountId → Call
  cancel_council commit_council migrate_state : Call
  upgrade_to seal_key : Bytes → Call
  after_key : Bytes → AccountId → Call

abbrev assert_private : Env → Result Error (Unit {0})
assert_private env =
    require (env.predecessor_account_id == env.current_account_id) Error.private_method

abbrev stored_now : Registrar → Stored
stored_now r = record { version = some r.state_version; now = some r; v1 = none }

unfoldable pub run_call : (Bytes → Option AccountId) → Env → Call → Registrar → Result Error Outcome
run_call parse env (mint name owner payout until) r =
    create_sub_account parse env name owner payout until r
run_call parse env (after_minted account owner funding) r =
    assert_private env >> ok (on_minted env account owner funding r).1
run_call parse env (fund min_balance) r = set_min_balance env min_balance r
run_call parse env (approve hash) r = approve_upgrade env hash r
run_call parse env (name_council account) r = approve_council_rotation env account r
run_call parse env cancel_council r = cancel_council_rotation env r
run_call parse env commit_council r = commit_council_rotation env r
run_call parse env migrate_state r = migrate env (stored_now r)
run_call parse env (upgrade_to code) r = upgrade_self env code r
run_call parse env (seal_key key) r = seal env key r
run_call parse env (after_key key by) r = assert_private env >> ok (after_seal env key by r).1

abbrev pub Receipt : Type 0
Receipt = Env × Call

-- A call that panics leaves the state as it was.
unfoldable pub receive : (Bytes → Option AccountId) → Registrar → Receipt → Registrar
unfolding run_call
receive parse r (env, call) = elim (run_call parse env call r) [ ok done ↦ done.state | err _ ↦ r ]

unfoldable pub receive_all : (Bytes → Option AccountId) → Registrar → List Receipt → Registrar
receive_all parse r [] = r
receive_all parse r (x ∷ xs) = receive_all parse (receive parse r x) xs

-- The state that a call leaves, if it succeeds.
abbrev pub Ensures : (Registrar → Type 0) → Result Error Outcome → Type 0
Ensures P (ok done) = P done.state
Ensures P (err e) = Unit
