-- ===== src/Opener/Calls.antt =====
-- contracts/registrar-opener/src: every entry point of an installed opener, as one step.
use tla_contracts.Prelude.{ℕ, List, [], ◌∷◌, ◌==◌, some, Result, ok, err, require, ◌>>=◌, ◌>>◌}
use tla_contracts.Near.{AccountId, CryptoHash, Bytes, Env}
use tla_contracts.Opener.Types.{RegistrarOpener, Host, Error, Outcome, Check}
use tla_contracts.Opener.Batches.{
  create_batch, add_names, discard_batch, forget_names, open_names, on_name_opened,
}
use tla_contracts.Opener.Admin.{
  approve_batch, change_operator, change_admin, accept_admin, cancel_nomination, create_account,
  on_account_created, upgrade, on_upgraded, migrate,
}

pub data Call : Type 0 where
  create : AccountId → Bytes → ℕ → Call
  add : ℕ → List AccountId → Call
  discard : ℕ → Call
  forget : ℕ → List AccountId → Call
  open_batch : ℕ → List AccountId → Call
  name_opened : ℕ → AccountId → Call
  approve : ℕ → CryptoHash → Call
  set_operator nominate : AccountId → Call
  accept cancel : Call
  create_alone : AccountId → AccountId → Bytes → Call
  account_created : AccountId → Call
  upgrade_to : Bytes → Call
  was_upgraded : CryptoHash → Call
  migrate_state : Call

abbrev assert_private : Env → Check
assert_private env =
    require (env.predecessor_account_id == env.current_account_id) Error.private_method

abbrev pub Receipt : Type 0
Receipt = Env × Call

-- The state that a call leaves, if it succeeds.
abbrev pub Ensures : (RegistrarOpener → Type 0) → Result Error Outcome → Type 0
Ensures P (ok done) = P done.state
Ensures P (err e) = Unit

module _ (host : Host) where
  unfoldable pub run_call : Env → Call → RegistrarOpener → Result Error Outcome
  run_call env (create code args funding) s = do
    done ← create_batch host env code args funding s
    ok done.1
  run_call env (add batch_id names) s = do done ← add_names host env batch_id names s; ok done.1
  run_call env (discard batch_id) s = discard_batch host env batch_id s
  run_call env (forget batch_id names) s = do
    done ← forget_names host env batch_id names s
    ok done.1
  run_call env (open_batch batch_id names) s = do
    done ← open_names host env batch_id names s
    ok done.1
  run_call env (name_opened batch_id name) s = do
    assert_private env
    ok (on_name_opened host env batch_id name s).1
  run_call env (approve batch_id digest) s = approve_batch env batch_id digest s
  run_call env (set_operator operator) s = change_operator env operator s
  run_call env (nominate admin) s = change_admin env admin s
  run_call env accept s = accept_admin env s
  run_call env cancel s = cancel_nomination env s
  run_call env (create_alone name code args) s = create_account host env name code args s
  run_call env (account_created name) s = do assert_private env; on_account_created env name s
  run_call env (upgrade_to code) s = upgrade env code s
  run_call env (was_upgraded hash) s = do assert_private env; on_upgraded env hash s
  run_call env migrate_state s = migrate env (some s)

  -- A call that panics leaves the state as it was.
  unfoldable pub receive : RegistrarOpener → Receipt → RegistrarOpener
  unfolding run_call
  receive s (env, call) = elim (run_call env call s) [ ok done ↦ done.state | err _ ↦ s ]

  unfoldable pub receive_all : RegistrarOpener → List Receipt → RegistrarOpener
  receive_all s [] = s
  receive_all s (r ∷ rs) = receive_all (receive s r) rs
