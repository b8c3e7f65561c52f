-- ===== src/Opener/Admin.antt =====
-- contracts/registrar-opener/src/admin.rs, lib.rs: the admin's calls, the upgrade, and the set-up.
use tla_contracts.Prelude.{
  ℕ, Bool, true, Option, none, some, [], ◌∷◌, ltb, leb, ◌==◌, ◌!=◌, not, ◌&&◌, if◌then◌else◌,
  is_empty, same_option, Result, ok, err, require, unwrap_or, ◌>>=◌, ◌>>◌, sat_add, u64_max,
}
use tla_contracts.Prelude.IdMap
use tla_contracts.Near.{AccountId, CryptoHash, Bytes, Env}
use tla_contracts.Opener.Types.{
  RegistrarOpener, Host, Event, Promise, Effect, Error, Outcome, min_funding, state_version,
  assert_one_yocto, assert_admin, assert_admin_account, batch_mut,
}
use tla_contracts.Opener.Names.{assert_openable}
use tla_contracts.Opener.Batches.{assert_setup}

module _ (env : Env) where
  unfoldable pub approve_batch : ℕ → CryptoHash → RegistrarOpener → Result Error Outcome
  approve_batch batch_id digest s = do
    assert_admin env s
    batch ← batch_mut s batch_id
    require (not batch.approved) Error.batch_is_approved
    require (ltb 0 batch.remaining) Error.batch_empty
    require (batch.digest == digest) Error.digest_mismatch
    ok (record {
      state = record s {
        batches = IdMap.insert s.batches batch_id (record batch { approved = true });
      };
      effects = Effect.emit (Event.batch_approved batch_id batch.count digest) ∷ [];
    })

  unfoldable pub change_operator : AccountId → RegistrarOpener → Result Error Outcome
  change_operator operator s = do
    assert_admin env s
    require (operator != s.admin) Error.admin_is_operator
    require (not (same_option s.pending_admin (some operator))) Error.nominee_is_operator
    require (operator != env.current_account_id) Error.role_is_self
    ok (record {
      state = record s { operator = operator };
      effects = Effect.emit (Event.operator_changed operator) ∷ [];
    })

  unfoldable pub change_admin : AccountId → RegistrarOpener → Result Error Outcome
  change_admin admin s = do
    assert_admin env s
    require (admin != s.operator) Error.admin_is_operator
    require (admin != env.current_account_id) Error.role_is_self
    ok (record {
      state = record s { pending_admin = some admin };
      effects = Effect.emit (Event.admin_nominated admin) ∷ [];
    })

  unfoldable pub accept_admin : RegistrarOpener → Result Error Outcome
  accept_admin s = do
    assert_one_yocto env
    nominee ← unwrap_or s.pending_admin Error.no_pending_admin
    require (env.predecessor_account_id == nominee) Error.only_pending_admin
    require (nominee != s.operator) Error.nominee_is_operator
    ok (record {
      state = record s { admin = nominee; pending_admin = none };
      effects = Effect.emit (Event.admin_changed nominee) ∷ [];
    })

  unfoldable pub cancel_nomination : RegistrarOpener → Result Error Outcome
  cancel_nomination s = do
    assert_admin env s
    nominee ← unwrap_or s.pending_admin Error.no_pending_admin
    ok (record {
      state = record s { pending_admin = none };
      effects = Effect.emit (Event.nomination_cancelled nominee) ∷ [];
    })

  unfoldable pub on_account_created : AccountId → RegistrarOpener → Result Error Outcome
  on_account_created name s = do
    require env.promise_success Error.open_failed
    ok (record {
      state = record s { opened = sat_add u64_max s.opened 1 };
      effects = Effect.emit (Event.opened name none) ∷ [];
    })

  unfoldable pub upgrade : Bytes → RegistrarOpener → Result Error Outcome
  upgrade code s = do
    assert_admin env s
    let code_hash = env.sha256 code
    ok (record {
      state = s;
      effects =
          Effect.emit (Event.upgrading code_hash)
          ∷ Effect.send (Promise.deploy_and_migrate code code_hash)
          ∷ [];
    })

  unfoldable pub on_upgraded : CryptoHash → RegistrarOpener → Result Error Outcome
  on_upgraded code_hash s = do
    require env.promise_success Error.upgrade_failed
    ok (record { state = s; effects = Effect.emit (Event.upgraded code_hash) ∷ [] })

  -- `installed`: whether the stored state reads as this contract's. The names stored under the batch
  -- ids are those that the account held before.
  unfoldable pub new : Bool → AccountId → AccountId → Result Error Outcome
  new installed admin operator = do
    let here = env.current_account_id
    require (env.predecessor_account_id == here) Error.only_self
    require (not installed) Error.already_installed
    require (admin != operator) Error.admin_is_operator
    require (admin != here && operator != here) Error.role_is_self
    ok (record {
      state = record {
        state_version = state_version;
        admin = admin;
        pending_admin = none;
        operator = operator;
        batches = [];
        next_batch_id = 0;
        opened = 0;
        failed = 0;
        batch_names = [];
      };
      effects = Effect.emit (Event.installed state_version admin operator) ∷ [];
    })

  -- The branch of `migrate` on the stored version.
  abbrev to_current : RegistrarOpener → Result Error RegistrarOpener
  to_current s =
      if s.state_version == state_version
      then ok s
      else if s.state_version == 1
      then (do
        require (is_empty s.batches) Error.batches_live
        ok (record s { state_version = state_version }))
      else err Error.state_version_unknown

  -- `stored`: the state in storage, if there is one that reads as this contract's.
  unfoldable pub migrate : Option RegistrarOpener → Result Error Outcome
  migrate stored = do
    require (env.predecessor_account_id == env.current_account_id) Error.only_self
    held ← unwrap_or stored Error.no_state
    s ← to_current held
    ok (record { state = s; effects = Effect.emit (Event.migrated s.state_version) ∷ [] })

module _ (host : Host) (env : Env) where
  unfoldable pub create_account :
      AccountId → AccountId → Bytes → RegistrarOpener → Result Error Outcome
  create_account name global_code init_args s = do
    assert_admin_account env s
    let funding = env.attached_deposit
    require (leb min_funding funding) Error.funding_too_low
    assert_openable host env (name ∷ [])
    assert_setup host env global_code init_args
    ok (record {
      state = s;
      effects =
          Effect.emit (Event.opening name none)
          ∷ Effect.send (
              Promise.open_account
                (record {
                  name = name;
                  funding = funding;
                  global_code = global_code;
                  init_args = init_args;
                })
                none)
          ∷ [];
    })
