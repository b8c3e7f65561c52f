-- ===== src/Deployer/Upgrade.antt =====
-- contracts/wallet-impl-deployer/src/lib.rs: upgrading the deployer itself, and sealing its keys.
use tla_contracts.Prelude.{
  ℕ, Bool, true, false, not, Option, none, some, [], ◌∷◌, leb, ◌==◌, if◌then◌else◌, is_empty,
  Result, ok, err, require, unwrap_or, ◌>>=◌, ◌>>◌, sat_add, u64_max,
}
use tla_contracts.Near.{AccountId, CryptoHash, Bytes, Env}
use tla_contracts.Deployer.Types.{
  ImplDeployer, Event, Promise, Effect, Error, Outcome, state_version, assert_one_yocto,
  assert_council,
}

module _ (env : Env) where
  unfoldable pub approve_self_upgrade : CryptoHash → ImplDeployer → Result Error Outcome
  approve_self_upgrade hash d = do
    assert_one_yocto env
    assert_council env d
    ok (record {
      state = record d {
        approved_upgrade_hash = some hash;
        approved_upgrade_at = some env.block_timestamp;
      };
      effects = Effect.emit (Event.upgrade_approved hash env.predecessor_account_id) ∷ [];
    })

  unfoldable pub upgrade_self : Bytes → ImplDeployer → Result Error Outcome
  upgrade_self code d = do
    assert_one_yocto env
    assert_council env d
    require (not (is_empty code)) Error.empty_code
    approved ← unwrap_or d.approved_upgrade_hash Error.no_approved_upgrade
    require (env.sha256 code == approved) Error.upgrade_hash_mismatch
    approved_at ← unwrap_or d.approved_upgrade_at Error.no_approved_upgrade
    require (leb (sat_add u64_max approved_at d.approval_delay_ns) env.block_timestamp)
        Error.upgrade_too_young
    ok (record {
      state = record d { approved_upgrade_hash = none; approved_upgrade_at = none };
      effects = Effect.send (Promise.deploy_and_migrate code) ∷ [];
    })

  unfoldable pub gd_delete_key : Bytes → ImplDeployer → Result Error Outcome
  gd_delete_key public_key d = do
    assert_one_yocto env
    assert_council env d
    require d.upgrade_proven Error.upgrade_not_proven
    ok (record {
      state = d;
      effects = Effect.send (Promise.delete_key public_key env.predecessor_account_id) ∷ [];
    })

  unfoldable pub gd_on_key_deleted : Bytes → AccountId → ImplDeployer → Bool × Outcome
  gd_on_key_deleted public_key by d =
      if env.promise_success
      then (
        true,
        record { state = d; effects = Effect.emit (Event.key_deleted public_key by) ∷ [] },
      )
      else (
        false,
        record { state = d; effects = Effect.emit (Event.key_delete_failed public_key by) ∷ [] },
      )

-- What `migrate` makes of the state it could read.
abbrev pub migrated : ImplDeployer → ImplDeployer
migrated d = record d {
  approved_hash = none;
  approved_at = none;
  deploy_locked_until = 0;
  upgrade_proven = true;
}

-- contracts/wallet-impl-deployer/src/legacy.rs: the state before the council could rotate.
pub record ImplDeployerV1 : Type 0 where
  pub council : AccountId
  pub current_hash : Option CryptoHash
  pub approved_hash : Option CryptoHash
  pub approved_at : Option ℕ
  pub approval_delay_ns : ℕ
  pub deploy_locked_until : ℕ
  pub approved_upgrade_hash : Option CryptoHash
  pub approved_upgrade_at : Option ℕ
  pub upgrade_proven : Bool

unfoldable pub from_v1 : ImplDeployerV1 → ImplDeployer
from_v1 old = record {
  state_version = state_version;
  council = old.council;
  current_hash = old.current_hash;
  approved_hash = old.approved_hash;
  approved_at = old.approved_at;
  approval_delay_ns = old.approval_delay_ns;
  deploy_locked_until = old.deploy_locked_until;
  approved_upgrade_hash = old.approved_upgrade_hash;
  approved_upgrade_at = old.approved_upgrade_at;
  upgrade_proven = old.upgrade_proven;
  pending_council = none;
  pending_council_at = none;
}

abbrev read_as_v1 : Option ImplDeployerV1 → Result Error ImplDeployer
read_as_v1 none = err Error.no_state
read_as_v1 (some old) = ok (from_v1 old)

-- `version` is the stored state's, `read` and `read_v1` its readings at each version.
unfoldable pub migrate :
    Env → Option ℕ → Option ImplDeployer → Option ImplDeployerV1 → Result Error Outcome
unfolding from_v1
migrate env version read read_v1 = do
  require (env.predecessor_account_id == env.current_account_id) Error.private_method
  deployed ← unwrap_or version Error.no_state
  current ←
      (if deployed == state_version
        then unwrap_or read Error.no_state
        else if deployed == 1
        then read_as_v1 read_v1
        else err Error.state_version_unknown)
  ok (record { state = migrated current; effects = Effect.emit Event.self_upgraded ∷ [] })
