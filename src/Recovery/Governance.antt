-- ===== src/Recovery/Governance.antt =====
-- contracts/mpc-recovery/src/lib.rs, legacy.rs: the set-up, and what the owner does to the contract.
use tla_contracts.Prelude.{
  ℕ, Bool, true, false, Option, none, some, List, [], ◌∷◌, leb, ◌==◌, ◌!=◌, ◌||◌, not, is_empty,
  is_some, length, if◌then◌else◌, Result, ok, err, require, unwrap_or, ◌>>=◌, ◌>>◌, sat_add,
  u64_max,
}
use tla_contracts.Prelude.IdSet
use tla_contracts.Prelude.IdMap.{IdMap}
use tla_contracts.Near.{AccountId, CryptoHash, Bytes, Env}
use tla_contracts.Recovery.Types.{
  Keys, PublicKey, ArmedPolicy, Account, MpcRecovery, Event, Promise, Callback, Effect, Error,
  Outcome, min_watcher_threshold, max_watchers, upgrade_delay_ns, state_version, as_u32, is_ed25519,
  assert_owner, assert_one_yocto,
}

-- The loop over the watchers, on those seen so far.
unfoldable pub assert_distinct : Keys → List PublicKey → List PublicKey → Result Error (Unit {0})
assert_distinct keys seen [] = ok tt
assert_distinct keys seen (watcher ∷ watchers) = do
  require (is_ed25519 keys watcher) Error.watcher_not_ed25519
  require (not (IdSet.contains seen watcher)) Error.duplicate_watcher
  assert_distinct keys (watcher ∷ seen) watchers

-- The conditions on the watchers that `new` and `set_watchers` share.
abbrev pub assert_quorum : List PublicKey → ℕ → Result Error (Unit {0})
assert_quorum watchers threshold = do
  require (leb min_watcher_threshold threshold) Error.threshold_too_low
  require (leb threshold (length watchers)) Error.bad_threshold
  require (leb (as_u32 (length watchers)) max_watchers) Error.too_many_watchers

unfoldable pub new :
    Keys → Env → AccountId → AccountId → AccountId → List PublicKey → ℕ → Result Error MpcRecovery
unfolding assert_distinct
new keys env owner signer transfer_authority watchers threshold = do
  assert_quorum watchers threshold
  require (owner != env.current_account_id) Error.owner_is_self
  assert_distinct keys [] watchers
  ok (record {
    state_version = state_version;
    owner = owner;
    installer = owner;
    signer = signer;
    transfer_authority = transfer_authority;
    watchers = watchers;
    threshold = threshold;
    accounts = [];
    round_floor = [];
    approved_code_hash = none;
    approved_at = none;
    registry = none;
    armed = [];
    upgrade_proven = false;
    pending_owner = none;
    pending_owner_at = none;
  })

module _ (env : Env) where
  unfoldable pub seal : Bytes → MpcRecovery → Result Error Outcome
  seal public_key m = do
    assert_one_yocto env
    assert_owner env m
    require m.upgrade_proven Error.upgrade_not_proven
    ok (record {
      state = m;
      effects =
          Effect.send (Promise.delete_key public_key)
            (Callback.after_seal public_key env.predecessor_account_id)
          ∷ [];
    })

  -- The callback, with the value it returns.
  unfoldable pub after_seal : Bytes → AccountId → MpcRecovery → Bool × Outcome
  after_seal public_key by m =
      if env.promise_success
      then (true, record { state = m; effects = Effect.emit (Event.sealed public_key by) ∷ [] })
      else (
        false,
        record { state = m; effects = Effect.emit (Event.seal_failed public_key by) ∷ [] },
      )

  unfoldable pub approve_upgrade : CryptoHash → MpcRecovery → Result Error Outcome
  approve_upgrade code_hash m = do
    assert_one_yocto env
    assert_owner env m
    ok (record {
      state = record m {
        approved_code_hash = some code_hash;
        approved_at = some env.block_timestamp;
      };
      effects = Effect.emit (Event.upgrade_approved code_hash env.predecessor_account_id) ∷ [];
    })

  unfoldable pub upgrade : Bytes → MpcRecovery → Result Error Outcome
  upgrade code m = do
    assert_one_yocto env
    assert_owner env m
    require (not (is_empty code)) Error.empty_code
    approved ← unwrap_or m.approved_code_hash Error.no_approved_hash
    require (env.sha256 code == approved) Error.hash_mismatch
    approved_at ← unwrap_or m.approved_at Error.no_approved_hash
    require (leb (sat_add u64_max approved_at upgrade_delay_ns) env.block_timestamp)
        Error.approval_too_young
    ok (record {
      state = record m { approved_code_hash = none; approved_at = none };
      effects = Effect.send (Promise.deploy_and_migrate code) Callback.no_callback ∷ [];
    })

  unfoldable pub set_watchers : Keys → List PublicKey → ℕ → MpcRecovery → Result Error Outcome
  unfolding assert_distinct
  set_watchers keys watchers threshold m = do
    assert_one_yocto env
    assert_owner env m
    assert_quorum watchers threshold
    assert_distinct keys [] watchers
    ok (record {
      state = record m { watchers = watchers; threshold = threshold };
      effects = Effect.emit (Event.watchers_changed threshold (as_u32 (length watchers))) ∷ [];
    })

  unfoldable pub set_installer : AccountId → MpcRecovery → Result Error Outcome
  set_installer installer m = do
    assert_one_yocto env
    assert_owner env m
    ok (record {
      state = record m { installer = installer };
      effects = Effect.emit (Event.installer_changed installer) ∷ [];
    })

  unfoldable pub approve_owner_rotation : AccountId → MpcRecovery → Result Error Outcome
  approve_owner_rotation new_owner m = do
    assert_one_yocto env
    assert_owner env m
    require (new_owner != m.owner) Error.owner_unchanged
    require (new_owner != env.current_account_id) Error.owner_is_self
    ok (record {
      state = record m {
        pending_owner = some new_owner;
        pending_owner_at = some env.block_timestamp;
      };
      effects =
          Effect.emit (Event.owner_rotation_approved new_owner env.predecessor_account_id) ∷ [];
    })

  unfoldable pub cancel_owner_rotation : MpcRecovery → Result Error Outcome
  cancel_owner_rotation m = do
    assert_one_yocto env
    assert_owner env m
    require (is_some m.pending_owner) Error.no_owner_rotation_pending
    ok (record {
      state = record m { pending_owner = none; pending_owner_at = none };
      effects = Effect.emit (Event.owner_rotation_cancelled env.predecessor_account_id) ∷ [];
    })

  unfoldable pub commit_owner_rotation : MpcRecovery → Result Error Outcome
  commit_owner_rotation m = do
    assert_one_yocto env
    pending ← unwrap_or m.pending_owner Error.no_owner_rotation_pending
    let caller = env.predecessor_account_id
    require (caller == pending || caller == m.owner) Error.only_owner_or_pending_owner
    ok (record {
      state = record m { owner = pending; pending_owner = none; pending_owner_at = none };
      effects = Effect.emit (Event.owner_rotated pending caller) ∷ [];
    })

  unfoldable pub set_registry : AccountId → MpcRecovery → Result Error Outcome
  set_registry registry m = do
    assert_one_yocto env
    assert_owner env m
    require (registry != env.current_account_id) Error.registry_is_self
    ok (record {
      state = record m { registry = some registry };
      effects = Effect.emit (Event.registry_changed registry) ∷ [];
    })

-- contracts/mpc-recovery/src/legacy.rs: the state before the owner could rotate.
pub record MpcRecoveryV1 : Type 0 where
  pub owner : AccountId
  pub installer : AccountId
  pub signer : AccountId
  pub transfer_authority : AccountId
  pub watchers : List PublicKey
  pub threshold : ℕ
  pub accounts : IdMap Account
  pub round_floor : IdMap ℕ
  pub approved_code_hash : Option CryptoHash
  pub approved_at : Option ℕ
  pub registry : Option AccountId
  pub armed : IdMap ArmedPolicy
  pub upgrade_proven : Bool

unfoldable pub from_v1 : MpcRecoveryV1 → MpcRecovery
from_v1 old = record {
  state_version = state_version;
  owner = old.owner;
  installer = old.installer;
  signer = old.signer;
  transfer_authority = old.transfer_authority;
  watchers = old.watchers;
  threshold = old.threshold;
  accounts = old.accounts;
  round_floor = old.round_floor;
  approved_code_hash = old.approved_code_hash;
  approved_at = old.approved_at;
  registry = old.registry;
  armed = old.armed;
  upgrade_proven = old.upgrade_proven;
  pending_owner = none;
  pending_owner_at = none;
}

-- The stored state as each version's reader finds it.
pub record Stored : Type 0 where
  pub version : Option ℕ
  pub now : Option MpcRecovery
  pub v1 : Option MpcRecoveryV1

abbrev read_as : {A : Type 0} → (A → MpcRecovery) → Option A → Result Error MpcRecovery
read_as from none = err Error.no_state
read_as from (some old) = ok (from old)

unfoldable pub migrate : Env → Stored → Result Error Outcome
unfolding from_v1
migrate env stored = do
  require (env.predecessor_account_id == env.current_account_id) Error.private_method
  deployed ← unwrap_or stored.version Error.no_state
  current ←
      (if deployed == state_version
        then read_as (λ m. m) stored.now
        else if deployed == 1
        then read_as from_v1 stored.v1
        else err Error.state_version_unknown)
  ok (record {
    state = record current { upgrade_proven = true };
    effects = Effect.emit Event.upgraded ∷ [];
  })
