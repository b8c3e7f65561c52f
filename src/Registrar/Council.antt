-- ===== src/Registrar/Council.antt =====
-- contracts/registrar/src/lib.rs, legacy.rs: what the council does to the registrar, and upgrading it.
use tla_contracts.Prelude.{
  ℕ, ◌∷◌, [], Bool, true, false, none, some, Option, leb, ◌==◌, ◌!=◌, not, is_empty, is_some,
  Result, ok, err, require, unwrap_or, ◌>>=◌, ◌>>◌, if◌then◌else◌, sat_add, u32_max, u64_max,
}
use tla_contracts.Near.{AccountId, Bytes, CryptoHash, Env}
use tla_contracts.Registrar.Types.{
  ChainId, Registrar, Event, Promise, Callback, Effect, Error, Outcome, state_version,
  account_storage_floor, upgrade_delay_ns, assert_one_yocto, assert_council,
}

module _ (env : Env) where
  unfoldable pub set_min_balance : ℕ → Registrar → Result Error Outcome
  set_min_balance min_balance r = do
    assert_one_yocto env
    assert_council env r
    require (leb account_storage_floor min_balance) Error.bad_min_balance
    ok (record {
      state = record r {
        config_epoch = sat_add u32_max r.config_epoch 1;
        min_balance = min_balance;
      };
      effects = Effect.emit (Event.min_balance_set min_balance) ∷ [];
    })

  unfoldable pub approve_upgrade : CryptoHash → Registrar → Result Error Outcome
  approve_upgrade code_hash r = do
    assert_one_yocto env
    assert_council env r
    ok (record {
      state = record r {
        approved_code_hash = some code_hash;
        approved_at = some env.block_timestamp;
      };
      effects = Effect.emit (Event.upgrade_approved code_hash env.predecessor_account_id) ∷ [];
    })

  unfoldable pub approve_council_rotation : AccountId → Registrar → Result Error Outcome
  approve_council_rotation new_council r = do
    assert_one_yocto env
    assert_council env r
    require (new_council != r.council) Error.council_unchanged
    require (new_council != env.current_account_id) Error.council_is_self
    ok (record {
      state = record r {
        pending_council = some new_council;
        pending_council_at = some env.block_timestamp;
      };
      effects =
          Effect.emit (Event.council_rotation_approved new_council env.predecessor_account_id) ∷ [];
    })

  unfoldable pub cancel_council_rotation : Registrar → Result Error Outcome
  cancel_council_rotation r = do
    assert_one_yocto env
    assert_council env r
    require (is_some r.pending_council) Error.no_council_rotation_pending
    ok (record {
      state = record r { pending_council = none; pending_council_at = none };
      effects = Effect.emit (Event.council_rotation_cancelled env.predecessor_account_id) ∷ [];
    })

  unfoldable pub commit_council_rotation : Registrar → Result Error Outcome
  commit_council_rotation r = do
    assert_one_yocto env
    pending ← unwrap_or r.pending_council Error.no_council_rotation_pending
    require (env.predecessor_account_id == pending) Error.only_pending_council
    approved_at ← unwrap_or r.pending_council_at Error.no_council_rotation_pending
    require (leb (sat_add u64_max approved_at upgrade_delay_ns) env.block_timestamp)
        Error.council_rotation_too_young
    ok (record {
      state = record r { council = pending; pending_council = none; pending_council_at = none };
      effects = Effect.emit (Event.council_rotated pending env.predecessor_account_id) ∷ [];
    })

  unfoldable pub upgrade_self : Bytes → Registrar → Result Error Outcome
  upgrade_self code r = do
    assert_one_yocto env
    assert_council env r
    require (not (is_empty code)) Error.empty_code
    approved ← unwrap_or r.approved_code_hash Error.no_approved_hash
    require (env.sha256 code == approved) Error.hash_mismatch
    approved_at ← unwrap_or r.approved_at Error.no_approved_hash
    require (leb (sat_add u64_max approved_at upgrade_delay_ns) env.block_timestamp)
        Error.approval_too_young
    ok (record {
      state = record r { approved_code_hash = none; approved_at = none };
      effects = Effect.send (Promise.deploy_and_migrate code) Callback.no_callback ∷ [];
    })

  unfoldable pub seal : Bytes → Registrar → Result Error Outcome
  seal public_key r = do
    assert_one_yocto env
    assert_council env r
    require r.upgrade_proven Error.upgrade_not_proven
    ok (record {
      state = r;
      effects =
          Effect.send (Promise.delete_key public_key)
            (Callback.after_seal public_key env.predecessor_account_id)
          ∷ [];
    })

  -- The callback, with the value it returns.
  unfoldable pub after_seal : Bytes → AccountId → Registrar → Bool × Outcome
  after_seal public_key by r =
      if env.promise_success
      then (true, record { state = r; effects = Effect.emit (Event.sealed public_key by) ∷ [] })
      else (
        false,
        record { state = r; effects = Effect.emit (Event.seal_failed public_key by) ∷ [] },
      )

-- contracts/registrar/src/legacy.rs: the state before the council could rotate.
pub record RegistrarV1 : Type 0 where
  pub registry : AccountId
  pub council : AccountId
  pub wallet_impl : AccountId
  pub hos_extension : AccountId
  pub recovery : AccountId
  pub chain_id : ChainId
  pub min_balance : ℕ
  pub min_label_len : ℕ
  pub wallet_timeout_secs : ℕ
  pub approved_code_hash : Option CryptoHash
  pub approved_at : Option ℕ
  pub config_epoch : ℕ
  pub upgrade_proven : Bool

unfoldable pub from_v1 : RegistrarV1 → Registrar
from_v1 old = record {
  state_version = state_version;
  registry = old.registry;
  council = old.council;
  wallet_impl = old.wallet_impl;
  hos_extension = old.hos_extension;
  recovery = old.recovery;
  chain_id = old.chain_id;
  min_balance = old.min_balance;
  wallet_timeout_secs = old.wallet_timeout_secs;
  approved_code_hash = old.approved_code_hash;
  approved_at = old.approved_at;
  config_epoch = old.config_epoch;
  upgrade_proven = old.upgrade_proven;
  pending_council = none;
  pending_council_at = none;
}

-- The stored state as each version's reader finds it.
pub record Stored : Type 0 where
  pub version : Option ℕ
  pub now : Option Registrar
  pub v1 : Option RegistrarV1

abbrev read_as : {A : Type 0} → (A → Registrar) → Option A → Result Error Registrar
read_as from none = err Error.no_state
read_as from (some old) = ok (from old)

unfoldable pub migrate : Env → Stored → Result Error Outcome
unfolding from_v1
migrate env stored = do
  require (env.predecessor_account_id == env.current_account_id) Error.private_method
  deployed ← unwrap_or stored.version Error.no_state
  current ←
      (if deployed == state_version
        then read_as (λ r. r) stored.now
        else if deployed == 1
        then read_as from_v1 stored.v1
        else err Error.state_version_unknown)
  ok (record {
    state = record current {
      config_epoch = sat_add u32_max current.config_epoch 1;
      upgrade_proven = true;
    };
    effects = Effect.emit Event.self_upgraded ∷ [];
  })
