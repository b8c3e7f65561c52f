-- ===== src/Extension/Upgrade.antt =====
-- contracts/hos-extension/src/lib.rs, legacy.rs: the set-up, upgrading the extension, and sealing its
-- keys.
use tla_contracts.Prelude.{
  ℕ, Bool, true, false, Option, none, some, [], ◌∷◌, leb, ◌==◌, ◌!=◌, not, is_empty, if◌then◌else◌,
  Result, ok, err, require, unwrap_or, ◌>>=◌, ◌>>◌, sat_add, sat_mul, u64_max, u128_max, ◌-◌,
}
use tla_contracts.Prelude.IdSet.{IdSet}
use tla_contracts.Near.{AccountId, CryptoHash, Bytes, Env}
use tla_contracts.Extension.Types.{
  HosExtension, SweepSet, Event, Promise, Callback, Effect, Error, Outcome, contract_version,
  state_version, upgrade_delay_ns, skim_buffer, assert_admin, assert_council, assert_one_yocto,
}

unfoldable pub new :
    Env → AccountId → AccountId → AccountId → AccountId → AccountId → Result Error HosExtension
new env admin registry recovery treasury council = do
  require (council != env.current_account_id) Error.council_is_self
  ok (record {
    state_version = state_version;
    admins = admin ∷ [];
    registry = registry;
    recovery = recovery;
    paused = false;
    version = contract_version;
    treasury = treasury;
    approved_code_hash = none;
    approved_at = none;
    council = council;
    paused_until_ns = 0;
    recovery_reset_pending = [];
    sweep_pending = [];
    upgrade_proven = false;
    pending_council = none;
    pending_council_at = none;
    pending_treasury = none;
    pending_treasury_at = none;
  })

module _ (env : Env) where
  unfoldable pub approve_upgrade : CryptoHash → HosExtension → Result Error Outcome
  approve_upgrade code_hash x = do
    assert_one_yocto env
    assert_council env x
    ok (record {
      state = record x {
        approved_code_hash = some code_hash;
        approved_at = some env.block_timestamp;
      };
      effects = Effect.emit (Event.upgrade_approved code_hash env.predecessor_account_id) ∷ [];
    })

  unfoldable pub upgrade : Bytes → HosExtension → Result Error Outcome
  upgrade code x = do
    assert_one_yocto env
    assert_admin env x
    require (not (is_empty code)) Error.empty_code
    approved ← unwrap_or x.approved_code_hash Error.no_approved_hash
    require (env.sha256 code == approved) Error.hash_mismatch
    approved_at ← unwrap_or x.approved_at Error.no_approved_hash
    require (leb (sat_add u64_max approved_at upgrade_delay_ns) env.block_timestamp)
        Error.approval_too_young
    ok (record {
      state = record x { approved_code_hash = none; approved_at = none };
      effects = Effect.send (Promise.deploy_and_migrate code) Callback.no_callback ∷ [];
    })

  unfoldable pub seal : Bytes → HosExtension → Result Error Outcome
  seal public_key x = do
    assert_one_yocto env
    assert_council env x
    require x.upgrade_proven Error.upgrade_not_proven
    ok (record {
      state = x;
      effects =
          Effect.send (Promise.delete_key public_key)
            (Callback.after_seal public_key env.predecessor_account_id)
          ∷ [];
    })

  -- The callback, with the value it returns.
  unfoldable pub after_seal : Bytes → AccountId → HosExtension → Bool × Outcome
  after_seal public_key by x =
      if env.promise_success
      then (true, record { state = x; effects = Effect.emit (Event.sealed public_key by) ∷ [] })
      else (
        false,
        record { state = x; effects = Effect.emit (Event.seal_failed public_key by) ∷ [] },
      )

  -- What `skim` leaves in the account.
  unfoldable pub skim_reserve : ℕ
  skim_reserve =
      sat_add u128_max (sat_mul u128_max env.storage_byte_cost env.storage_usage) skim_buffer

  unfoldable pub skim : ℕ → HosExtension → Result Error Outcome
  unfolding skim_reserve
  skim amount x = do
    assert_one_yocto env
    assert_admin env x
    require (leb amount (env.account_balance - skim_reserve)) Error.insufficient_balance
    ok (record {
      state = x;
      effects =
          Effect.send (Promise.transfer x.treasury amount)
            (Callback.after_skim amount x.treasury env.predecessor_account_id)
          ∷ [];
    })

  unfoldable pub after_skim : ℕ → AccountId → AccountId → HosExtension → Bool × Outcome
  after_skim amount to by x =
      if env.promise_success
      then (
        true,
        record { state = x; effects = Effect.emit (Event.balance_skimmed amount to by) ∷ [] },
      )
      else (
        false,
        record { state = x; effects = Effect.emit (Event.skim_failed amount to by) ∷ [] },
      )

-- contracts/hos-extension/src/legacy.rs: the states before the treasury could rotate.
pub record HosExtensionV3 : Type 0 where
  pub admins : IdSet
  pub registry : AccountId
  pub recovery : AccountId
  pub paused : Bool
  pub version : ℕ
  pub treasury : AccountId
  pub approved_code_hash : Option CryptoHash
  pub approved_at : Option ℕ
  pub council : AccountId
  pub paused_until_ns : ℕ
  pub recovery_reset_pending : IdSet
  pub sweep_pending : SweepSet
  pub upgrade_proven : Bool
  pub pending_council : Option AccountId
  pub pending_council_at : Option ℕ

unfoldable pub from_v3 : HosExtensionV3 → HosExtension
from_v3 old = record {
  state_version = state_version;
  admins = old.admins;
  registry = old.registry;
  recovery = old.recovery;
  paused = old.paused;
  version = old.version;
  treasury = old.treasury;
  approved_code_hash = old.approved_code_hash;
  approved_at = old.approved_at;
  council = old.council;
  paused_until_ns = old.paused_until_ns;
  recovery_reset_pending = old.recovery_reset_pending;
  sweep_pending = old.sweep_pending;
  upgrade_proven = old.upgrade_proven;
  pending_council = old.pending_council;
  pending_council_at = old.pending_council_at;
  pending_treasury = none;
  pending_treasury_at = none;
}

-- Before sweeps were recorded.
pub record HosExtensionV2 : Type 0 where
  pub admins : IdSet
  pub registry : AccountId
  pub recovery : AccountId
  pub paused : Bool
  pub version : ℕ
  pub treasury : AccountId
  pub approved_code_hash : Option CryptoHash
  pub approved_at : Option ℕ
  pub council : AccountId
  pub paused_until_ns : ℕ
  pub recovery_reset_pending : IdSet
  pub upgrade_proven : Bool
  pub pending_council : Option AccountId
  pub pending_council_at : Option ℕ

unfoldable pub from_v2 : HosExtensionV2 → HosExtension
from_v2 old = record {
  state_version = state_version;
  admins = old.admins;
  registry = old.registry;
  recovery = old.recovery;
  paused = old.paused;
  version = old.version;
  treasury = old.treasury;
  approved_code_hash = old.approved_code_hash;
  approved_at = old.approved_at;
  council = old.council;
  paused_until_ns = old.paused_until_ns;
  recovery_reset_pending = old.recovery_reset_pending;
  sweep_pending = [];
  upgrade_proven = old.upgrade_proven;
  pending_council = old.pending_council;
  pending_council_at = old.pending_council_at;
  pending_treasury = none;
  pending_treasury_at = none;
}

-- Before the council could rotate.
pub record HosExtensionV1 : Type 0 where
  pub admins : IdSet
  pub registry : AccountId
  pub recovery : AccountId
  pub paused : Bool
  pub version : ℕ
  pub treasury : AccountId
  pub approved_code_hash : Option CryptoHash
  pub approved_at : Option ℕ
  pub council : AccountId
  pub paused_until_ns : ℕ
  pub recovery_reset_pending : IdSet
  pub upgrade_proven : Bool

unfoldable pub from_v1 : HosExtensionV1 → HosExtension
from_v1 old = record {
  state_version = state_version;
  admins = old.admins;
  registry = old.registry;
  recovery = old.recovery;
  paused = old.paused;
  version = old.version;
  treasury = old.treasury;
  approved_code_hash = old.approved_code_hash;
  approved_at = old.approved_at;
  council = old.council;
  paused_until_ns = old.paused_until_ns;
  recovery_reset_pending = old.recovery_reset_pending;
  sweep_pending = [];
  upgrade_proven = old.upgrade_proven;
  pending_council = none;
  pending_council_at = none;
  pending_treasury = none;
  pending_treasury_at = none;
}

-- The stored state as each version's reader finds it.
pub record Stored : Type 0 where
  pub version : Option ℕ
  pub v4 : Option HosExtension
  pub v3 : Option HosExtensionV3
  pub v2 : Option HosExtensionV2
  pub v1 : Option HosExtensionV1

abbrev read_as : {A : Type 0} → (A → HosExtension) → Option A → Result Error HosExtension
read_as from none = err Error.no_state
read_as from (some old) = ok (from old)

unfoldable pub migrate : Env → Stored → Result Error Outcome
unfolding from_v1 from_v2 from_v3
migrate env stored = do
  require (env.predecessor_account_id == env.current_account_id) Error.private_method
  deployed ← unwrap_or stored.version Error.no_state
  current ←
      (if deployed == state_version
        then read_as (λ x. x) stored.v4
        else if deployed == 3
        then read_as from_v3 stored.v3
        else if deployed == 2
        then read_as from_v2 stored.v2
        else if deployed == 1
        then read_as from_v1 stored.v1
        else err Error.state_version_unknown)
  ok (record {
    state = record current { version = contract_version; upgrade_proven = true };
    effects = Effect.emit (Event.upgraded env.predecessor_account_id) ∷ [];
  })
