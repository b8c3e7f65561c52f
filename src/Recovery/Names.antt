-- ===== src/Recovery/Names.antt =====
-- contracts/mpc-recovery/src/lib.rs: recovering a leased account, which the registry then moves.
use tla_contracts.Prelude.{
  ℕ, Bool, true, false, Option, none, some, List, [], ◌∷◌, ◌++◌, leb, ltb, ◌==◌, if◌then◌else◌,
  Result, ok, require, unwrap_or, ◌>>=◌, ◌>>◌, checked_add, checked_mul, u64_max,
}
use tla_contracts.Prelude.IdMap
use tla_contracts.Near.{AccountId, Bytes, Env, second_ns}
use tla_contracts.Recovery.Types.{
  Keys, Phase, Account, MpcRecovery, WatcherSignature, Event, Promise, Callback, Effect, Error,
  Outcome, settled, accepts_request, name_pending, name_resolving_at, is_installer,
  assert_one_yocto,
}
use tla_contracts.Recovery.Proofs.{
  name_request_message, name_recovery_message, verify, verify_quorum,
}
use tla_contracts.Recovery.Native.{into_sig, read_signatures, set_phase, find_account}

abbrev pub leased_account_id : Keys → Env → AccountId → Bytes → Result Error AccountId
leased_account_id keys env tla_id name =
    unwrap_or (keys.parse (name ++ (b'.' ∷ env.as_str tla_id))) Error.invalid_leased_account

module _ (keys : Keys) (env : Env) where
  unfoldable pub request_name_recovery :
      AccountId → Bytes → AccountId → Bytes → MpcRecovery → Result Error Outcome
  unfolding verify name_request_message
  request_name_recovery tla_id name new_owner attestation m = do
    account ← leased_account_id keys env tla_id name
    entry ← find_account account m
    require (settled entry.phase) Error.not_idle
    require (accepts_request entry.phase env.block_timestamp) Error.cooling_down
    let message =
        name_request_message keys env.as_str env.current_account_id tla_id name new_owner
          entry.round
    signature ← into_sig attestation
    require (verify keys message signature entry.policy.attestation_key) Error.bad_attestation
    next ← unwrap_or (checked_add u64_max entry.round 1) Error.round_exhausted
    ok (record {
      state = record m {
        accounts = IdMap.insert m.accounts account (record entry {
          phase = Phase.name_requested new_owner entry.round env.block_timestamp;
          round = next;
        });
      };
      effects = Effect.emit (Event.name_recovery_requested tla_id name new_owner entry.round) ∷ [];
    })

  unfoldable pub recover_name :
      AccountId
      → Bytes
      → AccountId
      → AccountId
      → ℕ
      → List WatcherSignature
      → MpcRecovery
      → Result Error Outcome
  unfolding verify_quorum name_recovery_message read_signatures
  recover_name tla_id name new_owner expected_owner deadline_ns signatures m = do
    assert_one_yocto env
    registry ← unwrap_or m.registry Error.no_registry
    require (ltb env.block_timestamp deadline_ns) Error.quorum_expired
    account ← leased_account_id keys env tla_id name
    entry ← find_account account m
    timelock_ns ←
        unwrap_or (checked_mul u64_max entry.policy.timelock_secs second_ns) Error.timelock_too_long
    (pending_owner, round, requested_at) ←
        unwrap_or (name_pending entry.phase) Error.name_not_requested
    require (pending_owner == new_owner) Error.destination_changed
    due ← unwrap_or (checked_add u64_max requested_at timelock_ns) Error.timelock_too_long
    require (leb due env.block_timestamp) Error.timelock_active
    let message =
        name_recovery_message keys env.as_str env.current_account_id tla_id name new_owner
          expected_owner deadline_ns round
    require (verify_quorum keys message (read_signatures signatures) m.watchers m.threshold)
        Error.no_quorum
    ok (record {
      state = set_phase account entry (Phase.name_resolving new_owner round requested_at) m;
      effects =
          Effect.emit (Event.name_recovery_approved tla_id name new_owner)
          ∷ Effect.send (Promise.recover_sub_account registry tla_id name new_owner expected_owner)
              (Callback.on_name_recovered account round)
          ∷ [];
    })

abbrev settle_over :
    AccountId → ℕ → Bool → Account → Option (AccountId × ℕ) → MpcRecovery → Bool × MpcRecovery
settle_over account round done entry none m = (false, m)
settle_over account round done entry (some (new_owner, requested_at)) m = (
  true,
  set_phase account entry
      (if done then Phase.idle else Phase.name_requested new_owner round requested_at) m,
)

abbrev settle_entry : AccountId → ℕ → Bool → Option Account → MpcRecovery → Bool × MpcRecovery
settle_entry account round done none m = (false, m)
settle_entry account round done (some entry) m =
    settle_over account round done entry (name_resolving_at entry.phase round) m

unfoldable pub settle_name_resolving : AccountId → ℕ → Bool → MpcRecovery → Bool × MpcRecovery
settle_name_resolving account round done m =
    settle_entry account round done (IdMap.get m.accounts account) m

-- What it returns is whether the registry's call succeeded.
unfoldable pub on_name_recovered : Env → AccountId → ℕ → MpcRecovery → Bool × Outcome
unfolding settle_name_resolving
on_name_recovered env account round m =
    let settled = env.promise_success in
    (settled, record { state = (settle_name_resolving account round settled m).1; effects = [] })

unfoldable pub claim_name_finalized :
    Env → AccountId → ℕ → Bool → MpcRecovery → Result Error Outcome
unfolding settle_name_resolving
claim_name_finalized env account round settled m = do
  require (is_installer env m) Error.only_installer
  let (active, state) = settle_name_resolving account round settled m
  require active Error.not_active
  ok (record { state = state; effects = Effect.emit (Event.finalized account round) ∷ [] })
