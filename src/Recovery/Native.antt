-- ===== src/Recovery/Native.antt =====
-- contracts/mpc-recovery/src/lib.rs: recovering a native account, by a key that the signer adds.
use tla_contracts.Prelude.{
  ℕ, Bool, true, false, Option, none, some, List, [], ◌∷◌, ◌++◌, leb, ◌==◌, ◌||◌, ◌&&◌, length,
  if◌then◌else◌, Result, ok, err, require, unwrap_or, ◌>>=◌, ◌>>◌, sat_add, checked_add,
  checked_mul, u64_max,
}
use tla_contracts.Prelude.IdMap
use tla_contracts.Near.{AccountId, Bytes, Env, second_ns}
use tla_contracts.Recovery.Types.{
  Keys, PublicKey, Phase, Account, MpcRecovery, WatcherSignature, Verdict, Event, Promise, Callback,
  Effect, Error, Outcome, settled, accepts_request, resolving_owner, pending, abort_cooldown_ns,
  holder_abort_cooldown_ns, is_installer,
}
use tla_contracts.Recovery.Proofs.{request_message, verdict_message, verify, verify_quorum}
use tla_contracts.Recovery.Tx.{add_key_tx, to_hex}

-- The signatures that are 64 bytes long.
unfoldable pub read_signatures : List WatcherSignature → List (PublicKey × Bytes)
read_signatures [] = []
read_signatures (w ∷ ws) =
    let rest = read_signatures ws in
    if length w.signature == 64 then (w.public_key, w.signature) ∷ rest else rest

abbrev pub into_sig : Bytes → Result Error Bytes
into_sig bytes = if length bytes == 64 then ok bytes else err Error.bad_signature_len

-- "hos-recovery/"
abbrev pub path_prefix : Bytes
path_prefix =
    b'h' ∷ b'o' ∷ b's' ∷ b'-' ∷ b'r' ∷ b'e' ∷ b'c' ∷ b'o' ∷ b'v' ∷ b'e' ∷ b'r' ∷ b'y' ∷ b'/' ∷ []

abbrev pub native_path : Env → AccountId → Bytes
native_path env account = path_prefix ++ env.as_str account

-- The account's entry with another phase.
abbrev pub set_phase : AccountId → Account → Phase → MpcRecovery → MpcRecovery
set_phase account entry phase m = record m {
  accounts = IdMap.insert m.accounts account (record entry { phase = phase });
}

abbrev pub find_account : AccountId → MpcRecovery → Result Error Account
find_account account m = unwrap_or (IdMap.get m.accounts account) Error.no_policy

-- The request that a phase holds.
abbrev requested_of : Phase → Option (PublicKey × ℕ × ℕ)
requested_of (Phase.requested new_owner round requested_at) = some (new_owner, round, requested_at)
requested_of _ = none

abbrev approved_of : Phase → Option (PublicKey × ℕ)
approved_of (Phase.approved new_owner round) = some (new_owner, round)
approved_of _ = none

-- The round of a phase that can be aborted.
abbrev abortable : Phase → Option ℕ
abortable (Phase.requested _ round _) = some round
abortable (Phase.approved _ round) = some round
abortable (Phase.name_requested _ round _) = some round
abortable _ = none

abbrev is_approve : Verdict → Bool
is_approve Verdict.approve = true
is_approve Verdict.cancel = false

module _ (keys : Keys) (env : Env) where
  unfoldable pub request_recovery :
      AccountId → PublicKey → ℕ → Bytes → MpcRecovery → Result Error Outcome
  unfolding verify request_message
  request_recovery account new_owner round attestation m = do
    entry ← find_account account m
    require (settled entry.phase) Error.not_idle
    require (accepts_request entry.phase env.block_timestamp) Error.cooling_down
    require (round == entry.round) Error.stale_round
    let message =
        request_message keys env.as_str env.current_account_id account new_owner entry.round
    signature ← into_sig attestation
    require (verify keys message signature entry.policy.attestation_key) Error.bad_attestation
    next ← unwrap_or (checked_add u64_max entry.round 1) Error.round_exhausted
    ok (record {
      state = record m {
        accounts = IdMap.insert m.accounts account (record entry {
          phase = Phase.requested new_owner entry.round env.block_timestamp;
          round = next;
        });
      };
      effects = Effect.emit (Event.recovery_requested account entry.round new_owner) ∷ [];
    })

  unfoldable pub submit_verdict :
      AccountId → Verdict → List WatcherSignature → MpcRecovery → Result Error Outcome
  unfolding verify_quorum verdict_message read_signatures
  submit_verdict account verdict signatures m = do
    entry ← find_account account m
    (new_owner, round, requested_at) ← unwrap_or (requested_of entry.phase) Error.not_requested
    wait ←
        unwrap_or (checked_mul u64_max entry.policy.timelock_secs second_ns)
          Error.arithmetic_overflow
    due ← unwrap_or (checked_add u64_max requested_at wait) Error.arithmetic_overflow
    require (leb due env.block_timestamp) Error.timelock
    let message =
        verdict_message keys env.as_str env.current_account_id account new_owner round
          (is_approve verdict)
    require (verify_quorum keys message (read_signatures signatures) m.watchers m.threshold)
        Error.no_quorum
    if is_approve verdict
        then ok (record {
          state = set_phase account entry (Phase.approved new_owner round) m;
          effects = Effect.emit (Event.recovery_approved account round) ∷ [];
        })
        else ok (record {
          state = set_phase account entry Phase.idle m;
          effects = Effect.emit (Event.recovery_canceled account round) ∷ [];
        })

  abbrev pub sign_add_key : AccountId → PublicKey → ℕ → Bytes → PublicKey → ℕ → MpcRecovery → Effect
  sign_add_key account mpc_public_key nonce block_hash new_owner round m =
      let hash_hex = to_hex (
        keys.sha256
          (add_key_tx keys env.as_str account mpc_public_key nonce block_hash new_owner)) in
      Effect.send (Promise.sign m.signer (native_path env account) hash_hex)
        (Callback.on_signed account round hash_hex)

  unfoldable pub finalize_recovery : AccountId → ℕ → Bytes → MpcRecovery → Result Error Outcome
  unfolding to_hex add_key_tx
  finalize_recovery account nonce block_hash m = do
    entry ← find_account account m
    (new_owner, round) ← unwrap_or (approved_of entry.phase) Error.not_approved
    require (is_installer env m) Error.only_installer
    ok (record {
      state = set_phase account entry (Phase.resolving new_owner round) m;
      effects =
          sign_add_key account entry.policy.mpc_public_key nonce block_hash new_owner round m ∷ [];
    })

  unfoldable pub abort_recovery : AccountId → MpcRecovery → Result Error Outcome
  abort_recovery account m = do
    let by_holder = env.predecessor_account_id == account
    require (is_installer env m || by_holder) Error.only_installer_or_holder
    entry ← find_account account m
    round ← unwrap_or (abortable entry.phase) Error.not_active
    let hold = (if by_holder then holder_abort_cooldown_ns else abort_cooldown_ns)
    ok (record {
      state = set_phase account entry (Phase.cooldown (sat_add u64_max env.block_timestamp hold)) m;
      effects = Effect.emit (Event.aborted account round by_holder) ∷ [];
    })

  abbrev settle_over :
      AccountId → Bool → ℕ → Account → Option PublicKey → MpcRecovery → Bool × MpcRecovery
  settle_over account done round entry none m = (false, m)
  settle_over account done round entry (some new_owner) m = (
    true,
    set_phase account entry (if done then Phase.idle else Phase.approved new_owner round) m,
  )

  abbrev settle_entry : AccountId → ℕ → Bool → Option Account → MpcRecovery → Bool × MpcRecovery
  settle_entry account round done none m = (false, m)
  settle_entry account round done (some entry) m =
      settle_over account done round entry (resolving_owner entry.phase round) m

  unfoldable pub settle_resolving : AccountId → ℕ → Bool → MpcRecovery → Bool × MpcRecovery
  settle_resolving account round done m =
      settle_entry account round done (IdMap.get m.accounts account) m

  -- `signed`: whether the signer answered. What is returned is whether its signature is passed on.
  unfoldable pub on_signed : AccountId → ℕ → Bool → MpcRecovery → Bool × Outcome
  unfolding settle_resolving
  on_signed account round signed m =
      let (reverted, state) = settle_resolving account round false m in
      if signed && reverted
      then (
        true,
        record {
          state = state;
          effects = Effect.emit (Event.native_signature_produced account round) ∷ [];
        },
      )
      else (false, record { state = state; effects = [] })

  unfoldable pub claim_native_finalized : AccountId → ℕ → MpcRecovery → Result Error Outcome
  claim_native_finalized account round m = do
    require (is_installer env m) Error.only_installer
    entry ← find_account account m
    (_, approved_round) ← unwrap_or (approved_of entry.phase) Error.not_approved
    require (approved_round == round) Error.not_approved
    ok (record {
      state = set_phase account entry Phase.idle m;
      effects = Effect.emit (Event.finalized account round) ∷ [];
    })

unfoldable pub pending_target : MpcRecovery → AccountId → Option PublicKey
pending_target m account = elim (IdMap.get m.accounts account) [
  | none ↦ none
  | some a ↦ elim (pending a.phase) [ none ↦ none | some target ↦ some target.0 ]
]
