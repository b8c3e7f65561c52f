-- ===== src/Recovery/Policies.antt =====
-- contracts/mpc-recovery/src/lib.rs: arming, installing and resetting an account's recovery policy.
use tla_contracts.Prelude.{
  ℕ, Bool, true, false, Option, none, some, [], ◌∷◌, leb, ◌==◌, if◌then◌else◌, Result, ok, require,
  unwrap_or, ◌>>=◌, ◌>>◌,
}
use tla_contracts.Prelude.IdMap
use tla_contracts.Near.{AccountId, Env}
use tla_contracts.Recovery.Types.{
  Keys, PublicKey, ArmedPolicy, Phase, Account, MpcRecovery, Event, Effect, Error, Outcome, settled,
  min_timelock_secs, max_timelock_secs, is_ed25519, is_installer, assert_one_yocto,
}

-- `self.round_floor.get(&account).copied().unwrap_or(0)`, which is `round_floor_of`.
abbrev floor_or_zero : Option ℕ → ℕ
floor_or_zero none = 0
floor_or_zero (some round) = round

unfoldable pub round_floor_of : MpcRecovery → AccountId → ℕ
round_floor_of m account = floor_or_zero (IdMap.get m.round_floor account)

abbrev is_resolving : Phase → Bool
is_resolving (Phase.resolving _ _) = true
is_resolving _ = false

module _ (keys : Keys) (env : Env) where
  -- The bounds on a timelock that arming and installing share.
  abbrev pub assert_timelock : ℕ → Result Error (Unit {0})
  assert_timelock timelock_secs = do
    require (leb min_timelock_secs timelock_secs) Error.timelock_too_short
    require (leb timelock_secs max_timelock_secs) Error.timelock_too_long

  unfoldable pub arm_policy_install : PublicKey → ℕ → MpcRecovery → Result Error Outcome
  arm_policy_install attestation_key timelock_secs m = do
    assert_one_yocto env
    let account = env.predecessor_account_id
    require (is_ed25519 keys attestation_key) Error.attestation_not_ed25519
    assert_timelock timelock_secs
    ok (record {
      state = record m {
        armed =
            IdMap.insert m.armed account
              (record { attestation_key = attestation_key; timelock_secs = timelock_secs });
      };
      effects = Effect.emit (Event.policy_install_armed account attestation_key timelock_secs) ∷ [];
    })

  unfoldable pub disarm_policy_install : MpcRecovery → Result Error Outcome
  disarm_policy_install m = do
    assert_one_yocto env
    let account = env.predecessor_account_id
    require (IdMap.contains_key m.armed account) Error.not_armed
    ok (record {
      state = record m { armed = IdMap.remove m.armed account };
      effects = Effect.emit (Event.policy_install_disarmed account) ∷ [];
    })

  -- The match on the account's present policy: the round and the phase to go on with, and the policies
  -- that stay armed.
  abbrev pub install_over :
      AccountId
      → PublicKey
      → ℕ
      → MpcRecovery
      → Option Account
      → Result Error (ℕ × Phase × IdMap.IdMap ArmedPolicy)
  install_over account attestation_key timelock_secs m (some existing) = do
    require (settled existing.phase) Error.not_idle
    require (env.predecessor_account_id == m.owner) Error.only_owner_reinstall
    ok (existing.round, existing.phase, m.armed)
  install_over account attestation_key timelock_secs m none = do
    armed ← unwrap_or (IdMap.get m.armed account) Error.not_armed
    require (armed.attestation_key == attestation_key) Error.armed_key_mismatch
    require (armed.timelock_secs == timelock_secs) Error.armed_timelock_mismatch
    ok (round_floor_of m account, Phase.idle, IdMap.remove m.armed account)

  unfoldable pub install_policy :
      AccountId → PublicKey → PublicKey → ℕ → MpcRecovery → Result Error Outcome
  unfolding round_floor_of
  install_policy account mpc_public_key attestation_key timelock_secs m = do
    require (is_installer env m) Error.only_installer
    assert_timelock timelock_secs
    require (is_ed25519 keys attestation_key) Error.attestation_not_ed25519
    require (is_ed25519 keys mpc_public_key) Error.mpc_not_ed25519
    (round, phase, armed) ←
        install_over account attestation_key timelock_secs m (IdMap.get m.accounts account)
    ok (record {
      state = record m {
        armed = armed;
        accounts = IdMap.insert m.accounts account (record {
          policy = record {
            mpc_public_key = mpc_public_key;
            attestation_key = attestation_key;
            timelock_secs = timelock_secs;
          };
          round = round;
          phase = phase;
        });
      };
      effects =
          Effect.emit (Event.policy_installed account timelock_secs mpc_public_key attestation_key)
          ∷ [];
    })

  -- The rest of `on_wallet_transferred`, on the account's present policy.
  abbrev reset_over : AccountId → MpcRecovery → Option Account → Bool × Outcome
  reset_over wallet m none = (true, record { state = m; effects = [] })
  reset_over wallet m (some account) =
      if is_resolving account.phase
      then (
        false,
        record {
          state = m;
          effects = Effect.emit (Event.policy_reset_deferred wallet account.round) ∷ [];
        },
      )
      else (
        true,
        record {
          state = record m {
            round_floor = IdMap.insert m.round_floor wallet account.round;
            accounts = IdMap.remove m.accounts wallet;
          };
          effects = Effect.emit (Event.policy_reset wallet) ∷ [];
        },
      )

  unfoldable pub on_wallet_transferred : AccountId → MpcRecovery → Result Error (Bool × Outcome)
  on_wallet_transferred wallet m = do
    require (env.predecessor_account_id == m.transfer_authority) Error.only_transfer_authority
    ok (reset_over wallet m (IdMap.get m.accounts wallet))

unfoldable pub round_of : MpcRecovery → AccountId → Option ℕ
round_of m account = elim (IdMap.get m.accounts account) [ none ↦ none | some a ↦ some a.round ]
