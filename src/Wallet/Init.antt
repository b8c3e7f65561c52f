-- ===== src/Wallet/Init.antt =====
-- contracts/hos-wallet/src/lib.rs: `hos_init` and `hos_migrate`.
use tla_contracts.Prelude.{
  ℕ, ◌+◌, ◌*◌, Bool, false, not, ◌&&◌, ◌||◌, Option, none, some, [], ◌∷◌, ltb, leb, ◌==◌, ◌!=◌,
  is_empty, Result, ok, require, unwrap_or, ◌>>=◌, ◌>>◌,
}
use tla_contracts.Prelude.Codes.{strip_suffix, has_code}
use tla_contracts.Prelude.IdSet
use tla_contracts.Prelude.IdSet.{IdSet}
use tla_contracts.Near.{AccountId, Bytes, Env}
use tla_contracts.HosCommon.{OperatingState}
use tla_contracts.Wallet.Types.{
  TenantWallet, FreezeState, Error, Upstream, Event, Effect, Outcome, WalletInit, state_version,
  min_timeout_secs, max_timeout_secs,
}

-- `child` is one label in front of `parent`.
unfoldable pub is_direct_subaccount : Env → AccountId → AccountId → Bool
is_direct_subaccount env child parent = elim (strip_suffix (env.as_str child) (env.as_str parent)) [
  | none ↦ false
  | some prefix ↦ elim (strip_suffix prefix (b'.' ∷ [])) [
    | none ↦ false
    | some label ↦ not (is_empty label) && not (has_code label b'.')
  ]
]

unfoldable pub hos_init : Upstream → Env → WalletInit → Result Error Outcome
hos_init up env config = do
  let current = env.current_account_id
  require (is_direct_subaccount env current env.predecessor_account_id) Error.only_parent
  require (ltb env.block_timestamp config.lease_until_ns) Error.lease_in_past
  require (leb min_timeout_secs config.timeout_secs && leb config.timeout_secs max_timeout_secs)
      Error.invalid_timeout
  require (config.authority != current) Error.authority_is_self
  require (config.payout_account != current) Error.payout_is_self
  require (config.owner_account != current) Error.owner_is_self
  require (config.owner_account != config.authority) Error.unauthorized
  require (config.collection_id != current) Error.collection_is_self
  ok (record {
    state = record {
      state_version = state_version;
      wallet = record {
        signature_enabled = false;
        nonces = up.new_nonces config.timeout_secs;
        extensions = IdSet.collect (config.owner_account ∷ config.authority ∷ []);
      };
      authority = config.authority;
      owner = config.owner_account;
      collection_id = config.collection_id;
      payout_account = config.payout_account;
      lease_until_ns = config.lease_until_ns;
      state = OperatingState.active;
      frozen = FreezeState.unfrozen;
      authority_freeze_until_ns = 0;
      spend_grants = [];
      revert_to = none;
      revert_until_ns = 0;
      rotation_seq = 0;
      pinned_impl = none;
      approved_impl = none;
      approved_impl_at = 0;
    };
    effects = Effect.emit (Event.wallet_initialized config.owner_account) ∷ [];
  })

-- The version in the first two bytes of the stored state, little endian.
abbrev stored_version : Bytes → Option ℕ
stored_version (lo ∷ hi ∷ _) = some (lo + 256 * hi)
stored_version _ = none

-- `read_state` is the derived `try_from_slice` at the version this code understands.
unfoldable pub hos_migrate :
    (Bytes → Option TenantWallet) → Env → Option Bytes → AccountId → Result Error TenantWallet
hos_migrate read_state env stored collection_id = do
  raw ← unwrap_or stored Error.no_state
  deployed ← unwrap_or (stored_version raw) Error.no_state
  require (deployed == state_version) Error.state_version_unknown
  current ← unwrap_or (read_state raw) Error.no_state
  let caller = env.predecessor_account_id
  require (caller == current.authority || caller == env.current_account_id) Error.only_authority
  require (current.owner != current.authority) Error.unauthorized
  require (IdSet.contains current.wallet.extensions current.owner) Error.only_owner
  require (IdSet.contains current.wallet.extensions current.authority) Error.authority_protected
  require (collection_id == current.collection_id) Error.collection_moved
  ok current
