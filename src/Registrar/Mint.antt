-- ===== src/Registrar/Mint.antt =====
-- contracts/registrar/src/lib.rs: the set-up, and minting a sub-account with a wallet on it.
use tla_contracts.Prelude.{
  ℕ, ◌∷◌, ◌++◌, [], Bool, true, false, none, some, Option, leb, ltb, ◌==◌, ◌!=◌, not, ◌&&◌,
  is_empty, Result, ok, require, unwrap_or, ◌>>=◌, ◌>>◌, if◌then◌else◌,
}
use tla_contracts.Prelude.Codes.{has_code}
use tla_contracts.Near.{AccountId, Bytes, Env}
use tla_contracts.HosCommon.{MintOutcome}
use tla_contracts.Wallet.Types.{WalletInit}
use tla_contracts.Registrar.Types.{
  ChainId, RegistrarConfig, Registrar, Event, Promise, Callback, Effect, Error, Outcome,
  state_version, account_storage_floor,
}

-- The comparison of the chain id with the two names.
abbrev pub is_known_chain : ChainId → Bool
is_known_chain (ChainId.another_chain _) = false
is_known_chain _ = true

unfoldable pub new : Env → RegistrarConfig → Result Error Registrar
new env config = do
  require (is_known_chain config.chain_id) Error.bad_chain_id
  require (leb account_storage_floor config.min_balance) Error.bad_min_balance
  require (config.council != env.current_account_id) Error.council_is_self
  require (config.registry != env.current_account_id) Error.registry_is_self
  ok (record {
    state_version = state_version;
    registry = config.registry;
    council = config.council;
    wallet_impl = config.wallet_impl;
    hos_extension = config.hos_extension;
    recovery = config.recovery;
    chain_id = config.chain_id;
    min_balance = config.min_balance;
    wallet_timeout_secs = config.wallet_timeout_secs;
    approved_code_hash = none;
    approved_at = none;
    config_epoch = 0;
    upgrade_proven = false;
    pending_council = none;
    pending_council_at = none;
  })

-- `parse` reads an account id from its text.
unfoldable pub create_sub_account :
    (Bytes → Option AccountId)
    → Env
    → Bytes
    → AccountId
    → AccountId
    → ℕ
    → Registrar
    → Result Error Outcome
create_sub_account parse env name owner_account payout_account lease_until_ns r = do
  require (env.predecessor_account_id == r.registry) Error.only_registry
  require (not (is_empty name) && not (has_code name b'.')) Error.invalid_name
  require (ltb env.block_timestamp lease_until_ns) Error.lease_in_past
  let funding = env.attached_deposit
  require (leb r.min_balance funding) Error.insufficient_deposit
  account ←
      unwrap_or (parse (name ++ (b'.' ∷ env.as_str env.current_account_id))) Error.invalid_name
  require (payout_account != account) Error.payout_is_self
  require (owner_account != account) Error.owner_account_is_self
  let init_args : WalletInit = record {
    owner_account = owner_account;
    authority = r.hos_extension;
    collection_id = r.registry;
    payout_account = payout_account;
    lease_until_ns = lease_until_ns;
    timeout_secs = r.wallet_timeout_secs;
  }
  ok (record {
    state = r;
    effects =
        Effect.send (Promise.mint account funding r.wallet_impl init_args)
          (Callback.on_minted account owner_account funding)
        ∷ [];
  })

-- What the callback answers: the outcome, or the promise of the refund, whose callback answers it.
unfoldable pub on_minted :
    Env → AccountId → AccountId → ℕ → Registrar → Option MintOutcome × Outcome
on_minted env account owner_account funding r =
    if env.promise_success
    then (
      some MintOutcome.active,
      record {
        state = r;
        effects = Effect.emit (Event.sub_account_minted account owner_account) ∷ [];
      },
    )
    else (
      none,
      record {
        state = r;
        effects =
            Effect.emit (Event.mint_failed account)
            ∷ Effect.send (Promise.transfer r.registry funding) Callback.on_creation_failed
            ∷ [];
      },
    )

abbrev pub on_creation_failed : MintOutcome
on_creation_failed = MintOutcome.creation_failed
