-- ===== src/Wallet/Freeze.antt =====
-- contracts/hos-wallet/src/lib.rs: `hos_freeze` and `hos_unfreeze`.
use tla_contracts.Prelude.{
  Bool, true, false, not, ◌||◌, [], ◌∷◌, leb, ◌==◌, ◌!=◌, Result, ok, err, require, ◌>>=◌, ◌>>◌,
  sat_add, u64_max,
}
use tla_contracts.Prelude.IdSet
use tla_contracts.Prelude.IdSet.{IdSet}
use tla_contracts.Near.{Env}
use tla_contracts.HosCommon.{max_authority_hold_ns}
use tla_contracts.Wallet.Types.{TenantWallet, FreezeState, Error, Event, Effect, Outcome}
use tla_contracts.Wallet.Guards.{Check, assert_one_yocto, effective_frozen, is_unfrozen}

-- The owner or the authority, while it is in the extension set.
abbrev assert_party : Env → TenantWallet → Check
assert_party env w = do
  let caller = env.predecessor_account_id
  require (caller == w.authority || caller == w.owner) Error.unauthorized
  require (IdSet.contains w.wallet.extensions caller) Error.unauthorized

-- The branch of `hos_freeze` that the authority takes, and the owner's.
abbrev freeze_as : Env → Bool → TenantWallet → Result Error TenantWallet
freeze_as env true w = ok (record w { frozen = FreezeState.self_frozen })
freeze_as env false w = do
  let now = env.block_timestamp
  require (leb (sat_add u64_max w.authority_freeze_until_ns max_authority_hold_ns) now)
      Error.freeze_cooldown
  ok (record w {
    frozen = FreezeState.authority_frozen;
    authority_freeze_until_ns = sat_add u64_max now max_authority_hold_ns;
  })

unfoldable pub hos_freeze : Env → TenantWallet → Result Error Outcome
hos_freeze env w = do
  assert_one_yocto env
  assert_party env w
  require (is_unfrozen (effective_frozen env w)) Error.frozen
  let self_initiated = env.predecessor_account_id != w.authority
  w' ← freeze_as env self_initiated w
  ok (record { state = w'; effects = Effect.emit (Event.frozen self_initiated) ∷ [] })

abbrev assert_unfreezer : FreezeState → Bool → Check
assert_unfreezer FreezeState.unfrozen by_authority = err Error.not_frozen
assert_unfreezer FreezeState.self_frozen by_authority = require (not by_authority) Error.self_frozen
assert_unfreezer FreezeState.authority_frozen by_authority =
    require by_authority Error.authority_frozen

unfoldable pub hos_unfreeze : Env → TenantWallet → Result Error Outcome
hos_unfreeze env w = do
  assert_one_yocto env
  assert_party env w
  let by_authority = env.predecessor_account_id == w.authority
  assert_unfreezer (effective_frozen env w) by_authority
  ok (record {
    state = record w { frozen = FreezeState.unfrozen };
    effects = Effect.emit Event.unfrozen ∷ [];
  })
