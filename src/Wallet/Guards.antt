-- ===== src/Wallet/Guards.antt =====
-- contracts/hos-wallet/src/lib.rs: the checks that the entry points share.
use tla_contracts.Prelude.{
  ℕ, ◌-◌, Bool, true, false, not, ◌&&◌, Option, none, some, List, [], ◌∷◌, leb, ◌==◌, if◌then◌else◌,
  Result, ok, err, require, ◌>>=◌, ◌>>◌, sat_add, sat_mul, checked_add, unwrap_or, u128_max,
}
use tla_contracts.Prelude.IdSet.{contains}
use tla_contracts.Near.{AccountId, Env, one_yocto}
use tla_contracts.HosCommon.{is_active}
use tla_contracts.Wallet.Types.{
  TenantWallet, FreezeState, ItemStatus, Actor, extension, signed_request, Error, NearPromise,
  Upstream, renter_buffer,
}

abbrev pub Check : Type 0
Check = Result Error (Unit {0})

abbrev pub is_unfrozen : FreezeState → Bool
is_unfrozen FreezeState.unfrozen = true
is_unfrozen _ = false

abbrev pub is_self_frozen : FreezeState → Bool
is_self_frozen FreezeState.self_frozen = true
is_self_frozen _ = false

abbrev pub is_authority_frozen : FreezeState → Bool
is_authority_frozen FreezeState.authority_frozen = true
is_authority_frozen _ = false

abbrev pub assert_one_yocto : Env → Check
assert_one_yocto env = require (env.attached_deposit == one_yocto) Error.one_yocto

unfoldable pub effective_frozen : Env → TenantWallet → FreezeState
effective_frozen env w =
    if is_authority_frozen w.frozen && leb w.authority_freeze_until_ns env.block_timestamp
    then FreezeState.unfrozen
    else w.frozen

unfoldable pub lease_expired : Env → TenantWallet → Bool
lease_expired env w = leb w.lease_until_ns env.block_timestamp

unfoldable pub blocking_condition : Env → TenantWallet → Option ItemStatus
unfolding effective_frozen lease_expired
blocking_condition env w =
    if not (is_active w.state)
    then some ItemStatus.suspended
    else if lease_expired env w
    then some ItemStatus.expired
    else if not (is_unfrozen (effective_frozen env w))
    then some ItemStatus.frozen
    else none

abbrev blocked : Option ItemStatus → Check
blocked none = ok tt
blocked (some ItemStatus.expired) = err Error.lease_expired
blocked (some ItemStatus.frozen) = err Error.frozen
blocked (some _) = err Error.not_active

unfoldable pub assert_renter_active : Env → TenantWallet → Check
unfolding blocking_condition
assert_renter_active env w = blocked (blocking_condition env w)

abbrev pub assert_authority : Env → TenantWallet → Check
assert_authority env w = require (env.predecessor_account_id == w.authority) Error.only_authority

unfoldable pub assert_sweepable : Env → TenantWallet → Check
unfolding lease_expired
assert_sweepable env w = do assert_authority env w; require (lease_expired env w) Error.lease_active

abbrev pub actor_is : Actor → AccountId → Bool
actor_is (extension id) account = id == account
actor_is signed_request account = false

abbrev pub is_authority : Actor → AccountId → Bool
is_authority = actor_is

unfoldable pub assert_renter : Actor → TenantWallet → Check
assert_renter actor w = require (not (is_authority actor w.authority)) Error.only_renter

unfoldable pub assert_owner : Actor → TenantWallet → Check
assert_owner signed_request w = err Error.only_owner
assert_owner (extension id) w = do
  require (id == w.owner) Error.only_owner
  require (contains w.wallet.extensions w.owner) Error.only_owner

-- The authority reaches the extension set only once the lease has ended.
unfoldable pub assert_extension_editor : Env → Actor → TenantWallet → Check
unfolding lease_expired assert_owner assert_renter_active
assert_extension_editor env actor w =
    if is_authority actor w.authority
    then require (lease_expired env w) Error.extensions_locked
    else (do assert_owner actor w; assert_renter_active env w)

unfoldable pub assert_owner_caller : Env → TenantWallet → Check
assert_owner_caller env w = do
  let caller = env.predecessor_account_id
  require (caller == w.owner) Error.only_owner
  require (contains w.wallet.extensions caller) Error.unauthorized

unfoldable pub check_lockout : TenantWallet → Check
check_lockout w = elim w.wallet.extensions [ [] ↦ err Error.lockout | _ ∷ _ ↦ ok tt ]

-- The balance that storage locks, with the renter's buffer.
unfoldable pub reserve : Env → ℕ
reserve env =
    sat_add u128_max (sat_mul u128_max env.storage_byte_cost env.storage_usage) renter_buffer

unfoldable pub total_deposits : Upstream → ℕ → List NearPromise → Option ℕ
total_deposits up acc [] = some acc
total_deposits up acc (p ∷ ps) = elim (checked_add u128_max acc (up.total_deposit p)) [
  | none ↦ none
  | some total ↦ total_deposits up total ps
]

unfoldable pub assert_within_reserve : Upstream → Env → List NearPromise → Check
unfolding total_deposits reserve
assert_within_reserve up env external = do
  total ← unwrap_or (total_deposits up 0 external) Error.deposit_overflow
  require (leb (reserve env) (env.account_balance - total)) Error.reserve_breach
