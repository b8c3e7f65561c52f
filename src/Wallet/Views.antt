-- ===== src/Wallet/Views.antt =====
-- contracts/hos-wallet/src/lib.rs: the views, and the resolution of an authorization (NEP-641).
use tla_contracts.Prelude.{
  ℕ, Bool, not, Option, none, some, List, [], ◌∷◌, leb, ◌!=◌, if◌then◌else◌, is_none, Result, ok,
  require, unwrap_or, ◌>>=◌, ◌>>◌, String,
}
use tla_contracts.Prelude.IdSet
use tla_contracts.Prelude.IdMap
use tla_contracts.Prelude.IdMap.{IdMap}
use tla_contracts.Prelude.IdSet.{IdSet}
use tla_contracts.Near.{AccountId, Env}
use tla_contracts.Wallet.Types.{TenantWallet, Error, Upstream, ItemStatus}
use tla_contracts.Wallet.Guards.{effective_frozen, blocking_condition, is_authority_frozen}

-- What a consumer that pairs the item with its collection reads.
pub record NftItemInfo : Type 0 where
  pub init : Bool
  pub status : ItemStatus
  pub collection_id : AccountId
  pub token_id : AccountId
  pub owner_id : AccountId
  pub rotation_seq : ℕ
  pub rotation_epoch : ℕ

abbrev pub rotation_epoch : ℕ
rotation_epoch = 4

pub record PendingAuthorization : Type 0 where
  pub account_id : AccountId
  pub authorization : String
  pub expect : String

pub record AuthorizationResolution : Type 0 where
  pub payload : String
  pub pending : List PendingAuthorization

abbrev or_active : Option ItemStatus → ItemStatus
or_active none = ItemStatus.active
or_active (some status) = status

module _ (env : Env) where
  unfoldable pub item_status : TenantWallet → ItemStatus
  item_status w =
      if not (IdSet.contains w.wallet.extensions w.owner)
      then ItemStatus.parked
      else or_active (blocking_condition env w)

  unfoldable pub nft_item_info : TenantWallet → NftItemInfo
  nft_item_info w = record {
    init = IdSet.contains w.wallet.extensions w.owner;
    status = item_status w;
    collection_id = w.collection_id;
    token_id = env.current_account_id;
    owner_id = w.owner;
    rotation_seq = w.rotation_seq;
    rotation_epoch = rotation_epoch;
  }

  unfoldable pub hos_freeze_expiry : TenantWallet → ℕ
  hos_freeze_expiry w =
      if is_authority_frozen (effective_frozen env w) then w.authority_freeze_until_ns else 0

  unfoldable pub hos_revert_window : TenantWallet → Option (AccountId × ℕ)
  hos_revert_window w =
      if leb w.revert_until_ns env.block_timestamp
      then none
      else elim w.revert_to [ none ↦ none | some to ↦ some (to, w.revert_until_ns) ]

-- The account holds no key: it points at the owner that the blob names, who must be one.
unfoldable pub w_resolve_auth :
    Upstream → String → TenantWallet → Result Error AuthorizationResolution
w_resolve_auth up authorization w = do
  blob ← unwrap_or (up.read_blob authorization) Error.authorization_not_json
  require (blob.owner != w.authority) Error.authority_not_owner
  require (is_none (IdMap.get w.spend_grants blob.owner)) Error.grantee_not_owner
  require (IdSet.contains w.wallet.extensions blob.owner) Error.not_an_owner
  ok (record {
    payload = blob.payload;
    pending =
        record {
          account_id = blob.owner;
          authorization = blob.authorization;
          expect = blob.payload;
        }
        ∷ [];
  })
