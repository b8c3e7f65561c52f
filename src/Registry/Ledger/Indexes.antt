-- ===== src/Registry/Ledger/Indexes.antt =====
-- contracts/tla-registry/src/indexes.rs: the ledger of leased names, with its indexes by owner and by
-- top-level account.
use tla_contracts.Prelude.{
  ℕ, ◌≡◌, Bool, true, false, Option, none, some, [], ◌==◌, ◌&&◌, ◌||◌, is_empty, length,
  if◌then◌else◌, arith, Option-cases, inl, inr,
}
use tla_contracts.Prelude.IdSet
use tla_contracts.Prelude.IdSet.{IdSet}
use tla_contracts.Prelude.IdMap
use tla_contracts.Near.{AccountId}
use tla_contracts.Registry.Ledger.Types.{SubAccountEntry}

-- The full name of a leased account, only compared here.
abbrev pub Key : Type 0
Key = ℕ

abbrev pub KeyIndex : Type 0
KeyIndex = IdMap.IdMap IdSet

abbrev set_or_empty : Option IdSet → IdSet
set_or_empty none = []
set_or_empty (some keys) = keys

unfoldable pub index_add : KeyIndex → AccountId → Key → KeyIndex
index_add index id key =
    IdMap.insert index id (IdSet.insert (set_or_empty (IdMap.get index id)) key)

-- The set that is left, or none of it.
abbrev put_back : KeyIndex → AccountId → IdSet → KeyIndex
put_back index id keys = if is_empty keys then IdMap.remove index id else IdMap.insert index id keys

abbrev remove_over : KeyIndex → AccountId → Key → Option IdSet → KeyIndex
remove_over index id key none = index
remove_over index id key (some keys) = put_back index id (IdSet.remove keys key)

unfoldable pub index_remove : KeyIndex → AccountId → Key → KeyIndex
index_remove index id key = remove_over index id key (IdMap.get index id)

-- The fields of `TlaRegistry` that this module writes; `claimed` is the keys stored under `claimed_key`.
pub record Ledger : Type 0 where
  pub sub_accounts : IdMap.IdMap SubAccountEntry
  pub sub_accounts_by_owner : KeyIndex
  pub sub_accounts_by_tla : KeyIndex
  pub claimed : IdSet

unfoldable pub sub_account_insert : Ledger → Key → SubAccountEntry → Ledger
sub_account_insert l key entry = record l {
  sub_accounts_by_owner = index_add l.sub_accounts_by_owner entry.owner key;
  sub_accounts_by_tla = index_add l.sub_accounts_by_tla entry.tla_id key;
  sub_accounts = IdMap.insert l.sub_accounts key entry;
}

abbrev drop_over : Ledger → Key → Option SubAccountEntry → Ledger
drop_over l key none = l
drop_over l key (some removed) = record l {
  sub_accounts = IdMap.remove l.sub_accounts key;
  sub_accounts_by_owner = index_remove l.sub_accounts_by_owner removed.owner key;
  sub_accounts_by_tla = index_remove l.sub_accounts_by_tla removed.tla_id key;
  claimed = IdSet.remove l.claimed key;
}

-- With the entry that it returns.
unfoldable pub sub_account_remove : Ledger → Key → Option SubAccountEntry × Ledger
sub_account_remove l key = let held = IdMap.get l.sub_accounts key in (held, drop_over l key held)

abbrev reassign_over : Ledger → Key → AccountId → AccountId → Option SubAccountEntry → Bool × Ledger
reassign_over l key owner payout none = (false, l)
reassign_over l key owner payout (some sub) = (
  true,
  record l {
    sub_accounts =
        IdMap.insert l.sub_accounts key (record sub { owner = owner; payout_account = payout });
    sub_accounts_by_owner =
        if sub.owner == owner
        then l.sub_accounts_by_owner
        else index_add (index_remove l.sub_accounts_by_owner sub.owner key) owner key;
  },
)

unfoldable pub sub_account_reassign : Ledger → Key → AccountId → AccountId → Bool × Ledger
sub_account_reassign l key owner payout =
    reassign_over l key owner payout (IdMap.get l.sub_accounts key)

unfoldable pub owner_supply : Ledger → AccountId → ℕ
owner_supply l owner = length (set_or_empty (IdMap.get l.sub_accounts_by_owner owner))

-- The index has the key under the id.
unfoldable pub is_listed : KeyIndex → AccountId → Key → Bool
is_listed index id key = IdSet.contains (set_or_empty (IdMap.get index id)) key

pub is_listed-index_add :
    (index : KeyIndex) (a b : AccountId) (k j : Key)
    → is_listed (index_add index a k) b j ≡ (((b == a) && (j == k)) || is_listed index b j)
unfolding is_listed index_add
is_listed-index_add index a b k j =
    let held = set_or_empty (IdMap.get index a) in
    ground (arith, IdMap.get-insert index a b (IdSet.insert held k), IdSet.contains-insert held k j)

pub is_listed-index_remove :
    (index : KeyIndex) (a b : AccountId) (k j : Key)
    → is_listed (index_remove index a k) b j
      ≡ (if (b == a) && (j == k) then false else is_listed index b j)
unfolding is_listed index_remove IdSet.contains
is_listed-index_remove index a b k j = elim (Option-cases (IdMap.get index a)) [
  | inl e ↦ ground (arith, e)
  | inr (keys, e) ↦ ground (
    arith,
    e,
    IdMap.get-insert index a b (IdSet.remove keys k),
    IdMap.get-remove index a b,
    IdSet.contains-remove keys k j,
  )
]
