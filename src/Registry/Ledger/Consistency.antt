-- ===== src/Registry/Ledger/Consistency.antt =====
-- contracts/tla-registry/src/indexes.rs: the indexes say what the ledger says.
use tla_contracts.Prelude.{
  ◌≡◌, Bool, false, Option, none, some, List, [], ◌∷◌, ◌==◌, arith, Option-cases, inl, inr,
}
use tla_contracts.Prelude.IdMap
use tla_contracts.Near.{AccountId}
use tla_contracts.Registry.Ledger.Types.{SubAccountEntry}
use tla_contracts.Registry.Ledger.Indexes.{
  Key, Ledger, index_remove, sub_account_insert, sub_account_remove, sub_account_reassign,
  is_listed, is_listed-index_add, is_listed-index_remove,
}

-- The writes that the registry makes, in the order in which it makes them.
pub data Write : Type 0 where
  lease : Key → SubAccountEntry → Write
  release : Key → Write
  reassign : Key → AccountId → AccountId → Write

unfoldable pub run_write : Ledger → Write → Ledger
run_write l (lease key entry) = sub_account_insert l key entry
run_write l (release key) = (sub_account_remove l key).1
run_write l (reassign key owner payout) = (sub_account_reassign l key owner payout).1

unfoldable pub run_writes : Ledger → List Write → Ledger
run_writes l [] = l
run_writes l (w ∷ ws) = run_writes (run_write l w) ws

-- A name is leased only while it is free.
abbrev IsFree : Ledger → Write → Type 0
IsFree l (lease key entry) = IdMap.get l.sub_accounts key ≡ none
IsFree l w = Unit

abbrev pub AreFree : Ledger → List Write → Type 0
AreFree l [] = Unit
AreFree l (w ∷ ws) = IsFree l w × AreFree (run_write l w) ws

abbrev is_owner : Option SubAccountEntry → AccountId → Bool
is_owner none id = false
is_owner (some entry) id = id == entry.owner

abbrev is_parent : Option SubAccountEntry → AccountId → Bool
is_parent none id = false
is_parent (some entry) id = id == entry.tla_id

module _ (id : AccountId) (key : Key) where
  -- The key is listed under the id exactly if the ledger has it for that owner, and the same for the
  -- top-level account.
  abbrev pub IsIndexed : Ledger → Type 0
  IsIndexed l =
      (is_listed l.sub_accounts_by_owner id key ≡ is_owner (IdMap.get l.sub_accounts key) id)
      × (is_listed l.sub_accounts_by_tla id key ≡ is_parent (IdMap.get l.sub_accounts key) id)

  run_write-IsIndexed :
      (l : Ledger) (w : Write) → IsFree l w → IsIndexed l → IsIndexed (run_write l w)
  unfolding run_write sub_account_insert sub_account_remove sub_account_reassign
  run_write-IsIndexed l (lease k entry) free h = ground (
    arith,
    free,
    h,
    IdMap.get-insert l.sub_accounts k key entry,
    is_listed-index_add l.sub_accounts_by_owner entry.owner id k key,
    is_listed-index_add l.sub_accounts_by_tla entry.tla_id id k key,
  )
  run_write-IsIndexed l (release k) free h = elim (Option-cases (IdMap.get l.sub_accounts k)) [
    | inl e ↦ ground (arith, e, h)
    | inr (entry, e) ↦ ground (
      arith,
      e,
      h,
      IdMap.get-remove l.sub_accounts k key,
      is_listed-index_remove l.sub_accounts_by_owner entry.owner id k key,
      is_listed-index_remove l.sub_accounts_by_tla entry.tla_id id k key,
    )
  ]
  run_write-IsIndexed l (reassign k owner payout) free h =
      elim (Option-cases (IdMap.get l.sub_accounts k)) [
        | inl e ↦ ground (arith, e, h)
        | inr (entry, e) ↦ ground (
          arith,
          e,
          h,
          IdMap.get-insert l.sub_accounts k key
              (record entry { owner = owner; payout_account = payout }),
          is_listed-index_remove l.sub_accounts_by_owner entry.owner id k key,
          is_listed-index_add (index_remove l.sub_accounts_by_owner entry.owner k) owner id k key,
        )
      ]

  -- As long as a name is leased only while it is free, the indexes by owner and by top-level account list
  -- a name under an account exactly if the ledger has it there, whatever leases, releases and changes of
  -- owner follow each other.
  pub run_writes-IsIndexed :
      (l : Ledger) (ws : List Write) → AreFree l ws → IsIndexed l → IsIndexed (run_writes l ws)
  unfolding run_writes
  run_writes-IsIndexed l [] free h = h
  run_writes-IsIndexed l (w ∷ ws) free h =
      run_writes-IsIndexed (run_write l w) ws free.1 (run_write-IsIndexed l w free.0 h)
