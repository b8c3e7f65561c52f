-- ===== src/Registry/Ledger/Tests.antt =====
-- contracts/tla-registry/src: entries of the lease ledger at work, and each theorem about them.
use tla_contracts.Prelude.{
  ◌+◌, ◌*◌, ◌≡◌, ◌≤◌, ◌↔◌, refl, none, some, List, [], ◌∷◌, ok, length, arith,
}
use tla_contracts.Prelude.IdMap
use tla_contracts.Prelude.IdSet
use tla_contracts.Near.{Bytes, day_ns}
use tla_contracts.Registry.Ledger.Types.{
  TlaType, TlaStatus, TlaEntry, SubAccountEntry, PremiumCategory, LifecycleStatus, LifecycleClock,
  multiplier,
}
use tla_contracts.Registry.Ledger.Lifecycle.{
  effective_sub_lifecycle, ShowsReclaimable, effective_sub_lifecycle_iff,
}
use tla_contracts.Registry.Ledger.Fees.{
  base_rent, sub_account_rent, calculate_rent, default_fee_config,
}
use tla_contracts.Registry.Ledger.Labels.{
  IsLabel, validate_mintable_name, validate_mintable_name_iff,
}
use tla_contracts.Registry.Ledger.Indexes.{Ledger, is_listed}
use tla_contracts.Registry.Ledger.Consistency
use tla_contracts.Registry.Ledger.Consistency.{IsIndexed, run_writes, run_writes-IsIndexed}

-- A name that is leased to account 40 for a year.
abbrev leased : SubAccountEntry
leased = record {
  owner = 40;
  tla_id = 7;
  payout_account = 40;
  rented_at = 0;
  expires_at = 365 * day_ns;
  retraction_at = some (10 * day_ns);
}

abbrev tla : TlaEntry
tla = record {
  tla_type = TlaType.open_to_all;
  status = TlaStatus.active;
  licensee = none;
  premium_category = PremiumCategory.standard;
  activated_at = 0;
  expires_at = 1000 * day_ns;
}

abbrev clock : LifecycleClock
clock = record { grace_period_ns = 30 * day_ns; reclaim_floor_ns = 0 }

effective_sub_lifecycle_iff_example :
    (effective_sub_lifecycle (18 * day_ns) leased tla (7 * day_ns) clock 0
      ≡ LifecycleStatus.reclaimable)
    ↔ ShowsReclaimable (18 * day_ns) leased tla (7 * day_ns) clock 0
effective_sub_lifecycle_iff_example =
    effective_sub_lifecycle_iff (18 * day_ns) leased tla (7 * day_ns) clock 0

-- "a-b" under "tla"
abbrev label : Bytes
label = b'a' ∷ b'-' ∷ b'b' ∷ []

abbrev parent : Bytes
parent = b't' ∷ b'l' ∷ b'a' ∷ []

validate_mintable_name_iff_example : (validate_mintable_name parent label ≡ ok tt) ↔ (
    IsLabel label
    × (2 ≤ length label)
    × (length label ≤ 60)
    × (length label + 1 + length parent ≤ 64))
validate_mintable_name_iff_example = validate_mintable_name_iff parent label (omega arith)

-- A name of three letters costs 75 dollars a year under a standard top-level account.
label_rent :
    calculate_rent tla label default_fee_config (record {
      allocation_fee_usd_micro = none;
      tla_rent_usd_micro = none;
      sub_fee_usd_micro = none;
    })
    ≡ 75_000_000
unfolding calculate_rent sub_account_rent base_rent multiplier default_fee_config
label_rent = refl

abbrev nothing : Ledger
nothing = record {
  sub_accounts = [];
  sub_accounts_by_owner = [];
  sub_accounts_by_tla = [];
  claimed = [];
}

-- Name 5 is leased to account 40, which passes it on to account 41.
abbrev writes : List Consistency.Write
writes = Consistency.lease 5 leased ∷ Consistency.reassign 5 41 41 ∷ []

run_writes-IsIndexed_example : IsIndexed 41 5 (run_writes nothing writes)
unfolding IdMap.get IdSet.contains is_listed
run_writes-IsIndexed_example =
    run_writes-IsIndexed 41 5 nothing writes (refl, (tt, tt)) (refl, refl)
