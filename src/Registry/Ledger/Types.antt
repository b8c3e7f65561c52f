-- ===== src/Registry/Ledger/Types.antt =====
-- contracts/tla-registry/src/types.rs: the entries of the lease ledger and the terms on which it leases.
use tla_contracts.Prelude.{ℕ, Option, sat_add, u64_max, max}
use tla_contracts.Near.{AccountId}

pub data TlaType : Type 0 where
  business open_to_all : TlaType

pub data TlaStatus : Type 0 where
  registered active suspended : TlaStatus

pub data PremiumCategory : Type 0 where
  legendary premium standard community : PremiumCategory

unfoldable pub multiplier : PremiumCategory → ℕ × ℕ
multiplier PremiumCategory.legendary = (5, 1)
multiplier PremiumCategory.premium = (3, 1)
multiplier PremiumCategory.standard = (3, 2)
multiplier PremiumCategory.community = (0, 1)

pub record TlaEntry : Type 0 where
  pub tla_type : TlaType
  pub status : TlaStatus
  pub licensee : Option AccountId
  pub premium_category : PremiumCategory
  pub activated_at : ℕ
  pub expires_at : ℕ

pub record SubAccountEntry : Type 0 where
  pub owner : AccountId
  pub tla_id : AccountId
  pub payout_account : AccountId
  pub rented_at : ℕ
  pub expires_at : ℕ
  pub retraction_at : Option ℕ

pub record TlaTerms : Type 0 where
  pub allocation_fee_usd_micro : Option ℕ
  pub tla_rent_usd_micro : Option ℕ
  pub sub_fee_usd_micro : Option ℕ

pub record FeeConfig : Type 0 where
  pub tla_allocation_fee_usd_micro : ℕ
  pub rent_tier_5_usd_micro : ℕ
  pub rent_tier_8_usd_micro : ℕ
  pub rent_tier_10_usd_micro : ℕ
  pub rent_tier_12plus_usd_micro : ℕ
  pub sub_fee_per_account_usd_micro : ℕ
  pub account_creation_deposit_yocto : ℕ
  pub business_max_subs : ℕ
  pub retraction_notice_ns : ℕ
  pub max_rate_move_bps : ℕ
  pub quote_slippage_bps : ℕ
  pub min_near_usd_rate_micro : ℕ
  pub max_near_usd_rate_micro : ℕ
  pub rate_update_cooldown_ns : ℕ
  pub max_rate_age_ns : ℕ

pub data LifecycleStatus : Type 0 where
  registered active grace reclaimable suspended : LifecycleStatus

pub record LifecycleClock : Type 0 where
  pub grace_period_ns : ℕ
  pub reclaim_floor_ns : ℕ

unfoldable pub reclaimable_at : LifecycleClock → ℕ → ℕ
reclaimable_at clock from = max (sat_add u64_max from clock.grace_period_ns) clock.reclaim_floor_ns
