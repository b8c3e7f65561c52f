-- ===== src/Registry/Ledger/Fees.antt =====
-- contracts/tla-registry/src/fees.rs: what a lease costs a year, in millionths of a dollar.
use tla_contracts.Prelude.{
  ℕ, ◌*◌, ◌/◌, ◌^◌, Option, none, some, leb, length, if◌then◌else◌, sat_mul, u128_max,
}
use tla_contracts.Near.{Bytes, second_ns, hour_ns, day_ns}
use tla_contracts.Registry.Ledger.Types.{
  TlaType, TlaEntry, TlaTerms, FeeConfig, PremiumCategory, multiplier,
}

unfoldable pub base_rent : ℕ → FeeConfig → ℕ
base_rent label_len config =
    if leb label_len 5
    then config.rent_tier_5_usd_micro
    else if leb label_len 8
    then config.rent_tier_8_usd_micro
    else if leb label_len 10
    then config.rent_tier_10_usd_micro
    else config.rent_tier_12plus_usd_micro

unfoldable pub sub_account_rent : ℕ → PremiumCategory → FeeConfig → ℕ
sub_account_rent label_len category config =
    let (num, den) = multiplier category in sat_mul u128_max (base_rent label_len config) num / den

abbrev or_default : Option ℕ → ℕ → ℕ
or_default none default = default
or_default (some fee) default = fee

-- `u8::try_from(len).unwrap_or(0)`
abbrev as_label_len : ℕ → ℕ
as_label_len n = if leb n 255 then n else 0

abbrev rent_as : TlaType → PremiumCategory → Bytes → FeeConfig → TlaTerms → ℕ
rent_as TlaType.business category name config terms =
    or_default terms.sub_fee_usd_micro config.sub_fee_per_account_usd_micro
rent_as TlaType.open_to_all category name config terms =
    sub_account_rent (as_label_len (length name)) category config

unfoldable pub calculate_rent : TlaEntry → Bytes → FeeConfig → TlaTerms → ℕ
calculate_rent tla name config terms = rent_as tla.tla_type tla.premium_category name config terms

abbrev usd_micro_per_dollar : ℕ
usd_micro_per_dollar = 1_000_000

abbrev one_near : ℕ
one_near = 10 ^ 24

unfoldable pub default_fee_config : FeeConfig
default_fee_config = record {
  tla_allocation_fee_usd_micro = 1000 * usd_micro_per_dollar;
  rent_tier_5_usd_micro = 50 * usd_micro_per_dollar;
  rent_tier_8_usd_micro = 20 * usd_micro_per_dollar;
  rent_tier_10_usd_micro = 10 * usd_micro_per_dollar;
  rent_tier_12plus_usd_micro = 5 * usd_micro_per_dollar;
  sub_fee_per_account_usd_micro = usd_micro_per_dollar / 2;
  account_creation_deposit_yocto = 12 * one_near / 1000;
  business_max_subs = 1000;
  retraction_notice_ns = 7 * day_ns;
  max_rate_move_bps = 2000;
  quote_slippage_bps = 527;
  min_near_usd_rate_micro = 100_000;
  max_near_usd_rate_micro = 100_000_000;
  rate_update_cooldown_ns = 300 * second_ns;
  max_rate_age_ns = 6 * hour_ns;
}
