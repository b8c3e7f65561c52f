-- ===== src/Registry/Pricing.antt =====
-- contracts/tla-registry/src/pricing.rs: conversion of USD to NEAR, slippage, and the bounds on a new
-- exchange rate. An amount is a u128.
pub mod Quotes
pub mod Rates
mod Tests
use tla_contracts.Prelude.{
  ℕ, ◌+◌, ◌-◌, ◌*◌, ◌/◌, ◌%◌, ◌^◌, Bool, false, true, not, ◌&&◌, ◌||◌, Result, ok, require,
  unwrap_or, ◌>>=◌, ◌>>◌, ltb, leb, ◌==◌, ◌!=◌, if◌then◌else◌, checked_add, checked_mul, u128_max,
}

pub data PriceError : Type 0 where
  rate_zero aggregate_cap price_overflow slippage_out_of_range : PriceError

abbrev pub yocto_per_near : ℕ
yocto_per_near = 10 ^ 24

abbrev pub max_usd_micro : ℕ
max_usd_micro = 10 ^ 14

abbrev pub max_near_usd_rate_micro : ℕ
max_near_usd_rate_micro = 10 ^ 12

abbrev pub bps_denominator : ℕ
bps_denominator = 10_000

unfoldable pub usd_micro_to_near_yocto : ℕ → ℕ → Result PriceError ℕ
usd_micro_to_near_yocto usd_micro rate = do
  require (rate != 0) PriceError.rate_zero
  require (leb usd_micro max_usd_micro) PriceError.aggregate_cap
  scaled ← unwrap_or (checked_mul u128_max usd_micro yocto_per_near) PriceError.price_overflow
  ok (scaled / rate)

unfoldable pub quote_with_slippage : ℕ → ℕ → Result PriceError ℕ
quote_with_slippage amount_yocto bps = do
  require (leb bps bps_denominator) PriceError.slippage_out_of_range
  let quotient = amount_yocto / bps_denominator
  let remainder = amount_yocto % bps_denominator
  whole ← unwrap_or (checked_mul u128_max quotient bps) PriceError.price_overflow
  numerator ← unwrap_or (checked_mul u128_max remainder bps) PriceError.price_overflow
  let partial = numerator / bps_denominator + (if numerator % bps_denominator == 0 then 0 else 1)
  buffer ← unwrap_or (checked_add u128_max whole partial) PriceError.price_overflow
  unwrap_or (checked_add u128_max amount_yocto buffer) PriceError.price_overflow

-- `u128::div_ceil`
abbrev pub div_ceil : ℕ → ℕ → ℕ
div_ceil a b = a / b + (if a % b == 0 then 0 else 1)

-- The callers have checked that `move_bps` is at most the denominator, so the subtraction is exact.
unfoldable pub rate_lower_bound : ℕ → ℕ → Result PriceError ℕ
rate_lower_bound current move_bps = do
  scaled ←
      unwrap_or (checked_mul u128_max current (bps_denominator - move_bps))
        PriceError.price_overflow
  ok (div_ceil scaled bps_denominator)

unfoldable pub rate_upper_bound : ℕ → ℕ → Result PriceError ℕ
rate_upper_bound current move_bps = do
  scaled ←
      unwrap_or (checked_mul u128_max current (bps_denominator + move_bps))
        PriceError.price_overflow
  ok (scaled / bps_denominator)

unfoldable pub rate_is_usable : ℕ → ℕ → ℕ → Bool
rate_is_usable rate floor ceiling = rate != 0 && leb floor rate && leb rate ceiling

-- The last test calls the upper bound only if the lower one holds.
unfoldable pub rate_within_bounds : ℕ → ℕ → ℕ → ℕ → ℕ → Result PriceError Bool
rate_within_bounds current new move_bps floor ceiling =
    if ltb bps_denominator move_bps
    then ok false
    else if ltb new floor || ltb ceiling new
    then ok false
    else if not (rate_is_usable current floor ceiling)
    then ok true
    else do
      lower ← rate_lower_bound current move_bps
      if leb lower new
          then (do upper ← rate_upper_bound current move_bps; ok (leb new upper))
          else ok false
