-- ===== src/Registry/Pricing/Quotes.antt =====
-- contracts/tla-registry/src/pricing.rs: what a conversion and a quote amount to.
use tla_contracts.Prelude.{ℕ, ◌+◌, ◌*◌, ◌/◌, ◌%◌, ap, ◌≤◌, ◌<◌, ◌≡◌, ok, arith, u128_max}
use tla_contracts.Registry.Pricing.{
  usd_micro_to_near_yocto, quote_with_slippage, max_usd_micro, yocto_per_near, bps_denominator,
  div_ceil,
}

-- With a rate and an amount within the cap the conversion never panics, and its result is the
-- greatest number of yocto whose value at the rate does not exceed the amount.
pub usd_micro_to_near_yocto_total :
    (usd rate : ℕ)
    → 0 < rate
    → usd ≤ max_usd_micro
    → (yocto : ℕ) × (usd_micro_to_near_yocto usd rate ≡ ok yocto)
      × (yocto * rate ≤ usd * yocto_per_near)
      × (usd * yocto_per_near < (yocto + 1) * rate)
unfolding usd_micro_to_near_yocto
usd_micro_to_near_yocto_total usd rate pos cap =
    (usd * yocto_per_near / rate, ground arith, grind arith, grind arith)

-- The share of an amount in basis points, rounded up, as the code puts it together.
abbrev buffer : ℕ → ℕ → ℕ
buffer amount bps =
    amount / bps_denominator * bps + div_ceil (amount % bps_denominator * bps) bps_denominator

split_amount :
    (amount bps : ℕ) → amount * bps ≡ 10_000 * (amount / 10_000 * bps) + amount % 10_000 * bps
split_amount amount bps = omega (arith, ap (λ (t : ℕ). t * bps) (whole amount))
  where
    whole : (a : ℕ) → a ≡ 10_000 * (a / 10_000) + a % 10_000
    whole a = omega arith

div_ceil_bounds :
    (a : ℕ)
    → (a ≤ div_ceil a bps_denominator * bps_denominator)
      × (div_ceil a bps_denominator * bps_denominator < a + bps_denominator)
div_ceil_bounds a = ground arith

buffer_bounds :
    (amount bps : ℕ)
    → (amount * bps ≤ buffer amount bps * bps_denominator)
      × (buffer amount bps * bps_denominator < amount * bps + bps_denominator)
buffer_bounds amount bps =
    omega (arith, split_amount amount bps, div_ceil_bounds (amount % bps_denominator * bps))

scale_le : (a b c : ℕ) → b ≤ c → a * b ≤ a * c
scale_le a b c h = grind arith

buffer-le : (amount bps : ℕ) → bps ≤ bps_denominator → buffer amount bps ≤ amount
buffer-le amount bps h = omega (
  arith,
  scale_le (amount / bps_denominator) bps bps_denominator h,
  scale_le (amount % bps_denominator) bps bps_denominator h,
  div_ceil_bounds (amount % bps_denominator * bps),
)

-- With at most ten thousand basis points, and an amount below half of the word, a quote never panics:
-- it is the amount and its share, rounded up, and at most twice the amount.
pub quote_with_slippage_total :
    (amount bps : ℕ)
    → bps ≤ bps_denominator
    → 2 * amount ≤ u128_max
    → (share : ℕ) × (quote_with_slippage amount bps ≡ ok (amount + share))
      × (amount * bps ≤ share * bps_denominator)
      × (share * bps_denominator < amount * bps + bps_denominator)
      × (share ≤ amount)
unfolding quote_with_slippage
quote_with_slippage_total amount bps h fits = (
  buffer amount bps,
  ground (
    arith,
    buffer-le amount bps h,
    scale_le (amount / bps_denominator) bps bps_denominator h,
    scale_le (amount % bps_denominator) bps bps_denominator h,
  ),
  (buffer_bounds amount bps).0,
  (buffer_bounds amount bps).1,
  buffer-le amount bps h,
)
