-- ===== src/Registry/Pricing/Tests.antt =====
-- The theorems about prices at the amounts of a rental.
use tla_contracts.Prelude.{ℕ, ◌+◌, ◌*◌, ◌≡◌, ◌≤◌, ◌<◌, ◌↔◌, Bool, true, ok, refl, arith}
use tla_contracts.Registry.Pricing.{
  usd_micro_to_near_yocto, quote_with_slippage, rate_within_bounds, rate_lower_bound,
  rate_is_usable, yocto_per_near,
}
use tla_contracts.Registry.Pricing.Quotes.{usd_micro_to_near_yocto_total}
use tla_contracts.Registry.Pricing.Rates.{IsWithin, rate_within_bounds_total}

fifty_dollars_at_five : usd_micro_to_near_yocto 50_000_000 5_000_000 ≡ ok (10 * yocto_per_near)
unfolding usd_micro_to_near_yocto
fifty_dollars_at_five = refl

slippage_rounds_up : quote_with_slippage 9_999 1 ≡ ok 10_000
unfolding quote_with_slippage
slippage_rounds_up = refl

tiny_rate_cannot_move : rate_within_bounds 3 2 2_000 1 1_000_000_000_000 ≡ ok Bool.false
unfolding rate_within_bounds rate_is_usable rate_lower_bound
tiny_rate_cannot_move = refl

usd_micro_to_near_yocto_total_example :
    (yocto : ℕ) × (usd_micro_to_near_yocto 50_000_000 5_000_000 ≡ ok yocto)
    × (yocto * 5_000_000 ≤ 50_000_000 * yocto_per_near)
    × (50_000_000 * yocto_per_near < (yocto + 1) * 5_000_000)
usd_micro_to_near_yocto_total_example =
    usd_micro_to_near_yocto_total 50_000_000 5_000_000 (omega arith) (omega arith)

rate_within_bounds_total_example :
    (accepted : Bool) × (rate_within_bounds 5_000_000 6_000_000 2_000 1 50_000_000 ≡ ok accepted)
    × ((accepted ≡ true) ↔ IsWithin 5_000_000 6_000_000 2_000 1 50_000_000)
rate_within_bounds_total_example =
    rate_within_bounds_total 5_000_000 6_000_000 2_000 1 50_000_000 (omega arith)
