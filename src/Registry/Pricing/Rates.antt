-- ===== src/Registry/Pricing/Rates.antt =====
-- contracts/tla-registry/src/pricing.rs: which new exchange rate the registry accepts.
use tla_contracts.Prelude.{
  ◌⊎◌, ℕ, ◌+◌, ◌-◌, ◌*◌, ◌/◌, ◌≤◌, ◌≡◌, ◌≢◌, ◌↔◌, Bool, true, ok, arith, u128_max, leb,
  if◌then◌else◌, ◌&&◌,
}
use tla_contracts.Registry.Pricing.{
  rate_within_bounds, rate_lower_bound, rate_upper_bound, rate_is_usable, bps_denominator, div_ceil,
  max_near_usd_rate_micro,
}

-- A stored rate that can serve as a baseline.
abbrev pub IsUsable : ℕ → ℕ → ℕ → Type 0
IsUsable rate floor ceiling = (rate ≢ 0) × (floor ≤ rate) × (rate ≤ ceiling)

-- A new rate inside the absolute band, and inside the relative one unless the baseline is unusable.
abbrev pub IsWithin : ℕ → ℕ → ℕ → ℕ → ℕ → Type 0
IsWithin current new move_bps floor ceiling =
    (move_bps ≤ bps_denominator)
    × (floor ≤ new)
    × (new ≤ ceiling)
    × (¬ IsUsable current floor ceiling
        ⊎ ((current * (bps_denominator - move_bps) ≤ new * bps_denominator)
            × (new * bps_denominator ≤ current * (bps_denominator + move_bps))))

scale_le : (a b c : ℕ) → b ≤ c → a * b ≤ a * c
scale_le a b c h = grind arith

scale_le_left : (a b c : ℕ) → a ≤ b → a * c ≤ b * c
scale_le_left a b c h = grind arith

lower_test :
    (scaled new : ℕ)
    → (leb (div_ceil scaled bps_denominator) new ≡ true) ↔ (scaled ≤ new * bps_denominator)
lower_test scaled new = (λ h. ground arith, λ h. ground arith)

upper_test :
    (scaled new : ℕ)
    → (leb new (scaled / bps_denominator) ≡ true) ↔ (new * bps_denominator ≤ scaled)
upper_test scaled new = (λ h. ground arith, λ h. ground arith)

-- With a stored rate within the registry's cap the check of a new rate never panics.
fits :
    (current bps : ℕ) → current ≤ max_near_usd_rate_micro → bps ≤ 20_000 → current * bps ≤ u128_max
fits current bps c h = omega (arith, scale_le current bps 20_000 h)

module _ (current new move_bps floor ceiling : ℕ) where
  -- The answer, with both bounds computed.
  abbrev accepts : Bool
  accepts =
      leb move_bps bps_denominator
      && leb floor new
      && leb new ceiling
      && (if rate_is_usable current floor ceiling
          then leb (div_ceil (current * (bps_denominator - move_bps)) bps_denominator) new
            && leb new (current * (bps_denominator + move_bps) / bps_denominator)
          else true)

  accepts_iff : (accepts ≡ true) ↔ IsWithin current new move_bps floor ceiling
  unfolding rate_is_usable
  accepts_iff = (
    λ h. ground (
      arith,
      lower_test (current * (bps_denominator - move_bps)) new,
      upper_test (current * (bps_denominator + move_bps)) new,
    ),
    λ h. ground (
      arith,
      lower_test (current * (bps_denominator - move_bps)) new,
      upper_test (current * (bps_denominator + move_bps)) new,
    ),
  )

  -- With a stored rate within the registry's cap the check of a new rate never panics, and accepts
  -- exactly the rates inside the absolute band that move at most the given basis points from the
  -- stored one, or from any rate if the stored one is unusable.
  pub rate_within_bounds_total :
      current ≤ max_near_usd_rate_micro
      → (accepted : Bool) × (rate_within_bounds current new move_bps floor ceiling ≡ ok accepted)
        × ((accepted ≡ true) ↔ IsWithin current new move_bps floor ceiling)
  unfolding rate_within_bounds rate_lower_bound rate_upper_bound rate_is_usable
  rate_within_bounds_total cap = (
    accepts,
    ground (
      arith,
      fits current (bps_denominator - move_bps) cap,
      fits current (bps_denominator + move_bps) cap,
    ),
    accepts_iff,
  )
