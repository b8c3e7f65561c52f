-- ===== src/Registry/Ledger/Lifecycle.antt =====
-- contracts/tla-registry/src/types.rs, lifecycle.rs: how far a lease has run, at a time.
use tla_contracts.Prelude.{
  ℕ, ◌≡◌, ◌≤◌, ◌⊎◌, ◌↔◌, Bool, true, false, Option, none, some, ltb, leb, if◌then◌else◌, sat_add,
  u64_max, max, arith,
}
use tla_contracts.Registry.Ledger.Types.{
  TlaStatus, TlaEntry, SubAccountEntry, LifecycleStatus, LifecycleClock, reclaimable_at,
}

-- The time is that of the block.
module _ (now : ℕ) where
  unfoldable pub time_lifecycle : ℕ → LifecycleClock → LifecycleStatus
  unfolding reclaimable_at
  time_lifecycle expires_at clock =
      if ltb now expires_at
      then LifecycleStatus.active
      else if ltb now (reclaimable_at clock expires_at)
      then LifecycleStatus.grace
      else LifecycleStatus.reclaimable

  abbrev tla_lifecycle_as : TlaStatus → ℕ → LifecycleClock → ℕ → LifecycleStatus
  tla_lifecycle_as TlaStatus.registered expires_at clock suspended_until =
      LifecycleStatus.registered
  tla_lifecycle_as TlaStatus.suspended expires_at clock suspended_until =
      if ltb now suspended_until then LifecycleStatus.suspended else time_lifecycle expires_at clock
  tla_lifecycle_as TlaStatus.active expires_at clock suspended_until =
      time_lifecycle expires_at clock

  -- `TlaEntry::lifecycle`
  abbrev pub tla_lifecycle : TlaEntry → LifecycleClock → ℕ → LifecycleStatus
  tla_lifecycle tla clock suspended_until =
      tla_lifecycle_as tla.status tla.expires_at clock suspended_until

  abbrev accepting_as : TlaStatus → ℕ → Bool
  accepting_as TlaStatus.active suspended_until = true
  accepting_as TlaStatus.suspended suspended_until = leb suspended_until now
  accepting_as TlaStatus.registered suspended_until = false

  unfoldable pub accepting_rentals : TlaEntry → ℕ → Bool
  accepting_rentals tla suspended_until =
      if leb tla.expires_at now then false else accepting_as tla.status suspended_until

  abbrev is_reclaimable : LifecycleStatus → Bool
  is_reclaimable LifecycleStatus.reclaimable = true
  is_reclaimable _ = false

  -- Whether a retraction that was announced has run its notice.
  abbrev retracted : Option ℕ → ℕ → LifecycleClock → Bool
  retracted none retraction_notice_ns clock = false
  retracted (some retraction_at) retraction_notice_ns clock =
      leb (max (sat_add u64_max retraction_at retraction_notice_ns) clock.reclaim_floor_ns) now

  unfoldable pub effective_sub_lifecycle :
      SubAccountEntry → TlaEntry → ℕ → LifecycleClock → ℕ → LifecycleStatus
  unfolding time_lifecycle
  effective_sub_lifecycle sub tla retraction_notice_ns clock tla_suspended_until =
      if is_reclaimable (tla_lifecycle tla clock tla_suspended_until)
      then LifecycleStatus.reclaimable
      else if retracted sub.retraction_at retraction_notice_ns clock
      then LifecycleStatus.reclaimable
      else time_lifecycle sub.expires_at clock

-- The time has come, and the floor that reclaims wait for.
abbrev HasLapsed : ℕ → ℕ → LifecycleClock → Type 0
HasLapsed now at clock = (at ≤ now) × (clock.reclaim_floor_ns ≤ now)

abbrev WasRetracted : ℕ → Option ℕ → ℕ → LifecycleClock → Type 0
WasRetracted now none notice clock = ⊥
WasRetracted now (some at) notice clock = HasLapsed now (sat_add u64_max at notice) clock

-- The lease of the top-level account has lapsed, and no suspension holds it.
abbrev HasTlaLapsed : ℕ → TlaStatus → ℕ → LifecycleClock → ℕ → Type 0
HasTlaLapsed now TlaStatus.registered expires clock held_until = ⊥
HasTlaLapsed now TlaStatus.active expires clock held_until =
    (expires ≤ now) × HasLapsed now (sat_add u64_max expires clock.grace_period_ns) clock
HasTlaLapsed now TlaStatus.suspended expires clock held_until =
    (held_until ≤ now)
    × (expires ≤ now)
    × HasLapsed now (sat_add u64_max expires clock.grace_period_ns) clock

-- When the ledger shows a leased name as reclaimable.
abbrev pub ShowsReclaimable : ℕ → SubAccountEntry → TlaEntry → ℕ → LifecycleClock → ℕ → Type 0
ShowsReclaimable now sub tla notice clock held_until =
    HasTlaLapsed now tla.status tla.expires_at clock held_until
    ⊎ WasRetracted now sub.retraction_at notice clock
    ⊎ ((sub.expires_at ≤ now)
        × HasLapsed now (sat_add u64_max sub.expires_at clock.grace_period_ns) clock)

-- The ledger shows a leased name as reclaimable exactly if the lease of its top-level account has lapsed by
-- the grace period and no suspension holds it, or the name was retracted and the notice has run, or its
-- own lease has lapsed by the grace period; and never before the floor that reclaims wait for.
pub effective_sub_lifecycle_iff :
    (now : ℕ) (sub : SubAccountEntry) (tla : TlaEntry) (notice : ℕ) (clock : LifecycleClock)
    (held_until : ℕ)
    → (effective_sub_lifecycle now sub tla notice clock held_until ≡ LifecycleStatus.reclaimable)
      ↔ ShowsReclaimable now sub tla notice clock held_until
unfolding effective_sub_lifecycle time_lifecycle reclaimable_at
effective_sub_lifecycle_iff now sub tla notice clock held_until =
    (λ h. ground (arith, h), λ h. ground (arith, h))
