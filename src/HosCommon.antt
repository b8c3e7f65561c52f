-- ===== src/HosCommon.antt =====
-- crates/hos-common/src/lib.rs: the types and constants that several contracts share.
use tla_contracts.Prelude.{ℕ, ◌*◌, ◌^◌, Bool, true, false}
use tla_contracts.Near.{hour_ns, day_ns}

abbrev pub ft_storage_deposit_yocto : ℕ
ft_storage_deposit_yocto = 1_250 * 10 ^ 18

abbrev pub max_authority_hold_ns : ℕ
max_authority_hold_ns = 7 * day_ns

abbrev pub min_lease_retract_notice_ns : ℕ
min_lease_retract_notice_ns = 12 * hour_ns

pub data MintOutcome : Type 0 where
  creation_failed active : MintOutcome

pub data OperatingState : Type 0 where
  active listed settling suspended parked : OperatingState

pub data RotationCause : Type 0 where
  sale transfer deposit re_rent reclaim recovery revert : RotationCause

-- The derived `==`, where the source compares with `Active`.
abbrev pub is_active : OperatingState → Bool
is_active OperatingState.active = true
is_active _ = false

abbrev pub parks : RotationCause → Bool
parks RotationCause.reclaim = true
parks _ = false

abbrev pub repoints_payout : RotationCause → Bool
repoints_payout RotationCause.deposit = false
repoints_payout RotationCause.re_rent = false
repoints_payout _ = true

abbrev pub sweeps : RotationCause → Bool
sweeps RotationCause.recovery = false
sweeps RotationCause.revert = false
sweeps _ = true

abbrev pub needs_holder : RotationCause → Bool
needs_holder RotationCause.sale = true
needs_holder RotationCause.transfer = true
needs_holder RotationCause.deposit = true
needs_holder _ = false

abbrev pub needs_expiry : RotationCause → Bool
needs_expiry RotationCause.re_rent = true
needs_expiry RotationCause.reclaim = true
needs_expiry _ = false

-- `matches!(cause, …)`
abbrev pub is_re_rent : RotationCause → Bool
is_re_rent RotationCause.re_rent = true
is_re_rent _ = false

abbrev pub is_recovery : RotationCause → Bool
is_recovery RotationCause.recovery = true
is_recovery _ = false

abbrev pub is_revert : RotationCause → Bool
is_revert RotationCause.revert = true
is_revert _ = false
