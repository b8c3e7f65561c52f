-- ===== src/Extension.antt =====
-- contracts/hos-extension/src: the contract through which the registry holds authority over leased
-- accounts.
pub mod Types
pub mod Council
pub mod Upgrade
pub mod Lease
pub mod Rotation
pub mod Sweep
pub mod Calls
pub mod Offices
pub mod Authority
pub mod Resets
pub mod Payouts
mod Tests
