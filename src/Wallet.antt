-- ===== src/Wallet.antt =====
-- contracts/hos-wallet/src: the tenant wallet, the contract of a leased account.
pub mod Types
pub mod Guards
pub mod Charge
pub mod Sweep
pub mod Grants
pub mod Execute
pub mod Lease
pub mod Rotation
pub mod Freeze
pub mod Impl
pub mod Init
mod Tests
pub mod Views
pub mod Calls
pub mod Invariant
pub mod Spending
pub mod Naming
pub mod Holds
pub mod Revert
pub mod Custody
pub mod Tenure
pub mod Pinning
