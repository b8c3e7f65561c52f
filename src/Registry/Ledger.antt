-- ===== src/Registry/Ledger.antt =====
-- contracts/tla-registry/src/types.rs, lifecycle.rs, fees.rs, indexes.rs: the entries of the lease ledger,
-- when they lapse, what they cost and how they are indexed.
pub mod Types
pub mod Lifecycle
pub mod Labels
pub mod Indexes
pub mod Consistency
pub mod Fees
mod Tests
