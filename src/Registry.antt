-- ===== src/Registry.antt =====
-- contracts/tla-registry/src: the lease ledger and the collection.
pub mod Pricing
pub mod Ledger
