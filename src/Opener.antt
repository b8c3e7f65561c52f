-- ===== src/Opener.antt =====
-- contracts/registrar-opener/src: the contract that opens top-level names in approved batches.
pub mod Types
pub mod Names
pub mod Batches
pub mod Admin
pub mod Calls
pub mod Stored
pub mod Once
pub mod Digest
pub mod Binding
pub mod Steps
mod Tests
pub mod Payment
pub mod Frozen
pub mod Invariant
