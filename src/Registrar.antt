-- ===== src/Registrar.antt =====
-- contracts/registrar/src: the contract on a top-level account that mints the sub-accounts under it.
pub mod Types
pub mod Mint
pub mod Council
pub mod Calls
pub mod Offices
pub mod Handoff
mod Tests
