-- ===== src/Deployer.antt =====
-- contracts/wallet-impl-deployer/src/lib.rs: the contract that publishes the wallet's code.
pub mod Types
pub mod Publish
pub mod Upgrade
pub mod Council
pub mod Calls
pub mod Approval
pub mod Succession
mod Tests
