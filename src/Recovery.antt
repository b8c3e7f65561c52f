-- ===== src/Recovery.antt =====
-- contracts/mpc-recovery/src: recovering a leased account, or a native account's keys, by an attested
-- request, a timelock and a quorum of watchers.
pub mod Types
pub mod Proofs
pub mod Messages
pub mod Quorum
pub mod Governance
pub mod Policies
pub mod Tx
pub mod Hex
pub mod Native
pub mod Names
pub mod Calls
pub mod Rounds
pub mod Warrants
mod Tests
