-- ===== src/Types.antt =====
-- crates/common-types/src/lib.rs: the data that the pallets, the packages and the services share.
pub mod Scale
pub mod Export
pub mod Import
pub mod Summary
pub mod Accumulators
pub mod ProposalLeaf
pub mod AckLeaf
pub mod Governance
