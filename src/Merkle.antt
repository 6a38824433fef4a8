-- ===== src/Merkle.antt =====
-- The Merkle trees of crates/common-types/src/lib.rs. The three families of leaves (exports,
-- finalized imports, governance) have one algorithm each, written out three times with another
-- parent hash; `Tree` is that algorithm over any parent hash.
pub mod Tree
pub mod Paths
pub mod Soundness
pub mod Family
pub mod Exports
pub mod Imports
pub mod Governance
