-- ===== src/Transfers.antt =====
-- chain/pallets/transfers/src/lib.rs: cross-domain transfers. A transfer holds the sender's funds
-- on the source chain, is committed with its epoch, minted on the target chain, and burned on the
-- source chain when the target's finalization comes back.
pub mod Config
pub mod State
pub mod Calls
pub mod Commit
pub mod Accepted
pub mod Invariant
pub mod Runs
pub mod Lifecycle
pub mod Supply
pub mod Liveness
pub mod Canonical
pub mod Committed
pub mod Frozen
