-- ===== src/Epochs.antt =====
-- The epochs pallet: it observes blocks, closes epochs and authors their headers.
pub mod State
pub mod Hooks
pub mod Boundary
pub mod Invariant
pub mod Blocks
pub mod Closing
