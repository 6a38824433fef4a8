-- ===== src/Governance.antt =====
-- chain/pallets/governance/src/lib.rs: proposals that are voted on on one chain, imported and
-- acknowledged by the others, and activated once every target has acknowledged them.
pub mod State
pub mod Activation
pub mod Outbox
pub mod Calls
pub mod Imports
pub mod Safety
pub mod Decision
pub mod Votes
