-- ===== src/Relay.antt =====
-- services/relay: the transport of packages between domains.
pub mod Blackout
pub mod Envelope
pub mod Store
pub mod Records
pub mod Delivery
pub mod Scheduler
pub mod Histories
