-- ===== src/Config.antt =====
-- crates/common-config/src/lib.rs: the configuration of a domain and of the transport.
pub mod Text
pub mod Transport
pub mod Domains
