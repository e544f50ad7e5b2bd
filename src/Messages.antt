-- ===== src/Messages.antt =====
-- network/crates/messages: what the nodes say to each other.
pub mod NetworkUtils
pub mod Drand
pub mod ActorType
