-- ===== src/Actors.antt =====
-- network/crates/actors: the actors that drive the cryptography, and the relay's state.
pub mod AppState
pub mod DkgEngine
pub mod Election
pub mod GossipEngine
