-- ===== src/Cryptography.antt =====
-- network/crates/cryptography: the polynomials, the shares, the proofs and the protocols.
pub mod Polynomial
pub mod Dleq
pub mod Reconstruct
pub mod NodeSelection
pub mod Dkg
pub mod Resharing
pub mod Schnorr
pub mod Encryption
