-- ===== src/Examples.antt =====
-- Concrete inputs for the theorems: a small field, a group on which it acts, and runs over them.
mod Residue
mod Group
mod Crypto
mod Selection
mod Keys
mod Ingest
mod Engine
mod Signatures
mod Relay
mod Handlers
mod Saved
mod Elections
