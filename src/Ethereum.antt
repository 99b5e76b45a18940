-- ===== src/Ethereum.antt =====
-- The crate crates/resurrect-ethereum: the provider interface and the registry scanner.
pub mod Provider
pub mod Scanner
pub mod Alloy
