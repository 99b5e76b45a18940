-- ===== src/Node.antt =====
-- crates/resurrect-node
pub mod Registry
pub mod P2p
pub mod Cache
pub mod Identity
pub mod Supervisor
pub mod Cli
