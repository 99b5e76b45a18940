-- ===== src/Libp2p.antt =====
-- crates/resurrect-libp2p
pub mod EndpointPolicy
pub mod SignedRecord
pub mod Enr
pub mod Behaviour
