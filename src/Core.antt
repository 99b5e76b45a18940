-- ===== src/Core.antt =====
-- The crate crates/resurrect-core: descriptors, peer candidates, announcement validation and the
-- bounded candidate store.
pub mod Namespace
pub mod PeerRecord
pub mod Descriptor
pub mod Validation
pub mod Candidates
