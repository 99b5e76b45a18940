-- ===== src/Core/PeerRecord.antt =====
-- crates/resurrect-core/src/peer_record.rs
use rbp.Prelude.{ℕ, ◌<◌, ◌^◌, ◌≡◌, String, Option, List, ◌++◌, Result, to_be_bytes, arith}

abbrev pub record_type_enr : ℕ
record_type_enr = 1

abbrev pub record_type_libp2p : ℕ
record_type_libp2p = 2

pub data DialContext : Type 0 where
  native_server browser mobile restricted_egress : DialContext

pub record Endpoint : Type 0 where
  pub address : String

pub data DiscoverySourceKind : Type 0 where
  local_cache native resurrect_registry : DiscoverySourceKind

pub record PeerCandidate : Type 0 where
  pub record_type : ℕ
  pub peer_id : List ℕ
  pub sequence : ℕ
  pub endpoints : List Endpoint
  pub raw_signed_record : List ℕ
  pub expires_at : ℕ
  pub source : DiscoverySourceKind
  pub announcement_block : Option ℕ
  pub announcement_log_index : Option ℕ

-- the key of a record type and a peer identity
unfoldable pub composite_key : ℕ → List ℕ → List ℕ
unfolding to_be_bytes
composite_key record_type peer_id = to_be_bytes 4 record_type ++ peer_id

unfoldable pub identity_key : PeerCandidate → List ℕ
unfolding composite_key
identity_key c = composite_key c.record_type c.peer_id

pub data PeerRecordError : Type 0 where
  invalid_size : ℕ → PeerRecordError
  malformed : String → PeerRecordError
  invalid_signature : PeerRecordError
  identity_mismatch : PeerRecordError
  no_usable_endpoint : DialContext → PeerRecordError
  too_many_endpoints : ℕ → PeerRecordError

-- the trait `PeerRecordCodec`
pub record PeerRecordCodec : Type 0 where
  pub record_type : ℕ
  pub decode_and_verify : List ℕ → DialContext → Result PeerCandidate PeerRecordError

-- The first `w` bytes of a key give the record type back, and the rest is the peer identity.
pub composite_key-injective :
    (r s : ℕ) (p q : List ℕ)
    → r < 2 ^ 32
    → s < 2 ^ 32
    → composite_key r p ≡ composite_key s q
    → (r ≡ s) × (p ≡ q)
unfolding composite_key
composite_key-injective r s p q hr hs h = ground arith

-- Candidates of u32 record types have equal identity keys only if their record types and their
-- peer identities are equal: keys of different codecs do not collide.
pub identity_key-injective :
    (c d : PeerCandidate)
    → c.record_type < 2 ^ 32
    → d.record_type < 2 ^ 32
    → identity_key c ≡ identity_key d
    → (c.record_type ≡ d.record_type) × (c.peer_id ≡ d.peer_id)
unfolding identity_key
identity_key-injective c d hc hd h = composite_key-injective _ _ _ _ hc hd h
