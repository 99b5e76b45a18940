-- ===== src/Core/Validation.antt =====
-- crates/resurrect-core/src/validation.rs: the announcement envelope and the codec registry.
pub mod Acceptance
use rbp.Prelude.{
  ℕ, Bool, not, ◌||◌, Option, some, List, [], Result, ok, err, ◌>>=◌, ok_or, map_err, ltb, leb,
  ◌==◌, nat_eq, if◌then◌else◌, contains, is_empty, length,
}
use rbp.Prelude.HashMap
use rbp.Prelude.HashMap.{HashMap}
use rbp.Core.Namespace.{Namespace, B256}
use rbp.Core.PeerRecord.{
  PeerCandidate, PeerRecordCodec, PeerRecordError, too_many_endpoints, DialContext,
  DiscoverySourceKind, resurrect_registry,
}

abbrev pub default_max_record_bytes : ℕ
default_max_record_bytes = 4096

abbrev pub default_max_endpoints_per_record : ℕ
default_max_endpoints_per_record = 16

abbrev pub default_max_active_candidates : ℕ
default_max_active_candidates = 256

pub record Announcement : Type 0 where
  pub namespace : Namespace
  pub record_type : ℕ
  pub valid_until : ℕ
  pub peer_record : List ℕ
  pub block_number : ℕ
  pub log_index : ℕ
  pub block_hash : Option B256

pub record AnnouncementPolicy : Type 0 where
  pub expected_namespace : Namespace
  pub accepted_record_types : List ℕ
  pub chain_time : ℕ
  pub max_record_bytes : ℕ
  pub max_endpoints : ℕ
  pub dial_context : DialContext

pub data AnnouncementError : Type 0 where
  wrong_namespace : AnnouncementError
  unsupported_record_type : ℕ → AnnouncementError
  expired : ℕ → ℕ → AnnouncementError
  invalid_record_size : ℕ → AnnouncementError
  codec_type_mismatch : ℕ → ℕ → AnnouncementError
  peer_record : PeerRecordError → AnnouncementError

pub record CodecRegistry : Type 0 where
  pub codecs : HashMap ℕ PeerRecordCodec

abbrev pub no_codecs : CodecRegistry
no_codecs = record { codecs = [] }

unfoldable pub register : PeerRecordCodec → CodecRegistry → CodecRegistry
unfolding HashMap.insert
register codec registry = record { codecs = HashMap.insert codec.record_type codec registry.codecs }

-- the checks on what the codec returned, and the fields that the announcement fills in
unfoldable pub complete :
    Announcement → AnnouncementPolicy → PeerCandidate → Result PeerCandidate AnnouncementError
complete announcement policy candidate =
    if not (candidate.record_type == announcement.record_type)
    then err (codec_type_mismatch announcement.record_type candidate.record_type)
    else if ltb policy.max_endpoints (length candidate.endpoints)
    then err (peer_record (too_many_endpoints policy.max_endpoints))
    else ok (record candidate {
      expires_at = announcement.valid_until;
      source = resurrect_registry;
      announcement_block = some announcement.block_number;
      announcement_log_index = some announcement.log_index;
    })

unfoldable pub validate_announcement :
    CodecRegistry → Announcement → AnnouncementPolicy → Result PeerCandidate AnnouncementError
unfolding complete
validate_announcement registry announcement policy =
    if not (announcement.namespace == policy.expected_namespace)
    then err wrong_namespace
    else if not (contains policy.accepted_record_types announcement.record_type)
    then err (unsupported_record_type announcement.record_type)
    else if leb announcement.valid_until policy.chain_time
    then err (expired announcement.valid_until policy.chain_time)
    else if is_empty announcement.peer_record
        || ltb policy.max_record_bytes (length announcement.peer_record)
    then err (invalid_record_size (length announcement.peer_record))
    else (do
      codec ←
          ok_or (unsupported_record_type announcement.record_type)
            (HashMap.get announcement.record_type registry.codecs)
      candidate ←
          map_err peer_record (codec.decode_and_verify announcement.peer_record policy.dial_context)
      complete announcement policy candidate)
