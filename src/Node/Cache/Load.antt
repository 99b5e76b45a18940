-- ===== src/Node/Cache/Load.antt =====
-- crates/resurrect-node/src/cache.rs: `SqlitePeerCache`, which validates what it reads again.
use rbp.Prelude.{
  ℕ, Option, none, some, List, [], ◌∷◌, Result, ok, err, ◌>>=◌, nat_eq, bytes_eq, max,
}
use rbp.Core.Namespace.{Namespace, B256}
use rbp.Core.PeerRecord.{PeerCandidate, DialContext, local_cache}
use rbp.Core.Validation.{
  Announcement, AnnouncementPolicy, CodecRegistry, AnnouncementError, validate_announcement,
  default_max_record_bytes, default_max_endpoints_per_record,
}
use rbp.Core.Candidates.{CandidateStoreConfig, new, insert_all, ranked, unwrap_or_default}
use rbp.Node.Cache.{CacheError, CachedRow, Row}
use rbp.Node.Cache.Table.{load_rows}

pub record SqlitePeerCache : Type 0 where
  pub codecs : CodecRegistry
  pub accepted_record_types : List ℕ
  pub dial_context : DialContext
  pub max_candidates : ℕ

abbrev pub announcement_of : Namespace → CachedRow → Announcement
announcement_of namespace row = record {
  namespace = namespace;
  record_type = row.record_type;
  valid_until = row.expires_at;
  peer_record = row.raw_signed_record;
  block_number = unwrap_or_default row.block_number;
  log_index = unwrap_or_default row.log_index;
  block_hash = none;
}

abbrev pub policy_of : SqlitePeerCache → Namespace → ℕ → AnnouncementPolicy
policy_of cache namespace now = record {
  expected_namespace = namespace;
  accepted_record_types = cache.accepted_record_types;
  chain_time = now;
  max_record_bytes = default_max_record_bytes;
  max_endpoints = default_max_endpoints_per_record;
  dial_context = cache.dial_context;
}

-- what became of a row's validation
abbrev pub cached_candidate : Result PeerCandidate AnnouncementError → Option PeerCandidate
cached_candidate (ok candidate) = some (record candidate { source = local_cache })
cached_candidate (err _) = none

-- the candidates that the loop of `load` inserts
unfoldable pub revalidated : SqlitePeerCache → Namespace → ℕ → List CachedRow → List PeerCandidate
unfolding validate_announcement
revalidated cache namespace now [] = []
revalidated cache namespace now (row ∷ rows) =
    elim (cached_candidate (
      validate_announcement cache.codecs (announcement_of namespace row)
        (policy_of cache namespace now))) [
          | none ↦ revalidated cache namespace now rows
          | some candidate ↦ candidate ∷ revalidated cache namespace now rows
        ]

-- `open`, after the schema is there
abbrev pub open_cache : CodecRegistry → List ℕ → DialContext → ℕ → SqlitePeerCache
open_cache codecs accepted_record_types dial_context max_candidates = record {
  codecs = codecs;
  accepted_record_types = accepted_record_types;
  dial_context = dial_context;
  max_candidates = max max_candidates 1;
}

-- `load`, at a reading of the clock, which may fail
unfoldable pub load :
    (List ℕ → B256)
    → SqlitePeerCache
    → Result (Unit {0}) CacheError
    → Namespace
    → Result ℕ CacheError
    → List Row
    → Result (List PeerCandidate) CacheError
unfolding load_rows revalidated insert_all ranked new
load keccak256 cache opened namespace unix_time table = do
  rows ← load_rows opened namespace table
  now ← unix_time
  let config : CandidateStoreConfig = record {
    max_candidates = cache.max_candidates;
    sampling_seed = namespace;
  }
  ok (ranked keccak256 (insert_all keccak256 (new config) (revalidated cache namespace now rows)))
