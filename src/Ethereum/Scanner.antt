-- ===== src/Ethereum/Scanner.antt =====
-- crates/resurrect-ethereum/src/scanner.rs. The provider is a parameter with a state of its own;
-- u64 and usize are numbers.
pub mod Scan
pub mod StartBlock
pub mod Head
mod Absorb
pub mod Logs
pub mod Termination
pub mod Conformance
use rbp.Prelude.{
  ℕ, zero, suc, ◌+◌, ◌-◌, ◌/◌, max, min, String, Bool, true, false, not, ◌&&◌, ◌||◌, Option, some,
  none, List, [], ◌∷◌, ◌++◌, Result, ok, err, ltb, leb, ◌==◌, nat_eq, if◌then◌else◌, length, take,
}
use rbp.Prelude
use rbp.Prelude.Words.{saturating_add, saturating_sub}
use rbp.Prelude.Stateful.{Stateful, pure, fail, lift, ◌>>=◌, ◌>>◌, map_err}
use rbp.Core.Namespace.{B256, as_bytes}
use rbp.Core.PeerRecord.{PeerCandidate, DialContext, native_server}
use rbp.Core.Descriptor.{
  NetworkDescriptor, DescriptorError, validate, resurrect_version, max_ttl_seconds,
}
use rbp.Core.Validation.{
  Announcement, AnnouncementPolicy, CodecRegistry, validate_announcement, default_max_record_bytes,
  default_max_endpoints_per_record, default_max_active_candidates,
}
use rbp.Core.Candidates
use rbp.Core.Candidates.{CandidateStore, CandidateStoreConfig}
use rbp.Ethereum.Provider.{
  RegistryConstants, BlockInfo, BlockReference, ProviderError, range_limit, unsupported,
  RegistryProvider,
}

abbrev pub default_initial_chunk_size : ℕ
default_initial_chunk_size = 20_000

abbrev pub default_max_logs_per_scan : ℕ
default_max_logs_per_scan = 50_000

pub record ScannerConfig : Type 0 where
  pub initial_chunk_size : ℕ
  pub minimum_chunk_size : ℕ
  pub max_logs_per_scan : ℕ
  pub max_candidates : ℕ
  pub max_endpoints_per_record : ℕ
  pub fallback_confirmations : ℕ
  pub use_finality_tags : Bool
  pub dial_context : DialContext

abbrev pub default_config : ScannerConfig
default_config = record {
  initial_chunk_size = default_initial_chunk_size;
  minimum_chunk_size = 64;
  max_logs_per_scan = default_max_logs_per_scan;
  max_candidates = default_max_active_candidates;
  max_endpoints_per_record = default_max_endpoints_per_record;
  fallback_confirmations = 12;
  use_finality_tags = true;
  dial_context = native_server;
}

pub record ScanCheckpoint : Type 0 where
  pub number : ℕ
  pub hash : B256

pub record ScanReport : Type 0 where
  pub start_block : ℕ
  pub head : BlockInfo
  pub checkpoint : ScanCheckpoint
  pub reorg_detected : Bool
  pub logs_processed : ℕ
  pub records_rejected : ℕ
  pub chunk_reductions : ℕ
  pub candidates : List PeerCandidate

-- `descriptor` carries the error itself, where the code carries its text
pub data ScanError : Type 0 where
  descriptor : DescriptorError → ScanError
  wrong_chain : ℕ → ℕ → ScanError
  registry_constants : RegistryConstants → ScanError
  missing_block : String → ScanError
  deployment_after_head : ℕ → ℕ → ScanError
  provider : ProviderError → ScanError

-- the counters and the store that a scan fills
pub record Tally : Type 0 where
  pub candidates : CandidateStore
  pub logs_processed : ℕ
  pub records_rejected : ℕ

-- the variables of the loop in `scan_logs`
pub record LogScan : Type 0 where
  pub tally : Tally
  pub chunk_reductions : ℕ
  pub chunk_size : ℕ
  pub from : ℕ

-- `usize::try_from` of a u32 succeeds on a 64-bit target
unfoldable pub verify_constants :
    RegistryConstants → NetworkDescriptor → Result (Unit {0}) ScanError
verify_constants constants d =
    if not (constants.version == resurrect_version)
      || (not (constants.max_ttl == max_ttl_seconds)
          || (not (constants.max_ttl == d.registry.max_ttl)
              || not (constants.max_record_bytes == default_max_record_bytes)))
    then err (registry_constants constants)
    else ok tt

unfoldable pub is_range_limit : ProviderError → Bool
is_range_limit (range_limit _) = true
is_range_limit _ = false

unfoldable pub is_unsupported : ProviderError → Bool
is_unsupported (unsupported _) = true
is_unsupported _ = false

-- the policy that `scan_logs` validates with
unfoldable pub policy_at :
    ScannerConfig → NetworkDescriptor → RegistryConstants → BlockInfo → AnnouncementPolicy
policy_at config d constants head = record {
  expected_namespace = d.namespace;
  accepted_record_types = d.accepted_record_types;
  chain_time = head.timestamp;
  max_record_bytes = constants.max_record_bytes;
  max_endpoints = config.max_endpoints_per_record;
  dial_context = config.dial_context;
}

module _ (keccak256 : List ℕ → B256) where
  unfoldable pub sampling_seed : List ℕ → B256 → B256 → B256
  unfolding as_bytes
  sampling_seed local_node_id block_hash namespace =
      keccak256 (local_node_id ++ (as_bytes block_hash ++ as_bytes namespace))

  module _ (codecs : CodecRegistry) (policy : AnnouncementPolicy) where
    -- one announcement
    unfoldable pub take_log : Tally → Announcement → Tally
    take_log t announcement = elim (validate_announcement codecs announcement policy) [
      | ok candidate ↦ record t {
        logs_processed = t.logs_processed + 1;
        candidates = (Candidates.insert keccak256 t.candidates candidate).0;
      }
      | err _ ↦ record t {
        logs_processed = t.logs_processed + 1;
        records_rejected = t.records_rejected + 1;
      }
    ]

    unfoldable pub take_logs : Tally → List Announcement → Tally
    unfolding take_log
    take_logs t [] = t
    take_logs t (a ∷ rest) = take_logs (take_log t a) rest

    -- the `for` loop: at most as many as the cap leaves
    unfoldable pub absorb : ℕ → Tally → List Announcement → Tally
    unfolding take_logs
    absorb cap t announcements = take_logs t (take (cap - t.logs_processed) announcements)
