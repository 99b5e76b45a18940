-- ===== src/Tests.antt =====
-- Test data for the crates: two peers, a codec, an announcement, a descriptor, a chain and the
-- adapters of a bootstrap.
mod Core
mod Ethereum
mod Bootstrap
mod Node
mod Libp2p
mod SignedRecord
mod Cache
mod P2p
mod Supervisor
mod Cli
mod Identity
mod Descriptor
mod Enr
mod Alloy
mod StatusFile
mod Connector
mod Announced
use rbp.Prelude.{
  ℕ, ◌+◌, ◌-◌, ◌*◌, String, Option, some, none, List, [], ◌∷◌, ◌++◌, length, true, Result, ok, err,
  ltb, leb, ◌&&◌, if◌then◌else◌,
}
use rbp.Core.PeerRecord.{
  PeerCandidate, PeerRecordCodec, PeerRecordError, Endpoint, DialContext, native_server,
  DiscoverySourceKind, native, resurrect_registry,
}
use rbp.Core.Descriptor.{NetworkDescriptor, RegistryDescriptor, resurrect_version, max_ttl_seconds}
use rbp.Core.Validation.{Announcement, AnnouncementPolicy, CodecRegistry}
use rbp.Core.Candidates.{CandidateStoreConfig}
use rbp.Bootstrap.{Adapters, BootstrapPolicy, default_policy, discovery}
use rbp.Ethereum.Provider.{
  RegistryConstants, BlockInfo, BlockReference, number, latest, safe, finalized, RegistryProvider,
  range_limit, read_only,
}

-- stands for a digest
abbrev pub digest : List ℕ → ℕ
digest [] = 0
digest (b ∷ bs) = b + 3 * digest bs

abbrev pub peer_a : PeerCandidate
peer_a = record {
  record_type = 1;
  peer_id = 7 ∷ [];
  sequence = 1;
  endpoints = record { address = "/ip4/1.1.1.1/tcp/1" } ∷ [];
  raw_signed_record = 9 ∷ [];
  expires_at = 0;
  source = native;
  announcement_block = none;
  announcement_log_index = none;
}

abbrev pub peer_b : PeerCandidate
peer_b = record peer_a { peer_id = 8 ∷ [] }

abbrev pub peer_a_renewed : PeerCandidate
peer_a_renewed = record peer_a { sequence = 2 }

abbrev pub codec : PeerRecordCodec
codec = record { record_type = 1; decode_and_verify = λ bytes context. ok peer_a }

abbrev pub codecs : CodecRegistry
codecs = record { codecs = (1, codec) ∷ [] }

abbrev pub announcement : Announcement
announcement = record {
  namespace = 5;
  record_type = 1;
  valid_until = 2000;
  peer_record = 9 ∷ [];
  block_number = 11;
  log_index = 0;
  block_hash = none;
}

abbrev pub policy : AnnouncementPolicy
policy = record {
  expected_namespace = 5;
  accepted_record_types = 1 ∷ 2 ∷ [];
  chain_time = 1000;
  max_record_bytes = 4096;
  max_endpoints = 16;
  dial_context = native_server;
}

abbrev pub mainnet : NetworkDescriptor
mainnet = record {
  version = resurrect_version;
  registry = record { chain_id = 1; address = 3; deployment_block = 10; max_ttl = max_ttl_seconds };
  namespace = 5;
  accepted_record_types = 1 ∷ 2 ∷ [];
}

abbrev pub one_place : CandidateStoreConfig
one_place = record { max_candidates = 1; sampling_seed = 0 }

-- what `codec` and the announcement give
abbrev pub accepted_peer : PeerCandidate
accepted_peer = record peer_a {
  expires_at = 2000;
  source = resurrect_registry;
  announcement_block = some 11;
  announcement_log_index = some 0;
}

abbrev pub constants : RegistryConstants
constants = record { version = 1; max_ttl = max_ttl_seconds; max_record_bytes = 4096 }

abbrev pub block_at : ℕ → BlockInfo
block_at n = record { number = n; timestamp = 10_000_000 + 100_000 * n; hash = n }

-- the logs of the chain, one announcement of block 11
abbrev pub logs : ℕ → ℕ → List Announcement
logs a b = if leb a 11 && leb 11 b then announcement ∷ [] else []

-- a provider that refuses more than 64 blocks at once, and counts the calls it gets
abbrev pub chain : RegistryProvider ℕ
chain = record {
  chain_id = λ w. (ok 1, w + 1);
  registry_constants = λ address w. (ok constants, w + 1);
  block = λ reference w. (ok (served reference), w + 1);
  announcements = λ address namespace from to w. (
    if ltb 64 (to + 1 - from) then err (range_limit "too many blocks") else ok (logs from to),
    w + 1,
  );
  announce = λ address namespace record_type ttl bytes w. (err read_only, w + 1);
}
  where
    served : BlockReference → Option BlockInfo
    served (number n) = some (block_at n)
    served latest = some (block_at 200)
    served safe = some (block_at 190)
    served finalized = some (block_at 180)

-- adapters over the list of the dials started, of which each connects at once; the sources fail or
-- find the two peers
abbrev pub host : Adapters (List PeerCandidate)
host = record {
  cache_discover = λ namespace w. (err (discovery "no cache"), w);
  native_discover = λ namespace w. (ok [], w);
  registry_discover = λ namespace w. (ok (peer_a ∷ peer_b ∷ []), w);
  add_verified_peer = λ peer w. (ok tt, w);
  connected_peers = λ w. (length w, w);
  start_dial = λ peer timeout w. w ++ (peer ∷ []);
  next_done = λ flying w. (0, w);
  drop_dials = λ still w. w;
  eligible = λ w. true;
  announce = λ ttl w. (ok tt, w);
}

-- as many peers as `host` never sees
abbrev pub many_wanted : BootstrapPolicy
many_wanted = record default_policy { minimum_successful_peers = 9; maximum_parallel_dials = 1 }
