-- ===== src/Node/Registry.antt =====
-- crates/resurrect-node/src/registry.rs: the registry as a discovery source, and the announcer. The
-- chain, the cache, the clock and the random numbers share a state `W`; what the code turns into an
-- error text is a parameter.
pub mod Announcing
pub mod Discovering
use rbp.Prelude.{
  ℕ, ◌+◌, ◌-◌, ◌*◌, ◌/◌, ◌%◌, ◌^◌, min, max, String, Bool, true, false, not, ◌&&◌, ◌||◌, Option,
  some, none, List, Result, ok, err, ltb, leb, ◌==◌, nat_eq, if◌then◌else◌, contains,
}
use rbp.Prelude.{map_err as map_error}
use rbp.Prelude.Words.{u32_max, saturating_add, saturating_mul, saturating_sub}
use rbp.Prelude.Stateful.{Stateful, pure, fail, lift, ◌>>=◌, ◌>>◌}
use rbp.Core.Namespace.{B256, Namespace}
use rbp.Core.PeerRecord.{PeerCandidate, record_type_libp2p}
use rbp.Core.Descriptor.{
  NetworkDescriptor, DescriptorError, verify_chain_id, resurrect_version, max_ttl_seconds,
}
use rbp.Core.Validation.{CodecRegistry, default_max_record_bytes}
use rbp.Ethereum.Provider.{RegistryProvider, RegistryConstants, ProviderError}
use rbp.Ethereum.Scanner.{ScannerConfig, ScanCheckpoint, ScanReport, ScanError}
use rbp.Ethereum.Scanner.Scan.{scan}
use rbp.Bootstrap.{BootstrapError, discovery, announcement}

-- `RegistryTelemetry`, and what `snapshot` copies
pub record RegistryTelemetry : Type 0 where
  pub scans : ℕ
  pub scan_failures : ℕ
  pub logs_processed : ℕ
  pub rejected_records : ℕ
  pub reorgs : ℕ
  pub announcements : ℕ

-- `AtomicU64::fetch_add` wraps around
abbrev pub fetch_add : ℕ → ℕ → ℕ
fetch_add counter n = (counter + n) % 2 ^ 64

-- what `RegistryDiscovery` changes
pub record DiscoveryState (W : Type 0) : Type 0 where
  pub world : W
  pub checkpoint : Option ScanCheckpoint
  pub telemetry : RegistryTelemetry

-- the counters after a successful scan
unfoldable pub count_scan : RegistryTelemetry → ScanReport → RegistryTelemetry
count_scan t report = record t {
  scans = fetch_add t.scans 1;
  logs_processed = fetch_add t.logs_processed report.logs_processed;
  rejected_records = fetch_add t.rejected_records report.records_rejected;
  reorgs = if report.reorg_detected then fetch_add t.reorgs 1 else t.reorgs;
}

module _ {W : Type 0} (chain : RegistryProvider W) (config : ScannerConfig)
    (keccak256 : List ℕ → B256) (codecs : CodecRegistry) (descriptor : NetworkDescriptor)
    (local_node_id : List ℕ) (cache : Option (Namespace → List PeerCandidate → W → W))
    (describe : ScanError → String) where
  -- `store_verified`, whose error is only logged
  abbrev store_verified : Namespace → List PeerCandidate → W → W
  store_verified namespace candidates w = elim cache [
    | none ↦ w
    | some store ↦ store namespace candidates w
  ]

  abbrev pub scanned :
      Namespace
      → DiscoveryState W
      → Result ScanReport ScanError × W
      → Result (List PeerCandidate) BootstrapError × DiscoveryState W
  scanned namespace s (err error, w) = (
    err (discovery (describe error)),
    record s {
      world = w;
      telemetry = record s.telemetry { scan_failures = fetch_add s.telemetry.scan_failures 1 };
    },
  )
  scanned namespace s (ok report, w) = (
    ok report.candidates,
    record {
      world = store_verified namespace report.candidates w;
      checkpoint = some report.checkpoint;
      telemetry = count_scan s.telemetry report;
    },
  )

  unfoldable pub discover :
      Namespace → Stateful (DiscoveryState W) (List PeerCandidate) BootstrapError
  unfolding scan count_scan
  discover namespace s =
      let result =
        scanned namespace s
          (scan chain config keccak256 codecs descriptor local_node_id s.checkpoint s.world) in
      if not (namespace == descriptor.namespace)
      then (err (discovery "bootstrap namespace differs from descriptor"), s)
      else result

-- what `RegistryAnnouncer` changes
pub record AnnouncerState (W : Type 0) : Type 0 where
  pub world : W
  pub sequence : ℕ
  pub next_renewal : ℕ
  pub announcements : ℕ

-- `window` of `jittered_renewal`
abbrev pub jitter_window : ℕ → ℕ → ℕ
jitter_window base ttl =
    min (min (24 * 60 * 60) (saturating_sub base 1)) (saturating_sub (saturating_sub ttl base) 1)

-- `jittered_renewal` with the number drawn from `0..=window * 2`
unfoldable pub jittered_renewal : ℕ → ℕ → ℕ → ℕ
jittered_renewal base ttl drawn =
    if jitter_window base ttl == 0
    then base
    else saturating_add (saturating_sub base (jitter_window base ttl)) drawn

abbrev pub base_renewal : ℕ → ℕ → ℕ
base_renewal renewal_interval ttl = min renewal_interval (max (ttl / 2) 1)

unfoldable pub unmatched : RegistryConstants → NetworkDescriptor → Bool
unmatched constants descriptor =
    not (constants.version == resurrect_version)
    || (not (constants.max_ttl == max_ttl_seconds)
        || (not (constants.max_ttl == descriptor.registry.max_ttl)
            || not (constants.max_record_bytes == default_max_record_bytes)))

module _ {W : Type 0} (chain : RegistryProvider W) (descriptor : NetworkDescriptor)
    (is_eligible : Bool) (renewal_interval : ℕ) (sign_peer_record : ℕ → Result (List ℕ) String)
    (unix_time : W → Result ℕ String × W) (random_range : ℕ → W → ℕ × W)
    (describe : ProviderError → String) (describe_descriptor : DescriptorError → String) where
  unfoldable pub renewal_due : AnnouncerState W → Bool
  renewal_due s = elim (unix_time s.world).0 [
    | ok now ↦ is_eligible && leb s.next_renewal now
    | err _ ↦ false
  ]

  unfoldable pub eligible : AnnouncerState W → Bool
  unfolding renewal_due
  eligible s = is_eligible && renewal_due s

  -- a call on the outside, with the text of its error
  abbrev pub call :
      {A E : Type 0}
      → (E → String)
      → (W → Result A E × W)
      → Stateful (AnnouncerState W) A BootstrapError
  call text m s =
      let (r, w) = m s.world in (map_error (λ e. announcement (text e)) r, record s { world = w })

  -- `self.sequence.fetch_add(1, …)`, which returns the old number
  abbrev pub next_sequence : Stateful (AnnouncerState W) ℕ BootstrapError
  next_sequence s = (ok s.sequence, record s { sequence = fetch_add s.sequence 1 })

  -- what follows the transaction
  unfoldable pub schedule : ℕ → ℕ → Stateful (AnnouncerState W) (Unit {0}) BootstrapError
  unfolding jittered_renewal
  schedule ttl now s =
      let base = base_renewal renewal_interval ttl in
      let window = jitter_window base ttl in
      let (drawn, w) =
        if window == 0 then (0, s.world) else random_range (saturating_mul window 2) s.world in
      (
        ok tt,
        record s {
          world = w;
          next_renewal = saturating_add now (jittered_renewal base ttl drawn);
          announcements = fetch_add s.announcements 1;
        },
      )

  -- the signature, the transaction and the next renewal
  unfoldable pub publish : ℕ → Stateful (AnnouncerState W) (Unit {0}) BootstrapError
  unfolding schedule
  publish ttl = do
    sequence ← next_sequence
    bytes ← lift (map_error announcement (sign_peer_record sequence))
    transaction ← call describe (
        chain.announce descriptor.registry.address descriptor.namespace record_type_libp2p ttl
          bytes)
    now ← call (λ e. e) unix_time
    schedule ttl now

  -- the checks on the chain, and then the publication
  unfoldable pub check_and_publish : ℕ → Stateful (AnnouncerState W) (Unit {0}) BootstrapError
  unfolding publish unmatched
  check_and_publish ttl = do
    actual ← call describe chain.chain_id
    lift (map_error (λ e. announcement (describe_descriptor e)) (verify_chain_id descriptor actual))
    constants ← call describe (chain.registry_constants descriptor.registry.address)
    let wrong : String = "deployed registry constants do not match Resurrect v1"
    if unmatched constants descriptor then fail (announcement wrong) else publish ttl

  unfoldable pub announce : ℕ → Stateful (AnnouncerState W) (Unit {0}) BootstrapError
  unfolding check_and_publish
  announce ttl =
      if not is_eligible
      then pure tt
      else if not (contains descriptor.accepted_record_types record_type_libp2p)
      then fail (announcement "descriptor does not accept libp2p peer records")
      else if ltb u32_max ttl
      then fail (announcement "announcement TTL exceeds uint32")
      else if ttl == 0 || ltb descriptor.registry.max_ttl ttl
      then fail (announcement "announcement TTL is outside registry bounds")
      else check_and_publish ttl
