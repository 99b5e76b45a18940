-- ===== src/Node/Registry/Discovering.antt =====
-- crates/resurrect-node/src/registry.rs: `RegistryDiscovery`, its checkpoint and its counters.
use rbp.Prelude.{
  ℕ, ◌≡◌, ◌≢◌, refl, ap, String, Option, some, List, Result, ok, err, arith, nat_eq, ◌==◌,
  Bool-cases, inl, inr, ◌⊎◌,
}
use rbp.Core.Namespace.{B256, Namespace}
use rbp.Core.PeerRecord.{PeerCandidate}
use rbp.Core.Descriptor.{NetworkDescriptor}
use rbp.Core.Validation.{CodecRegistry}
use rbp.Ethereum.Provider.{RegistryProvider}
use rbp.Ethereum.Scanner.{ScannerConfig, ScanReport, ScanError}
use rbp.Ethereum.Scanner.Scan.{scan}
use rbp.Bootstrap.{BootstrapError}
use rbp.Node.Registry.{DiscoveryState, fetch_add, scanned, discover, count_scan}

module _ {W : Type 0} (chain : RegistryProvider W) (config : ScannerConfig)
    (keccak256 : List ℕ → B256) (codecs : CodecRegistry) (descriptor : NetworkDescriptor)
    (local_node_id : List ℕ) (cache : Option (Namespace → List PeerCandidate → W → W))
    (describe : ScanError → String) where
  abbrev scan_from : DiscoveryState W → Result ScanReport ScanError × W
  scan_from s = scan chain config keccak256 codecs descriptor local_node_id s.checkpoint s.world

  -- the outcome of a discovery from the state `s`
  abbrev pub Counts :
      Namespace
      → DiscoveryState W
      → Result (List PeerCandidate) BootstrapError × DiscoveryState W
      → Type 0
  Counts namespace s (ok candidates, s') =
      (namespace ≡ descriptor.namespace)
      × ((report : ScanReport) × ((scan_from s).0 ≡ ok report)
          × (report.candidates ≡ candidates)
          × (s'.checkpoint ≡ some report.checkpoint))
      × (s'.telemetry.scans ≡ fetch_add s.telemetry.scans 1)
      × (s'.telemetry.scan_failures ≡ s.telemetry.scan_failures)
  Counts namespace s (err _, s') =
      (s'.checkpoint ≡ s.checkpoint)
      × (s'.telemetry.scans ≡ s.telemetry.scans)
      × (((namespace ≢ descriptor.namespace) × (s' ≡ s))
          ⊎ ((namespace ≡ descriptor.namespace)
              × (s'.telemetry.scan_failures ≡ fetch_add s.telemetry.scan_failures 1)))

  scanned-Counts :
      (namespace : Namespace) (s : DiscoveryState W)
      → namespace ≡ descriptor.namespace
      → (r : Result ScanReport ScanError × W) → scan_from s ≡ r
      → Counts namespace s (
          scanned chain config keccak256 codecs descriptor local_node_id cache describe namespace s
            r)
  unfolding count_scan
  scanned-Counts namespace s own (ok report, w) e =
      (own, (report, ap (λ (p : Result ScanReport ScanError × W). p.0) e, refl, refl), refl, refl)
  scanned-Counts namespace s own (err error, w) e = (refl, refl, inr (own, refl))

  -- A discovery for another namespace changes nothing; for the descriptor's own one it counts one scan
  -- or one failure. It moves the checkpoint only when it succeeds, to that of the scan's report, whose
  -- candidates it returns.
  pub discover-Counts :
      (namespace : Namespace) (s : DiscoveryState W)
      → Counts namespace s (
          discover chain config keccak256 codecs descriptor local_node_id cache describe namespace
            s)
  unfolding discover
  discover-Counts namespace s = elim (Bool-cases (namespace == descriptor.namespace)) [
    | inl own ↦ rw own (scanned-Counts namespace s (ground arith) (scan_from s) refl)
    | inr other ↦ rw other (refl, refl, inl (ground arith, refl))
  ]
