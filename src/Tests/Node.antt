-- ===== src/Tests/Node.antt =====
-- The theorems about crates/resurrect-node at concrete inputs.
use rbp.Prelude.{ℕ, ◌+◌, ◌≡◌, refl, true, String, none, List, [], ◌∷◌, Result, ok, nat_eq, contains}
use rbp.Core.Descriptor.{verify_chain_id, DescriptorError}
use rbp.Ethereum.Provider.{RegistryProvider, ProviderError}
use rbp.Ethereum.Scanner.{ScanError}
use rbp.Node.Registry.{
  AnnouncerState, DiscoveryState, jittered_renewal, announce, check_and_publish, publish, schedule,
  unmatched,
}
use rbp.Node.Registry.Announcing.{Checks, Sends, announce-Sends}
use rbp.Tests.{chain, mainnet}

abbrev writable : RegistryProvider ℕ
writable = record chain { announce = λ address namespace record_type ttl bytes w. (ok 77, w + 1) }

abbrev sign : ℕ → Result (List ℕ) String
sign sequence = ok (sequence ∷ [])

abbrev clock : ℕ → Result ℕ String × ℕ
clock w = (ok 500, w)

abbrev draw : ℕ → ℕ → ℕ × ℕ
draw n w = (3, w)

abbrev say : ProviderError → String
say e = "provider"

abbrev say_descriptor : DescriptorError → String
say_descriptor e = "descriptor"

abbrev before : AnnouncerState ℕ
before = record { world = 0; sequence = 7; next_renewal = 0; announcements = 0 }

abbrev after : AnnouncerState ℕ
after = record { world = 3; sequence = 8; next_renewal = 504; announcements = 1 }

announced :
    announce writable mainnet true 1000 sign clock draw say say_descriptor 100 before
    ≡ (ok tt, after)
unfolding announce check_and_publish publish schedule unmatched verify_chain_id contains
    jittered_renewal
announced = refl

announce-Sends_example :
    Checks writable mainnet true 1000 sign clock draw say say_descriptor 100
    × Sends writable mainnet true 1000 sign clock draw say say_descriptor 100 before after
announce-Sends_example =
    announce-Sends writable mainnet true 1000 sign clock draw say say_descriptor 100 before after
      refl announced

abbrev unused : DiscoveryState ℕ
unused = record {
  world = 0;
  checkpoint = none;
  telemetry = record {
    scans = 0;
    scan_failures = 0;
    logs_processed = 0;
    rejected_records = 0;
    reorgs = 0;
    announcements = 0;
  };
}

abbrev say_scan : ScanError → String
say_scan e = "scan"
