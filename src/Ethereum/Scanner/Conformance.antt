-- ===== src/Ethereum/Scanner/Conformance.antt =====
-- crates/resurrect-ethereum/src/scanner.rs: what a scan that ends normally has checked.
use rbp.Prelude.{ℕ, ◌≡◌, ◌≤◌, inl, inr, Option, List, ok, arith, Result-cases, nat_eq}
use rbp.Prelude.Words.{saturating_sub}
use rbp.Core.Namespace.{B256}
use rbp.Core.Descriptor.{NetworkDescriptor, validate}
use rbp.Core.Descriptor.Validity.{IsValid, validate-IsValid}
use rbp.Core.Validation.{CodecRegistry}
use rbp.Ethereum.Provider.{RegistryProvider}
use rbp.Ethereum.Scanner.{ScannerConfig, ScanCheckpoint, ScanReport, verify_constants}
use rbp.Ethereum.Scanner.Scan.{scan, confirmed_head, detect_reorg, find_start_block, scan_logs}

module _ {W : Type 0} (chain : RegistryProvider W) (config : ScannerConfig)
    (keccak256 : List ℕ → B256) (codecs : CodecRegistry) (d : NetworkDescriptor) where
  -- A scan that ends normally had a valid descriptor and a chain with the descriptor's id; its head is
  -- not before the deployment, and its checkpoint is that head.
  pub scan-Conforms :
      (local_node_id : List ℕ) (previous : Option ScanCheckpoint) (report : ScanReport) (w w' : W)
      → scan chain config keccak256 codecs d local_node_id previous w ≡ (ok report, w')
      → IsValid d
        × ((chain.chain_id w).0 ≡ ok d.registry.chain_id)
        × (d.registry.deployment_block ≤ report.head.number)
        × (report.checkpoint.number ≡ report.head.number)
        × (report.checkpoint.hash ≡ report.head.hash)
  unfolding scan
  scan-Conforms local_node_id previous report w w' h = elim (Result-cases (validate d)) [
    | inr (e, bad) ↦ absurd (ground arith)
    | inl (unit, valid) ↦ elim (Result-cases (chain.chain_id w).0) [
      | inr (e, failed) ↦ absurd (ground arith)
      | inl (actual, known) ↦
          let same : actual ≡ d.registry.chain_id = ground arith in
          let w1 = (chain.chain_id w).1 in
          elim (Result-cases (chain.registry_constants d.registry.address w1).0) [
            | inr (e, failed) ↦ absurd (ground arith)
            | inl (constants, got) ↦ elim (Result-cases (verify_constants constants d)) [
              | inr (e, failed) ↦ absurd (ground arith)
              | inl (unit2, verified) ↦
                  let w2 = (chain.registry_constants d.registry.address w1).1 in
                  elim (Result-cases (confirmed_head chain config w2).0) [
                    | inr (e, failed) ↦ absurd (ground arith)
                    | inl (head, confirmed) ↦
                        let w3 = (confirmed_head chain config w2).1 in
                        let within : d.registry.deployment_block ≤ head.number = ground arith in
                        let valid_d = (validate-IsValid d).0 valid in
                        elim (Result-cases (detect_reorg chain config previous w3).0) [
                          | inr (e, failed) ↦ absurd (ground arith)
                          | inl (reorg, detected) ↦
                              let w4 = (detect_reorg chain config previous w3).1 in
                              let start =
                                find_start_block chain config d.registry.deployment_block
                                  head.number (saturating_sub head.timestamp d.registry.max_ttl)
                                  w4 in
                              elim (Result-cases start.0) [
                                | inr (e, failed) ↦ absurd (ground arith)
                                | inl (block, found) ↦
                                    elim (Result-cases
                                      (scan_logs chain config keccak256 codecs d constants head
                                        local_node_id block start.1).0) [
                                          | inr (e, failed) ↦ absurd (ground arith)
                                          | inl (out, scanned) ↦ (
                                            valid_d,
                                            cc (known, same),
                                            ground arith,
                                            ground arith,
                                            ground arith,
                                          )
                                        ]
                              ]
                        ]
                  ]
            ]
          ]
    ]
  ]
