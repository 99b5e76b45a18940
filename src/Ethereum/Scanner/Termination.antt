-- ===== src/Ethereum/Scanner/Termination.antt =====
-- The fuel of the log scan never decides its result, whatever the provider answers.
use rbp.Prelude.{ℕ, zero, suc, ◌+◌, ◌≤◌, ◌≡◌, inl, inr, max, ◌/◌, List, Result-cases, arith}
use rbp.Prelude.Words.{u64_max}
use rbp.Core.Namespace.{B256}
use rbp.Core.Descriptor.{NetworkDescriptor}
use rbp.Core.Validation.{CodecRegistry}
use rbp.Ethereum.Provider.{BlockInfo, RegistryConstants, RegistryProvider}
use rbp.Ethereum.Scanner.{ScannerConfig, LogScan, absorb, policy_at}
use rbp.Ethereum.Scanner.Scan.{scan_loop, chunk_end, remaining}
use rbp.Ethereum.Scanner.Logs.{chunk_end-bounds}

module _ {W : Type 0} (chain : RegistryProvider W) (config : ScannerConfig)
    (keccak256 : List ℕ → B256) (codecs : CodecRegistry) (d : NetworkDescriptor)
    (constants : RegistryConstants) (head : BlockInfo) (fits : head.number ≤ u64_max) where
  -- For a head within u64: more fuel than the blocks ahead and the width of a chunk changes nothing,
  -- whatever the provider answers, so the scan never stops for want of fuel.
  pub scan_loop-suc :
      (fuel : ℕ) (s : LogScan) (w : W)
      → remaining chain config keccak256 codecs d constants head s ≤ fuel
      → scan_loop chain config keccak256 codecs d constants head (suc fuel) s w
        ≡ scan_loop chain config keccak256 codecs d constants head fuel s w
  unfolding scan_loop remaining
  scan_loop-suc zero s w enough = ground arith
  scan_loop-suc (suc fuel) s w enough =
      let to = chunk_end chain config keccak256 codecs d constants head s in
      let (answer, v) = chain.announcements d.registry.address d.namespace s.from to w in
      let bounds = chunk_end-bounds chain config keccak256 codecs d constants head fits s in
      elim (Result-cases answer) [
        | inl (l, took) ↦
            let tally =
              absorb keccak256 codecs (policy_at config d constants head) config.max_logs_per_scan
                s.tally l in
            ground (
              arith,
              took,
              bounds,
              scan_loop-suc fuel (record s { tally = tally; from = to + 1 }) v,
            )
        | inr (e, refused) ↦
            let narrower = record s {
              chunk_size = max (s.chunk_size / 2) (max config.minimum_chunk_size 1);
              chunk_reductions = s.chunk_reductions + 1;
            } in
            ground (arith, refused, scan_loop-suc fuel narrower v)
      ]
