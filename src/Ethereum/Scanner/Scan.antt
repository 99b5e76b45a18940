-- ===== src/Ethereum/Scanner/Scan.antt =====
-- crates/resurrect-ethereum/src/scanner.rs: the loops of `RegistryScanner` and `scan` itself. Each
-- loop runs on fuel that reaches zero only where its own test fails.
use rbp.Prelude.{
  ℕ, zero, suc, ◌+◌, ◌-◌, ◌/◌, max, min, Bool, true, false, not, ◌&&◌, Option, some, none, List,
  Result, ok, err, ltb, leb, ◌==◌, nat_eq, if◌then◌else◌, ok_or,
}
use rbp.Prelude.Words.{saturating_add, saturating_sub}
use rbp.Prelude.Stateful.{Stateful, pure, fail, lift, ◌>>=◌, ◌>>◌, map_err}
use rbp.Prelude.{map_err as map_error}
use rbp.Core.Namespace.{B256}
use rbp.Core.Descriptor.{NetworkDescriptor, validate}
use rbp.Core.Validation.{CodecRegistry}
use rbp.Core.Candidates
use rbp.Ethereum.Provider.{
  RegistryConstants, BlockInfo, BlockReference, ProviderError, RegistryProvider,
}
use rbp.Ethereum.Scanner.{
  ScannerConfig, ScanCheckpoint, ScanReport, ScanError, descriptor, wrong_chain, missing_block,
  deployment_after_head, provider, LogScan, verify_constants, is_range_limit, is_unsupported,
  policy_at, sampling_seed, absorb,
}

module _ {W : Type 0} (chain : RegistryProvider W) (config : ScannerConfig) where
  abbrev block : BlockReference → Stateful W (Option BlockInfo) ScanError
  block reference = map_err provider (chain.block reference)

  abbrev required : Option BlockInfo → ScanError → Stateful W BlockInfo ScanError
  required found missing = lift (ok_or missing found)

  -- the fallback when no finality tag answers
  unfoldable pub fallback_head : Stateful W BlockInfo ScanError
  fallback_head = do
    found ← block BlockReference.latest
    latest ← required found (missing_block "latest")
    confirmed ←
        block (BlockReference.number (saturating_sub latest.number config.fallback_confirmations))
    required confirmed (missing_block "confirmed")

  -- one `match` on a finality tag: a block ends the search, no block or no support goes on
  unfoldable pub tagged_head :
      Result (Option BlockInfo) ProviderError × W
      → Stateful W BlockInfo ScanError
      → Result BlockInfo ScanError × W
  tagged_head (ok (some found), w) next = (ok found, w)
  tagged_head (ok none, w) next = next w
  tagged_head (err e, w) next = if is_unsupported e then next w else (err (provider e), w)

  unfoldable pub confirmed_head : Stateful W BlockInfo ScanError
  unfolding tagged_head
  confirmed_head w =
      if config.use_finality_tags
      then tagged_head (chain.block BlockReference.finalized w)
          (λ v. tagged_head (chain.block BlockReference.safe v) fallback_head)
      else fallback_head w

  unfoldable pub detect_reorg : Option ScanCheckpoint → Stateful W Bool ScanError
  detect_reorg none = pure false
  detect_reorg (some previous) = do
    current ← block (BlockReference.number previous.number)
    elim current [ none ↦ pure true | some found ↦ pure (not (found.hash == previous.hash)) ]

  -- the `while low < high` loop; the fuel is a bound of `high - low`
  unfoldable pub search_start : ℕ → ℕ → ℕ → ℕ → Stateful W ℕ ScanError
  search_start zero cutoff low high = pure low
  search_start (suc fuel) cutoff low high =
      if ltb low high
      then (do
        let middle = low + (high - low) / 2
        found ← block (BlockReference.number middle)
        b ← required found (missing_block "timestamp-search")
        let upper = search_start fuel cutoff (middle + 1) high
        let lower = search_start fuel cutoff low middle
        if ltb b.timestamp cutoff then upper else lower)
      else pure low

  unfoldable pub find_start_block : ℕ → ℕ → ℕ → Stateful W ℕ ScanError
  unfolding search_start
  find_start_block deployment_block head cutoff =
      if leb head deployment_block
      then pure (min deployment_block head)
      else search_start (head - deployment_block) cutoff deployment_block head

  module _ (keccak256 : List ℕ → B256) (codecs : CodecRegistry) (d : NetworkDescriptor)
      (constants : RegistryConstants) (head : BlockInfo) where
    -- the last block of the next query
    unfoldable pub chunk_end : LogScan → ℕ
    chunk_end s = min (saturating_add s.from (saturating_sub s.chunk_size 1)) head.number

    -- `minimum_chunk_size` of the loop
    abbrev pub smallest_chunk : ℕ
    smallest_chunk = max config.minimum_chunk_size 1

    -- the `while` loop
    unfoldable pub scan_loop : ℕ → LogScan → Stateful W LogScan ScanError
    unfolding chunk_end
    scan_loop zero s w = (ok s, w)
    scan_loop (suc fuel) s w =
        if leb s.from head.number && ltb s.tally.logs_processed config.max_logs_per_scan
        then (let to = chunk_end s in
            let (answer, v) = chain.announcements d.registry.address d.namespace s.from to w in
            elim answer [
              | ok announcements ↦
                  let tally =
                    absorb keccak256 codecs (policy_at config d constants head)
                      config.max_logs_per_scan s.tally announcements in
                  let next = scan_loop fuel (record s { tally = tally; from = to + 1 }) v in
                  if to == head.number then (ok (record s { tally = tally }), v) else next
              | err e ↦
                  let narrower = record s {
                    chunk_size = max (s.chunk_size / 2) smallest_chunk;
                    chunk_reductions = s.chunk_reductions + 1;
                  } in
                  let next = scan_loop fuel narrower v in
                  if is_range_limit e && ltb smallest_chunk s.chunk_size
                  then next
                  else (err (provider e), v)
            ])
        else (ok s, w)

    -- what is left of the scan: the blocks ahead and the width that can still shrink
    unfoldable pub remaining : LogScan → ℕ
    remaining s = (head.number + 1 - s.from) + s.chunk_size

    unfoldable pub first_state : List ℕ → ℕ → LogScan
    first_state local_node_id start_block = record {
      tally = record {
        candidates = Candidates.new (record {
          max_candidates = config.max_candidates;
          sampling_seed = sampling_seed keccak256 local_node_id head.hash d.namespace;
        });
        logs_processed = 0;
        records_rejected = 0;
      };
      chunk_reductions = 0;
      chunk_size = max config.initial_chunk_size 1;
      from = start_block;
    }

    unfoldable pub scan_logs : List ℕ → ℕ → Stateful W LogScan ScanError
    unfolding scan_loop remaining first_state
    scan_logs local_node_id start_block =
        let s = first_state local_node_id start_block in scan_loop (remaining s) s

  module _ (keccak256 : List ℕ → B256) (codecs : CodecRegistry) where
    unfoldable pub scan :
        NetworkDescriptor → List ℕ → Option ScanCheckpoint → Stateful W ScanReport ScanError
    unfolding confirmed_head detect_reorg find_start_block scan_logs
    scan d local_node_id previous = do
      lift (map_error descriptor (validate d))
      actual ← map_err provider chain.chain_id
      if not (actual == d.registry.chain_id)
          then fail (wrong_chain d.registry.chain_id actual)
          else do
            constants ← map_err provider (chain.registry_constants d.registry.address)
            lift (verify_constants constants d)
            head ← confirmed_head
            let after = ltb head.number d.registry.deployment_block
            if after
                then fail (deployment_after_head d.registry.deployment_block head.number)
                else do
                  reorg_detected ← detect_reorg previous
                  let cutoff = saturating_sub head.timestamp d.registry.max_ttl
                  start_block ← find_start_block d.registry.deployment_block head.number cutoff
                  scanned ← scan_logs keccak256 codecs d constants head local_node_id start_block
                  pure (record {
                    start_block = start_block;
                    head = head;
                    checkpoint = record { number = head.number; hash = head.hash };
                    reorg_detected = reorg_detected;
                    logs_processed = scanned.tally.logs_processed;
                    records_rejected = scanned.tally.records_rejected;
                    chunk_reductions = scanned.chunk_reductions;
                    candidates = Candidates.ranked keccak256 scanned.tally.candidates;
                  })
