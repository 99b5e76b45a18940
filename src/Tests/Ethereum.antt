-- ===== src/Tests/Ethereum.antt =====
-- The theorems about crates/resurrect-ethereum at concrete inputs.
use rbp.Prelude.{ℕ, ◌-◌, ◌≡◌, ◌≢◌, ◌≤◌, refl, [], ok, arith}
use rbp.Prelude.{true, ◌⊎◌, false, none, contains, take}
use rbp.Ethereum.Provider.{RegistryProvider, safe, finalized}
use rbp.Ethereum.Scanner.Head.{Gave, IsDeep, confirmed_head-IsSettled}
use rbp.Core.Descriptor.{validate, check_unique}
use rbp.Core.Descriptor.Validity.{IsValid}
use rbp.Core.Candidates.{new, ranked, sort_by_key}
use rbp.Ethereum.Scanner.{ScanReport, verify_constants, absorb, take_logs}
use rbp.Ethereum.Scanner.Scan.{
  scan, confirmed_head, fallback_head, tagged_head, detect_reorg, chunk_end,
}
use rbp.Ethereum.Scanner.Conformance.{scan-Conforms}
use rbp.Core.Validation.{validate_announcement}
use rbp.Ethereum.Scanner.{ScannerConfig, LogScan, default_config, policy_at}
use rbp.Ethereum.Scanner.Scan.{
  find_start_block, search_start, scan_loop, scan_logs, first_state, remaining,
}
use rbp.Ethereum.Scanner.StartBlock.{
  Serves, IsMonotone, SplitsAt, find_start_block-SplitsAt, find_start_block-expired,
}
use rbp.Ethereum.Scanner.Logs.{AnswersLogs, Covers, scan_logs-Covers}
use rbp.Ethereum.Scanner.Termination.{scan_loop-suc}
use rbp.Tests.{
  digest, codecs, announcement, mainnet, block_at, logs, chain, constants, accepted_peer,
}

serves : Serves chain block_at
serves n w = refl

monotone : IsMonotone block_at
monotone m n h = omega (arith, h)

find_start_block-SplitsAt_example :
    (r : ℕ) × ((find_start_block chain default_config 10 200 22_224_000 0).0 ≡ ok r)
    × SplitsAt block_at 22_224_000 10 200 r
find_start_block-SplitsAt_example =
    find_start_block-SplitsAt chain default_config block_at serves monotone 10 200 22_224_000 0
      (omega arith)

honest : AnswersLogs chain mainnet logs 64
honest = record { split = λ a m b h k. ground arith; answers = λ a b w h. ground arith }

scan_logs-Covers_example :
    Covers chain default_config digest codecs mainnet constants
      (block_at 200)
      (omega arith)
      logs
      64
      honest
      (omega arith)
      (first_state chain default_config digest codecs mainnet constants (block_at 200) [] 10)
      (scan_logs chain default_config digest codecs mainnet constants (block_at 200) [] 10 0).0
scan_logs-Covers_example =
    scan_logs-Covers chain default_config digest codecs mainnet constants (block_at 200)
      (omega arith) logs 64 honest (omega arith) [] 10 0 (omega arith)

start-found :
    (find_start_block chain default_config 10 200 ((block_at 200).timestamp - 7_776_000) 0).0
    ≡ ok 123
unfolding find_start_block search_start
start-found = refl

find_start_block-expired_example :
    validate_announcement codecs announcement
      (policy_at default_config mainnet constants (block_at 200))
    ≢ ok accepted_peer
find_start_block-expired_example =
    find_start_block-expired chain default_config block_at serves monotone codecs mainnet constants
      (block_at 200) announcement accepted_peer 123 0 (omega arith) start-found (omega arith)
      (omega arith) (omega arith)

abbrev start : LogScan
start = first_state chain default_config digest codecs mainnet constants (block_at 200) [] 10

start-remaining :
    remaining chain default_config digest codecs mainnet constants (block_at 200) start ≤ 30_000
unfolding remaining first_state
start-remaining = omega arith

scan_loop-suc_example :
    scan_loop chain default_config digest codecs mainnet constants (block_at 200) 30_001 start 0
    ≡ scan_loop chain default_config digest codecs mainnet constants (block_at 200) 30_000 start 0
scan_loop-suc_example =
    scan_loop-suc chain default_config digest codecs mainnet constants (block_at 200) (omega arith)
      30_000 start 0 start-remaining

abbrev quiet : RegistryProvider ℕ
quiet = record chain { announcements = λ address namespace from to w. (ok [], w) }

abbrev quiet_report : ScanReport
quiet_report = record {
  start_block = 103;
  head = block_at 180;
  checkpoint = record { number = 180; hash = 180 };
  reorg_detected = false;
  logs_processed = 0;
  records_rejected = 0;
  chunk_reductions = 0;
  candidates = [];
}

scan_ends :
    (scan quiet default_config digest codecs mainnet [] none 0)
    ≡ (ok quiet_report, (scan quiet default_config digest codecs mainnet [] none 0).1)
unfolding scan validate check_unique contains verify_constants confirmed_head tagged_head
    detect_reorg find_start_block search_start scan_logs scan_loop remaining first_state chunk_end
    absorb take_logs take new ranked sort_by_key
scan_ends = refl

scan-Conforms_example :
    IsValid mainnet
    × ((quiet.chain_id 0).0 ≡ ok mainnet.registry.chain_id)
    × (mainnet.registry.deployment_block ≤ quiet_report.head.number)
    × (quiet_report.checkpoint.number ≡ quiet_report.head.number)
    × (quiet_report.checkpoint.hash ≡ quiet_report.head.hash)
scan-Conforms_example =
    scan-Conforms quiet default_config digest codecs mainnet [] none quiet_report 0
      (scan quiet default_config digest codecs mainnet [] none 0).1 scan_ends

abbrev untagged : ScannerConfig
untagged = record default_config { use_finality_tags = false }

head_deep : (confirmed_head chain untagged 0).0 ≡ ok (block_at 188)
unfolding confirmed_head fallback_head
head_deep = refl

confirmed_head-IsSettled_example :
    ((untagged.use_finality_tags ≡ true)
      × (Gave chain untagged finalized (block_at 188) ⊎ Gave chain untagged safe (block_at 188)))
    ⊎ IsDeep chain untagged (block_at 188)
confirmed_head-IsSettled_example =
    confirmed_head-IsSettled chain untagged 0 (block_at 188) head_deep
