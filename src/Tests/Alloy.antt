-- ===== src/Tests/Alloy.antt =====
-- The theorems about crates/resurrect-ethereum/src/alloy_provider.rs with a client in memory.
use rbp.Prelude.{
  ℕ, ◌+◌, ◌-◌, ◌≡◌, ◌&&◌, refl, inl, inr, String, Bool, false, true, none, some, List, [], ◌∷◌, ok,
  err, ltb, leb, if◌then◌else◌, arith,
}
use native.Mathlib.Decide.{dec_lt}
use rbp.Prelude.Texts.{codes, to_ascii_lowercase}
use rbp.Core.Validation.{Announcement}
use rbp.Ethereum.Alloy.{
  AlloyClient, AlloyRegistryProvider, Log, announcement_of, collect, alloy_provider,
}
use rbp.Ethereum.Alloy.Logs.{AnswersRaw, SaysTooLarge, too_wide, scan_logs-AlloyCovers}
use rbp.Ethereum.Scanner.{LogScan, default_config, policy_at, absorb}
use rbp.Ethereum.Scanner.Scan.{first_state, scan_logs}
use rbp.Tests.{digest, codecs, announcement, mainnet, block_at, logs, constants}

abbrev log : Log
log = record {
  removed = false;
  block_number = some 11;
  log_index = some 0;
  block_hash = none;
  topics = [];
  payload = 9 ∷ [];
}

-- the log of the announcement, behind one that a reorganisation removed
abbrev raw : ℕ → ℕ → List Log
raw a b =
    if leb a 11 && leb 11 b
    then record log { removed = true; block_number = none } ∷ log ∷ []
    else []

abbrev refusal : String
refusal = "Block RANGE is too wide"

-- a client that counts its calls
abbrev client : AlloyClient ℕ
client = record {
  eth_chain_id = λ w. (ok 1, w + 1);
  call_version = λ address w. (ok 1, w + 1);
  call_max_ttl = λ address w. (ok 1, w + 1);
  call_max_record_bytes = λ address w. (ok 1, w + 1);
  get_block_by_number = λ tag w. (err "header not found", w + 1);
  get_logs = λ filter w. (
    if ltb 64 (filter.to_block + 1 - filter.from_block)
        then err refusal
        else ok (raw filter.from_block filter.to_block),
    w + 1,
  );
  send_announce = λ address namespace record_type ttl bytes w. (err "no funds", w + 1);
  get_receipt = λ pending w. (err "dropped", w + 1);
  log_decode_validate = λ l.
      ok (record { namespace = 5; record_type = 1; valid_until = 2000; peer_record = l.payload });
  signature_hash = 99;
}

abbrev provider : AlloyRegistryProvider
provider = record { url = record { scheme = "https" }; writable = false }

says : SaysTooLarge refusal
says = record {
  refusal = too_wide;
  before = codes "block ";
  after = codes " is too wide";
  worded = unfold to_ascii_lowercase in refl;
}

readable_one :
    (b : Bool)
    → collect client
        (if b then record log { removed = true; block_number = none } ∷ log ∷ [] else [])
      ≡ ok (if b then announcement ∷ [] else [])
unfolding collect announcement_of
readable_one true = refl
readable_one false = refl

server : AnswersRaw client mainnet raw logs 64
server = record {
  split = λ a m b low high. ground arith;
  readable = λ a b h. readable_one (leb a 11 && leb 11 b);
  answers = λ a b w h. elim (dec_lt 64 (b + 1 - a)) [
    | yes wide ↦ inr (refusal, ground arith, says, wide)
    | no fits ↦ inl (ground arith)
  ];
}

scan_logs-AlloyCovers_example :
    (s : LogScan) × ((scan_logs
        (alloy_provider client provider)
        default_config
        digest
        codecs
        mainnet
        constants
        (block_at 200)
        []
        10
        0).0
      ≡ ok s)
    × (announcements : List Announcement) × (collect client (raw 10 200) ≡ ok announcements)
    × (s.tally
        ≡ absorb digest codecs
            (policy_at default_config mainnet constants (block_at 200))
            default_config.max_logs_per_scan
            (first_state
              (alloy_provider client provider)
              default_config
              digest
              codecs
              mainnet
              constants
              (block_at 200)
              []
              10).tally
            announcements)
scan_logs-AlloyCovers_example =
    scan_logs-AlloyCovers client mainnet provider raw logs 64 server default_config digest codecs
      constants (block_at 200) (omega arith) (omega arith) [] 10 0 (omega arith)
