-- ===== src/Ethereum/Alloy/Logs.antt =====
-- crates/resurrect-ethereum/src/alloy_provider.rs: the logs of a range, and the scan over them.
use rbp.Prelude.{
  ℕ, ◌+◌, ◌-◌, ◌≤◌, ◌<◌, ◌≡◌, ◌⊎◌, inl, inr, String, Bool, true, ◌||◌, List, [], ◌∷◌, ◌++◌, ok, err,
  Result-cases, Bool-cases, arith,
}
use rbp.Prelude.Words.{u64_max}
use rbp.Prelude.Texts.{codes, to_ascii_lowercase, contains_text, contains_text-append}
use rbp.Core.Namespace.{B256}
use rbp.Core.Descriptor.{NetworkDescriptor}
use rbp.Core.Validation.{Announcement, CodecRegistry}
use rbp.Ethereum.Provider.{BlockInfo, RegistryConstants, RegistryProvider, range_limit}
use rbp.Ethereum.Alloy.{
  AlloyClient, AlloyRegistryProvider, Log, filter_of, announcement_of, collect, looks_too_large,
  map_log_error, announcements, alloy_provider,
}
use rbp.Ethereum.Scanner.{ScannerConfig, LogScan, policy_at, absorb}
use rbp.Ethereum.Scanner.Scan.{first_state, scan_logs, smallest_chunk}
use rbp.Ethereum.Scanner.Logs.{AnswersLogs, scan_logs-Covers}

-- how servers word that a range is too large
pub data Refusal : Type 0 where
  too_wide too_many too_long over_limit too_much : Refusal

abbrev pub wording : Refusal → String
wording too_wide = "range"
wording too_many = "too many"
wording too_long = "response size"
wording over_limit = "limit exceeded"
wording too_much = "query returned more than"

-- a message that has such words somewhere, in small or capital letters
pub record SaysTooLarge (message : String) : Type 0 where
  pub refusal : Refusal
  pub before : List ℕ
  pub after : List ℕ
  pub worded : to_ascii_lowercase (codes message) ≡ before ++ (codes (wording refusal) ++ after)

one_of :
    (r : Refusal) (test : Refusal → Bool)
    → test r ≡ true
    → (test too_wide || (test too_many || (test too_long || (test over_limit || test too_much))))
      ≡ true
one_of too_wide test h = ground arith
one_of too_many test h = ground arith
one_of too_long test h = ground arith
one_of over_limit test h = ground arith
one_of too_much test h = ground arith

looks_too_large-SaysTooLarge :
    (message : String) → SaysTooLarge message → looks_too_large message ≡ true
unfolding looks_too_large
looks_too_large-SaysTooLarge message s =
    one_of s.refusal (λ r. contains_text (to_ascii_lowercase (codes message)) (codes (wording r)))
      (rw (s.worded) (contains_text-append s.before (codes (wording s.refusal)) s.after))

-- Two queries for logs of which both can be read give, one after the other, what is read of them.
collect-append :
    {W : Type 0} (client : AlloyClient W) (l m : List Log) (a b : List Announcement)
    → collect client l ≡ ok a
    → collect client m ≡ ok b
    → collect client (l ++ m) ≡ ok (a ++ b)
unfolding collect
collect-append client [] m a b g h = ground arith
collect-append client (x ∷ l) m a b g h = elim (Bool-cases x.removed) [
  | inl gone ↦ ground (arith, collect-append client l m a b)
  | inr kept ↦ elim (Result-cases (announcement_of client x)) [
    | inr (e, bad) ↦ absurd (ground arith)
    | inl (y, good) ↦ elim (Result-cases (collect client l)) [
      | inr (e, bad) ↦ absurd (ground arith)
      | inl (ys, rest) ↦ ground (arith, collect-append client l m ys b rest h)
    ]
  ]
]

-- What a server answers to a query for the logs of a range: all of them, which can be read, or a
-- text that words that the range is too large, if it has more than `limit` blocks.
pub record AnswersRaw {W : Type 0} (client : AlloyClient W) (d : NetworkDescriptor)
    (raw : ℕ → ℕ → List Log) (logs : ℕ → ℕ → List Announcement) (limit : ℕ) : Type 0 where
  pub split : (a m b : ℕ) → a ≤ m → m < b → raw a m ++ raw (m + 1) b ≡ raw a b
  pub readable : (a b : ℕ) → a ≤ b → collect client (raw a b) ≡ ok (logs a b)
  pub answers :
      (a b : ℕ) (w : W)
      → a ≤ b
      → ((client.get_logs (filter_of client d.registry.address d.namespace a b) w).0 ≡ ok (raw a b))
        ⊎ ((message : String) × ((client.get_logs
                (filter_of client d.registry.address d.namespace a b)
                w).0
              ≡ err message)
            × SaysTooLarge message
            × (limit < b + 1 - a))

module _ {W : Type 0} (client : AlloyClient W) (d : NetworkDescriptor)
    (self : AlloyRegistryProvider) (raw : ℕ → ℕ → List Log) (logs : ℕ → ℕ → List Announcement)
    (limit : ℕ) (server : AnswersRaw client d raw logs limit) where
  announcements-raw :
      (a b : ℕ) (w : W)
      → a ≤ b
      → (client.get_logs (filter_of client d.registry.address d.namespace a b) w).0 ≡ ok (raw a b)
      → ((alloy_provider client self).announcements d.registry.address d.namespace a b w).0
        ≡ ok (logs a b)
  unfolding alloy_provider announcements
  announcements-raw a b w h g = ground (arith, server.readable a b h)

  announcements-too_large :
      (a b : ℕ) (w : W) (message : String)
      → looks_too_large message ≡ true
      → (client.get_logs (filter_of client d.registry.address d.namespace a b) w).0 ≡ err message
      → ((alloy_provider client self).announcements d.registry.address d.namespace a b w).0
        ≡ err (range_limit message)
  unfolding alloy_provider announcements map_log_error
  announcements-too_large a b w message h g = ground arith

  split_logs : (a m b : ℕ) → a ≤ m → m < b → logs a m ++ logs (m + 1) b ≡ logs a b
  split_logs a m b low high =
      let whole =
        collect-append client (raw a m) (raw (m + 1) b) (logs a m) (logs (m + 1) b)
          (server.readable a m low) (server.readable (m + 1) b (omega arith)) in
      ground (arith, whole, server.split a m b low high, server.readable a b (omega arith))

  AnswersRaw-AnswersLogs : AnswersLogs (alloy_provider client self) d logs limit
  AnswersRaw-AnswersLogs = record {
    split = λ a m b low high. split_logs a m b low high;
    answers = λ a b w h. elim (server.answers a b w h) [
      | inl answer ↦ inl (announcements-raw a b w h answer)
      | inr (message, refused, says, wide) ↦ inr (
        message,
        announcements-too_large a b w message (looks_too_large-SaysTooLarge message says) refused,
        wide,
      )
    ];
  }

  module _ (config : ScannerConfig) (keccak256 : List ℕ → B256) (codecs : CodecRegistry)
      (constants : RegistryConstants) (head : BlockInfo) (fits : head.number ≤ u64_max)
      (wide_enough : smallest_chunk
          (alloy_provider client self)
          config
          keccak256
          codecs
          d
          constants
          head
        ≤ limit) where
    abbrev chain : RegistryProvider W
    chain = alloy_provider client self

    -- Over a server that gives all the logs of a range, each that is not removed with its block and
    -- index and of a form that decodes, or words in one of five ways, in small or capital letters,
    -- that a range is too large, and never does so below the smallest chunk, the scan from a block at
    -- most the head ends normally through the alloy provider, and has taken in the announcements that
    -- all the logs of the window hold, in order, up to the cap.
    pub scan_logs-AlloyCovers :
        (local_node_id : List ℕ) (start_block : ℕ) (w : W)
        → start_block ≤ head.number
        → (s : LogScan) × ((scan_logs chain config keccak256 codecs d constants head local_node_id
              start_block w).0
            ≡ ok s)
          × (announcements : List Announcement) × (collect client (raw start_block head.number)
              ≡ ok announcements)
          × (s.tally
              ≡ absorb keccak256 codecs
                  (policy_at config d constants head)
                  config.max_logs_per_scan
                  (first_state chain config keccak256 codecs d constants head local_node_id
                    start_block).tally
                  announcements)
    unfolding first_state
    scan_logs-AlloyCovers local_node_id start_block w ahead =
        let (s, ends, covers) =
          scan_logs-Covers chain config keccak256 codecs d constants head fits logs limit
            AnswersRaw-AnswersLogs wide_enough local_node_id start_block w ahead in
        (
          s,
          ends,
          logs start_block head.number,
          server.readable start_block head.number ahead,
          covers,
        )
