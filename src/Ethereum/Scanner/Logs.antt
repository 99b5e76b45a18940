-- ===== src/Ethereum/Scanner/Logs.antt =====
-- The chunked log scan against one query of the whole window.
use native.Mathlib.Decide.{dec_lt, ℕ_discrete}
use rbp.Prelude.{
  ℕ, zero, suc, ◌+◌, ◌-◌, ◌/◌, ◌≤◌, ◌<◌, ◌≡◌, ◌≢◌, ap, sym, ◌∙◌, ◌⊎◌, inl, inr, String, max, List,
  ◌++◌, Result, ok, err, nat_eq, arith,
}
use rbp.Prelude.Words.{u64_max}
use rbp.Core.Namespace.{B256}
use rbp.Core.Descriptor.{NetworkDescriptor}
use rbp.Core.Validation.{Announcement, CodecRegistry}
use rbp.Ethereum.Provider.{
  BlockInfo, RegistryConstants, RegistryProvider, ProviderError, range_limit,
}
use rbp.Ethereum.Scanner.{
  ScannerConfig, Tally, LogScan, policy_at, absorb, is_range_limit, ScanError,
}
use rbp.Ethereum.Scanner.Absorb.{absorb-append, absorb_full}
use rbp.Ethereum.Scanner.Scan.{
  scan_loop, scan_logs, first_state, chunk_end, remaining, smallest_chunk,
}

-- The logs of a registry by ranges of blocks, and a provider that answers a query with the logs of
-- its range, or refuses a range of more than `limit` blocks as too large.
pub record AnswersLogs {W : Type 0} (chain : RegistryProvider W) (d : NetworkDescriptor)
    (logs : ℕ → ℕ → List Announcement) (limit : ℕ) : Type 0 where
  pub split : (a m b : ℕ) → a ≤ m → m < b → logs a m ++ logs (m + 1) b ≡ logs a b
  pub answers :
      (a b : ℕ) (w : W)
      → a ≤ b
      → ((chain.announcements d.registry.address d.namespace a b w).0 ≡ ok (logs a b))
        ⊎ ((message : String) × ((chain.announcements d.registry.address d.namespace a b w).0
              ≡ err (range_limit message))
            × (limit < b + 1 - a))

module _ {W : Type 0} (chain : RegistryProvider W) (config : ScannerConfig)
    (keccak256 : List ℕ → B256) (codecs : CodecRegistry) (d : NetworkDescriptor)
    (constants : RegistryConstants) (head : BlockInfo) (fits : head.number ≤ u64_max) where
  abbrev loop : ℕ → LogScan → W → Result LogScan ScanError × W
  loop = scan_loop chain config keccak256 codecs d constants head

  abbrev to_of : LogScan → ℕ
  to_of = chunk_end chain config keccak256 codecs d constants head

  abbrev left_of : LogScan → ℕ
  left_of = remaining chain config keccak256 codecs d constants head

  abbrev smallest : ℕ
  smallest = smallest_chunk chain config keccak256 codecs d constants head

  pub chunk_end-bounds :
      (s : LogScan)
      → s.from ≤ head.number
      → (s.from ≤ to_of s) × (to_of s ≤ head.number) × (to_of s + 1 - s.from ≤ max s.chunk_size 1)
  unfolding chunk_end
  chunk_end-bounds s h = omega arith

  abbrev asked : LogScan → W → Result (List Announcement) ProviderError × W
  asked s w = chain.announcements d.registry.address d.namespace s.from (to_of s) w

  abbrev cap : ℕ
  cap = config.max_logs_per_scan

  abbrev taken : Tally → List Announcement → Tally
  taken = absorb keccak256 codecs (policy_at config d constants head) cap

  module _ (fuel : ℕ) (s : LogScan) (w : W) (ahead : s.from ≤ head.number) where
    loop_full : cap ≤ s.tally.logs_processed → loop (suc fuel) s w ≡ (ok s, w)
    unfolding scan_loop
    loop_full full = ground arith

    module _ (room : s.tally.logs_processed < cap) where
      module _ (l : List Announcement) (answer : (asked s w).0 ≡ ok l) where
        loop_last :
            to_of s ≡ head.number
            → loop (suc fuel) s w ≡ (ok (record s { tally = taken s.tally l }), (asked s w).1)
        unfolding scan_loop
        loop_last last = ground arith

        loop_took :
            to_of s ≢ head.number
            → loop (suc fuel) s w
              ≡ loop fuel (record s { tally = taken s.tally l; from = to_of s + 1 }) (asked s w).1
        unfolding scan_loop
        loop_took more = ground arith

      loop_narrows :
          (message : String)
          → (asked s w).0 ≡ err (range_limit message)
          → smallest < s.chunk_size
          → loop (suc fuel) s w
            ≡ loop fuel
                (record s {
                  chunk_size = max (s.chunk_size / 2) smallest;
                  chunk_reductions = s.chunk_reductions + 1;
                })
                (asked s w).1
      unfolding scan_loop is_range_limit
      loop_narrows message answer wide = ground arith

  module _ (logs : ℕ → ℕ → List Announcement) (limit : ℕ) (honest : AnswersLogs chain d logs limit)
      (wide_enough : smallest ≤ limit) where
    -- the loop ends normally, having taken in all the logs ahead, up to the cap
    abbrev pub Covers : LogScan → Result LogScan ScanError → Type 0
    Covers s r = (s' : LogScan) × (r ≡ ok s') × (s'.tally ≡ taken s.tally (logs s.from head.number))

    scan_loop-Covers :
        (fuel : ℕ) (s : LogScan) (w : W)
        → s.from ≤ head.number
        → left_of s ≤ fuel
        → Covers s (loop fuel s w).0
    unfolding remaining
    scan_loop-Covers zero s w ahead enough = absurd (omega arith)
    scan_loop-Covers (suc fuel) s w ahead enough =
        let (low, high, width) = chunk_end-bounds s ahead in
        elim (dec_lt s.tally.logs_processed cap) [
          | no full ↦ (
            s,
            ap (λ (p : Result LogScan ScanError × W). p.0) (loop_full fuel s w ahead (omega arith)),
            sym (
                absorb_full keccak256 codecs (policy_at config d constants head) cap s.tally _
                  (omega arith)),
          )
          | yes room ↦ elim (honest.answers s.from (to_of s) w low) [
            | inl answer ↦ elim (ℕ_discrete (to_of s) head.number) [
              | yes last ↦ (
                record s { tally = taken s.tally (logs s.from (to_of s)) },
                ap (λ (p : Result LogScan ScanError × W). p.0)
                    (loop_last fuel s w ahead room _ answer last),
                ap (λ (b : ℕ). taken s.tally (logs s.from b)) last,
              )
              | no more ↦
                  let next = record s {
                    tally = taken s.tally (logs s.from (to_of s));
                    from = to_of s + 1;
                  } in
                  let (s', result, covers) =
                    scan_loop-Covers fuel next (asked s w).1 (omega arith) (omega arith) in
                  (
                    s',
                    ap (λ (p : Result LogScan ScanError × W). p.0)
                          (loop_took fuel s w ahead room _ answer more)
                        ∙ result,
                    covers
                        ∙ absorb-append keccak256 codecs (policy_at config d constants head) cap
                            s.tally (logs s.from (to_of s)) (logs (to_of s + 1) head.number)
                        ∙ ap (taken s.tally)
                            (honest.split s.from (to_of s) head.number low (omega arith)),
                  )
            ]
            | inr (message, refused, too_wide) ↦
                let (s', result, covers) =
                  scan_loop-Covers fuel
                    (record s {
                      chunk_size = max (s.chunk_size / 2) smallest;
                      chunk_reductions = s.chunk_reductions + 1;
                    })
                    (asked s w).1 ahead (omega arith) in
                (
                  s',
                  ap (λ (p : Result LogScan ScanError × W). p.0)
                        (loop_narrows fuel s w ahead room message refused (omega arith))
                      ∙ result,
                  covers,
                )
          ]
        ]

    -- With a provider that answers or refuses as too large, never below the smallest chunk, the scan
    -- from a block at most the head ends normally, and its tally is that of one query for the whole
    -- window under the cap, whatever the limit on the ranges and however often it shrank the chunk.
    pub scan_logs-Covers :
        (local_node_id : List ℕ) (start_block : ℕ) (w : W)
        → start_block ≤ head.number
        → Covers
            (first_state chain config keccak256 codecs d constants head local_node_id start_block)
            (scan_logs chain config keccak256 codecs d constants head local_node_id start_block w).0
    unfolding scan_logs
    scan_logs-Covers local_node_id start_block w ahead =
        scan_loop-Covers _ _ w (unfold first_state in ahead) (unfold remaining in omega arith)
