-- ===== src/Ethereum/Scanner/StartBlock.antt =====
-- The binary search for the first block of the scan window.
use native.Mathlib.Decide.{dec_lt}
use rbp.Prelude.{
  ℕ, zero, suc, ◌+◌, ◌-◌, ◌/◌, ◌≤◌, ◌<◌, ◌≡◌, ◌≢◌, refl, some, ok, ltb, if◌then◌else◌, arith,
  lt→ltb, le→ltb-false, lt→leb-false, min,
}
use rbp.Core.PeerRecord.{PeerCandidate}
use rbp.Core.Descriptor.{NetworkDescriptor}
use rbp.Core.Validation.{Announcement, CodecRegistry, validate_announcement}
use rbp.Core.Validation.Acceptance.{validate_announcement-Accepts}
use rbp.Ethereum.Provider.{BlockInfo, BlockReference, RegistryConstants, RegistryProvider}
use rbp.Ethereum.Scanner.{ScannerConfig, policy_at}
use rbp.Ethereum.Scanner.Scan.{search_start, find_start_block}

-- a provider that has every block of a chain, whatever its state
abbrev pub Serves : {W : Type 0} → RegistryProvider W → (ℕ → BlockInfo) → Type 0
Serves {W} chain blocks =
    (n : ℕ) (w : W) → (chain.block (BlockReference.number n) w).0 ≡ ok (some (blocks n))

-- the timestamps of a chain do not fall
abbrev pub IsMonotone : (ℕ → BlockInfo) → Type 0
IsMonotone blocks = (m n : ℕ) → m ≤ n → (blocks m).timestamp ≤ (blocks n).timestamp

-- `r` lies in the range and splits it at the cutoff
pub record SplitsAt (blocks : ℕ → BlockInfo) (cutoff low high r : ℕ) : Type 0 where
  pub above : low ≤ r
  pub inside : r ≤ high
  pub before : (n : ℕ) → low ≤ n → n < r → (blocks n).timestamp < cutoff
  pub after : (n : ℕ) → r ≤ n → n < high → cutoff ≤ (blocks n).timestamp

module _ {W : Type 0} (chain : RegistryProvider W) (config : ScannerConfig) (blocks : ℕ → BlockInfo)
    (serves : Serves chain blocks) (monotone : IsMonotone blocks) where
  -- the transport's state after the probe of a round
  abbrev probed : ℕ → ℕ → W → W
  probed low high w = (chain.block (BlockReference.number (low + (high - low) / 2)) w).1

  search_start-step :
      (fuel cutoff low high : ℕ) (w : W)
      → low < high
      → search_start chain config (suc fuel) cutoff low high w ≡ (
          if ltb (blocks (low + (high - low) / 2)).timestamp cutoff
          then search_start chain config fuel cutoff
              (low + (high - low) / 2 + 1)
              high
              (probed low high w)
          else search_start chain config fuel cutoff low
              (low + (high - low) / 2)
              (probed low high w))
  unfolding search_start
  search_start-step fuel cutoff low high w h = ground (arith, serves (low + (high - low) / 2) w)

  search_start-SplitsAt :
      (fuel cutoff low high : ℕ) (w : W)
      → high - low ≤ fuel
      → low ≤ high
      → (r : ℕ) × ((search_start chain config fuel cutoff low high w).0 ≡ ok r)
        × SplitsAt blocks cutoff low high r
  search_start-SplitsAt zero cutoff low high w enough order = (
    low,
    unfold search_start in refl,
    record {
      above = omega arith;
      inside = omega arith;
      before = λ n p q. omega arith;
      after = λ n p q. omega arith;
    },
  )
  search_start-SplitsAt (suc fuel) cutoff low high w enough order = elim (dec_lt low high) [
    | no empty ↦ (
      low,
      unfold search_start in ground arith,
      record {
        above = omega arith;
        inside = omega arith;
        before = λ n p q. omega arith;
        after = λ n p q. omega arith;
      },
    )
    | yes h ↦
        let middle = low + (high - low) / 2 in
        elim (dec_lt (blocks middle).timestamp cutoff) [
          | yes early ↦
              let (r, result, s) =
                search_start-SplitsAt fuel cutoff (middle + 1) high (probed low high w)
                  (omega arith) (omega arith) in
              (
                r,
                rw (search_start-step fuel cutoff low high w h, lt→ltb _ _ early) result,
                record {
                  above = omega (arith, s.above);
                  inside = s.inside;
                  before = λ n p q. elim (dec_lt middle n) [
                    | yes right ↦ s.before n (omega arith) q
                    | no left ↦ omega (arith, monotone n middle (omega arith))
                  ];
                  after = s.after;
                },
              )
          | no late ↦
              let (r, result, s) =
                search_start-SplitsAt fuel cutoff low middle (probed low high w) (omega arith)
                  (omega arith) in
              (
                r,
                rw
                    (
                      search_start-step fuel cutoff low high w h,
                      le→ltb-false (blocks middle).timestamp cutoff (omega arith),
                    )
                    result,
                record {
                  above = s.above;
                  inside = omega (arith, s.inside);
                  before = s.before;
                  after = λ n p q. elim (dec_lt n middle) [
                    | yes left ↦ s.after n p left
                    | no right ↦ omega (arith, monotone middle n (omega arith))
                  ];
                },
              )
        ]
  ]

  -- On a provider that serves every block of a chain with rising timestamps, the search returns a
  -- block of the range: before it every block of the range is older than the cutoff, and from it on
  -- every block but the head is at least as new. It never fails and never runs out of fuel.
  pub find_start_block-SplitsAt :
      (deployment_block head cutoff : ℕ) (w : W)
      → deployment_block ≤ head
      → (r : ℕ) × ((find_start_block chain config deployment_block head cutoff w).0 ≡ ok r)
        × SplitsAt blocks cutoff deployment_block head r
  unfolding find_start_block
  find_start_block-SplitsAt deployment_block head cutoff w order =
      elim (dec_lt deployment_block head) [
        | yes h ↦
            let (r, result, s) =
              search_start-SplitsAt (head - deployment_block) cutoff deployment_block head w
                (omega arith) order in
            (r, rw (lt→leb-false _ _ h) result, s)
        | no h ↦ (
          min deployment_block head,
          ground arith,
          record {
            above = omega arith;
            inside = omega arith;
            before = λ n p q. omega arith;
            after = λ n p q. omega arith;
          },
        )
      ]

  -- The contract stamps an announcement with the time of its block plus a lifetime of at most
  -- `max_ttl`. Then no announcement of a block between the deployment and the start that the search
  -- returns is accepted at the head: the blocks that a scan leaves out hold nothing live.
  pub find_start_block-expired :
      (codecs : CodecRegistry) (d : NetworkDescriptor) (constants : RegistryConstants)
      (head : BlockInfo) (a : Announcement) (c : PeerCandidate) (start : ℕ) (w : W)
      → d.registry.deployment_block ≤ head.number
      → (find_start_block chain config d.registry.deployment_block head.number
          (head.timestamp - d.registry.max_ttl)
          w).0
        ≡ ok start
      → d.registry.deployment_block ≤ a.block_number
      → a.block_number < start
      → a.valid_until ≤ (blocks a.block_number).timestamp + d.registry.max_ttl
      → validate_announcement codecs a (policy_at config d constants head) ≢ ok c
  unfolding policy_at
  find_start_block-expired codecs d constants head a c start w order found from before stamped
        accepted =
      let (r, result, s) =
        find_start_block-SplitsAt d.registry.deployment_block head.number
          (head.timestamp - d.registry.max_ttl) w order in
      let same : r ≡ start = cc (found, result) in
      let valid =
        (validate_announcement-Accepts codecs a (policy_at config d constants head) c).0 accepted in
      omega (arith, s.before a.block_number from (omega arith), valid.2.envelope.live)
