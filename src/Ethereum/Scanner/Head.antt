-- ===== src/Ethereum/Scanner/Head.antt =====
-- crates/resurrect-ethereum/src/scanner.rs: the head of a scan is a settled block.
use rbp.Prelude.{
  ◌-◌, ◌≡◌, ◌⊎◌, inl, inr, true, Bool-cases, Option, some, none, Result, ok, err, Result-cases,
  arith,
}
use rbp.Ethereum.Provider.{
  BlockInfo, BlockReference, number, latest, safe, finalized, ProviderError, RegistryProvider,
}
use rbp.Ethereum.Scanner.{ScannerConfig, ScanError, is_unsupported}
use rbp.Ethereum.Scanner.Scan.{fallback_head, tagged_head, confirmed_head}

module _ {W : Type 0} (chain : RegistryProvider W) (config : ScannerConfig) where
  -- the chain has given this block for the reference, at some moment
  abbrev pub Gave : BlockReference → BlockInfo → Type 0
  Gave reference b = (w : W) × ((chain.block reference w).0 ≡ ok (some b))

  -- the block as deep behind a latest one as the settings ask
  abbrev pub IsDeep : BlockInfo → Type 0
  IsDeep b =
      (tip : BlockInfo) × Gave latest tip
      × Gave (number (tip.number - config.fallback_confirmations)) b

  fallback_head-IsDeep :
      (w : W) (b : BlockInfo) → (fallback_head chain config w).0 ≡ ok b → IsDeep b
  unfolding fallback_head
  fallback_head-IsDeep w b h = elim (Result-cases (chain.block latest w).0) [
    | inr (e, failed) ↦ absurd (ground arith)
    | inl (none, missing) ↦ absurd (ground arith)
    | inl (some tip, found) ↦
        let v = (chain.block latest w).1 in
        let depth = tip.number - config.fallback_confirmations in
        elim (Result-cases (chain.block (number depth) v).0) [
          | inr (e, failed) ↦ absurd (ground arith)
          | inl (none, missing) ↦ absurd (ground arith)
          | inl (some deep, there) ↦ (tip, (w, found), (v, ground arith))
        ]
  ]

  -- what a `match` on a tag ends in
  tagged_head-cases :
      (answer : Result (Option BlockInfo) ProviderError × W)
      (next : W → Result BlockInfo ScanError × W) (b : BlockInfo)
      → (tagged_head chain config answer next).0 ≡ ok b
      → (answer.0 ≡ ok (some b)) ⊎ ((v : W) × ((next v).0 ≡ ok b))
  unfolding tagged_head
  tagged_head-cases (ok (some f), w) next b h = inl (ground arith)
  tagged_head-cases (ok none, w) next b h = inr (w, h)
  tagged_head-cases (err e, w) next b h = elim (Bool-cases (is_unsupported e)) [
    | inl skipped ↦ inr (w, ground arith)
    | inr failed ↦ absurd (ground arith)
  ]

  -- A head that the scan settles on is a block that the chain gave as finalized or safe, where the
  -- tags are used, or else the one that it gave for the number as far below that of a latest block as
  -- the confirmations that the settings ask for, or for zero.
  pub confirmed_head-IsSettled :
      (w : W) (b : BlockInfo)
      → (confirmed_head chain config w).0 ≡ ok b
      → ((config.use_finality_tags ≡ true) × (Gave finalized b ⊎ Gave safe b)) ⊎ IsDeep b
  unfolding confirmed_head
  confirmed_head-IsSettled w b h = elim (Bool-cases config.use_finality_tags) [
    | inr untagged ↦ inr (fallback_head-IsDeep w b (ground arith))
    | inl tagged ↦
        elim (tagged_head-cases (chain.block finalized w)
          (λ v. tagged_head chain config (chain.block safe v) (fallback_head chain config)) b
          (ground arith)) [
            | inl found ↦ inl (tagged, inl (w, found))
            | inr (v, later) ↦
                elim (tagged_head-cases (chain.block safe v) (fallback_head chain config) b later) [
                  | inl found ↦ inl (tagged, inr (v, found))
                  | inr (u, last) ↦ inr (fallback_head-IsDeep u b last)
                ]
          ]
  ]
