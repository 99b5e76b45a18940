-- ===== src/Ethereum/Scanner/Absorb.antt =====
-- How a tally takes in chunks of logs under the cap.
use rbp.Prelude.{
  ℕ, ◌+◌, ◌-◌, ◌≤◌, ◌≡◌, refl, ap, sym, ◌∙◌, List, [], ◌∷◌, ◌++◌, nat_eq, arith, length, take,
  length-take, take-append,
}
use rbp.Core.Namespace.{B256}
use rbp.Core.Validation.{Announcement, AnnouncementPolicy, CodecRegistry}
use rbp.Ethereum.Scanner.{Tally, take_log, take_logs, absorb}

module _ (keccak256 : List ℕ → B256) (codecs : CodecRegistry) (policy : AnnouncementPolicy) where
  logs_processed-take_logs :
      (t : Tally) (l : List Announcement)
      → (take_logs keccak256 codecs policy t l).logs_processed ≡ t.logs_processed + length l
  unfolding take_logs
  logs_processed-take_logs t [] = omega arith
  logs_processed-take_logs t (a ∷ l) =
      ground (arith, logs_processed-take_logs (take_log keccak256 codecs policy t a) l)

  take_logs-append :
      (t : Tally) (l m : List Announcement)
      → take_logs keccak256 codecs policy (take_logs keccak256 codecs policy t l) m
        ≡ take_logs keccak256 codecs policy t (l ++ m)
  unfolding take_logs
  take_logs-append t [] m = refl
  take_logs-append t (a ∷ l) m = take_logs-append (take_log keccak256 codecs policy t a) l m

  -- Two chunks are taken as one, the cap included.
  pub absorb-append :
      (cap : ℕ) (t : Tally) (l m : List Announcement)
      → absorb keccak256 codecs policy cap (absorb keccak256 codecs policy cap t l) m
        ≡ absorb keccak256 codecs policy cap t (l ++ m)
  unfolding absorb
  absorb-append cap t l m =
      let room = cap - t.logs_processed in
      let first = take room l in
      let left : cap - (take_logs keccak256 codecs policy t first).logs_processed
          ≡ room - length l =
        omega (arith, logs_processed-take_logs t first, length-take room l) in
      rw left (
        take_logs-append t first (take (room - length l) m)
        ∙ ap (take_logs keccak256 codecs policy t) (sym (take-append room l m)))

  pub absorb_full :
      (cap : ℕ) (t : Tally) (l : List Announcement)
      → cap ≤ t.logs_processed
      → absorb keccak256 codecs policy cap t l ≡ t
  unfolding absorb take_logs take
  absorb_full cap t l h = let none_left : cap - t.logs_processed ≡ 0 = omega arith in rw none_left

  -- The cap on processed logs.
  pub logs_processed-absorb-le :
      (cap : ℕ) (t : Tally) (l : List Announcement)
      → t.logs_processed ≤ cap
      → (absorb keccak256 codecs policy cap t l).logs_processed ≤ cap
  unfolding absorb
  logs_processed-absorb-le cap t l h = omega (
    arith,
    logs_processed-take_logs t (take (cap - t.logs_processed) l),
    length-take (cap - t.logs_processed) l,
  )
