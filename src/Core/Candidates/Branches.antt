-- ===== src/Core/Candidates/Branches.antt =====
-- What `insert` returns on each of its branches.
use rbp.Prelude.{ℕ, ◌≤◌, ◌<◌, ◌≡◌, some, none, List, bytes_eq, length, arith}
use rbp.Prelude.HashMap
use rbp.Prelude.HashMap.{HashMap, IsMap}
use rbp.Core.Namespace.{B256}
use rbp.Core.PeerRecord.{PeerCandidate, identity_key}
use rbp.Core.Candidates.{
  CandidateStore, inserted, replaced, stale, sampled_out, max_by_key, score, insert, insert_full,
}
use rbp.Core.Candidates.Freshness.{Fresher}

module _ (keccak256 : List ℕ → B256) (store : CandidateStore) (c : PeerCandidate) where
  abbrev pub kept : HashMap (List ℕ) PeerCandidate → CandidateStore
  kept m = record store { candidates = HashMap.insert (identity_key c) c m }

  pub insert_replaces :
      (old : PeerCandidate)
      → HashMap.get (identity_key c) store.candidates ≡ some old
      → Fresher c old
      → insert keccak256 store c ≡ (kept store.candidates, replaced)
  unfolding insert
  insert_replaces old found fresher = ground arith

  pub insert_ignores :
      (old : PeerCandidate)
      → HashMap.get (identity_key c) store.candidates ≡ some old
      → ¬ Fresher c old
      → insert keccak256 store c ≡ (store, stale)
  unfolding insert
  insert_ignores old found older = ground arith

  pub insert_fits :
      HashMap.get (identity_key c) store.candidates ≡ none
      → length store.candidates < store.config.max_candidates
      → insert keccak256 store c ≡ (kept store.candidates, inserted)
  unfolding insert
  insert_fits missing room = ground arith

  module _ (worst : List ℕ) (missing : HashMap.get (identity_key c) store.candidates ≡ none)
      (full : store.config.max_candidates ≤ length store.candidates)
      (last : max_by_key (score keccak256 store.config) (HashMap.keys store.candidates)
        ≡ some worst) where
    pub insert_evicts :
        score keccak256 store.config (identity_key c) < score keccak256 store.config worst
        → insert keccak256 store c ≡ (kept (HashMap.remove worst store.candidates), inserted)
    unfolding insert insert_full
    insert_evicts before = ground arith

    pub insert_leaves_out :
        score keccak256 store.config worst ≤ score keccak256 store.config (identity_key c)
        → insert keccak256 store c ≡ (store, sampled_out)
    unfolding insert insert_full
    insert_leaves_out after = ground arith
