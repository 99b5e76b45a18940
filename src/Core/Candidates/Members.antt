-- ===== src/Core/Candidates/Members.antt =====
-- Where the candidates of a store come from.
use rbp.Prelude.{
  ℕ, inl, inr, List, [], ◌∷◌, nat_eq, bytes_eq, ◌==◌, ltb, leb, Bool-cases, Option-cases, All,
  length,
}
use rbp.Prelude.HashMap
use rbp.Prelude.HashMap.{HashMap}
use rbp.Core.Namespace.{B256}
use rbp.Core.PeerRecord.{PeerCandidate, identity_key}
use rbp.Core.Candidates.{
  CandidateStore, CandidateStoreConfig, new, insert, insert_full, insert_all, ranked, sort_by_key,
  insert_by_key, score, max_by_key,
}
use rbp.Core.Candidates.Branches.{insert_ignores}
use rbp.Core.Candidates.Freshness.{Fresher-dec}

module _ (P : PeerCandidate → Type 0) where
  insert-values :
      (k : List ℕ) (c : PeerCandidate) (m : HashMap (List ℕ) PeerCandidate)
      → P c
      → All P (HashMap.values m)
      → All P (HashMap.values (HashMap.insert k c m))
  unfolding HashMap.insert
  insert-values k c [] p h = (p, tt)
  insert-values k c ((j, d) ∷ m) p h = elim (Bool-cases (j == k)) [
    | inl same ↦ rw same (p, h.1)
    | inr other ↦ rw other (h.0, insert-values k c m p h.1)
  ]

  remove-values :
      (k : List ℕ) (m : HashMap (List ℕ) PeerCandidate)
      → All P (HashMap.values m)
      → All P (HashMap.values (HashMap.remove k m))
  unfolding HashMap.remove
  remove-values k [] h = tt
  remove-values k ((j, d) ∷ m) h = elim (Bool-cases (j == k)) [
    | inl same ↦ rw same h.1
    | inr other ↦ rw other (h.0, remove-values k m h.1)
  ]

  insert_by_key-values :
      (key : List ℕ × PeerCandidate → ℕ) (e : List ℕ × PeerCandidate)
      (m : HashMap (List ℕ) PeerCandidate)
      → P e.1
      → All P (HashMap.values m)
      → All P (HashMap.values (insert_by_key key e m))
  unfolding insert_by_key
  insert_by_key-values key e [] p h = (p, tt)
  insert_by_key-values key e (d ∷ m) p h = elim (Bool-cases (leb (key e) (key d))) [
    | inl before ↦ rw before (p, h)
    | inr after ↦ rw after (h.0, insert_by_key-values key e m p h.1)
  ]

  sort_by_key-values :
      (key : List ℕ × PeerCandidate → ℕ) (m : HashMap (List ℕ) PeerCandidate)
      → All P (HashMap.values m)
      → All P (HashMap.values (sort_by_key key m))
  unfolding sort_by_key
  sort_by_key-values key [] h = tt
  sort_by_key-values key (e ∷ m) h =
      insert_by_key-values key e (sort_by_key key m) h.0 (sort_by_key-values key m h.1)

  module _ (keccak256 : List ℕ → B256) where
    insert_full-values :
        (store : CandidateStore) (k : List ℕ) (c : PeerCandidate)
        → P c
        → All P (HashMap.values store.candidates)
        → All P (HashMap.values (insert_full keccak256 store k c).0.candidates)
    unfolding insert_full
    insert_full-values store k c p h =
        elim (Option-cases
          (max_by_key (score keccak256 store.config) (HashMap.keys store.candidates))) [
            | inl nothing ↦ rw (nothing, insert_full) (insert-values k c store.candidates p h)
            | inr (worst, found) ↦
                elim (Bool-cases
                  (ltb (score keccak256 store.config k) (score keccak256 store.config worst))) [
                    | inl before ↦
                        rw (found, before, insert_full)
                          (insert-values k c (HashMap.remove worst store.candidates) p
                            (remove-values worst store.candidates h))
                    | inr after ↦ rw (found, after, insert_full) h
                  ]
          ]

    insert-candidates :
        (store : CandidateStore) (c : PeerCandidate)
        → P c
        → All P (HashMap.values store.candidates)
        → All P (HashMap.values (insert keccak256 store c).0.candidates)
    unfolding insert
    insert-candidates store c p h =
        elim (Option-cases (HashMap.get (identity_key c) store.candidates)) [
          | inl missing ↦
              elim (Bool-cases (ltb (length store.candidates) store.config.max_candidates)) [
                | inl room ↦
                    rw (missing, room, insert)
                      (insert-values (identity_key c) c store.candidates p h)
                | inr full ↦
                    rw (missing, full, insert) (insert_full-values store (identity_key c) c p h)
              ]
          | inr (old, found) ↦ elim (Fresher-dec c old) [
            | inl newer ↦
                rw (found, newer, insert) (insert-values (identity_key c) c store.candidates p h)
            | inr older ↦ rw (insert_ignores keccak256 store c old found older) h
          ]
        ]

    insert_all-candidates :
        (store : CandidateStore) (cs : List PeerCandidate)
        → All P cs
        → All P (HashMap.values store.candidates)
        → All P (HashMap.values (insert_all keccak256 store cs).candidates)
    unfolding insert_all
    insert_all-candidates store [] ps h = h
    insert_all-candidates store (c ∷ cs) ps h =
        insert_all-candidates (insert keccak256 store c).0 cs ps.1
          (insert-candidates store c ps.0 h)

    pub ranked-candidates :
        (config : CandidateStoreConfig) (cs : List PeerCandidate)
        → All P cs
        → All P (ranked keccak256 (insert_all keccak256 (new config) cs))
    unfolding ranked new
    ranked-candidates config cs ps =
        sort_by_key-values _ _ (insert_all-candidates (new config) cs ps tt)
