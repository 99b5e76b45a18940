-- ===== src/Core/Candidates/Monotone.antt =====
-- An insertion never makes the retained record of an identity older.
use native.Mathlib.Decide.{dec_lt}
use rbp.Prelude.{ℕ, ◌≡◌, ◌⊎◌, inl, inr, some, List, bytes_eq, length, arith, Option-cases}
use rbp.Prelude.HashMap
use rbp.Prelude.HashMap.{HashMap, IsMap}
use rbp.Core.Namespace.{B256}
use rbp.Core.PeerRecord.{PeerCandidate, identity_key}
use rbp.Core.Candidates.{CandidateStore, score, insert}
use rbp.Core.Candidates.Branches.{
  kept, insert_replaces, insert_ignores, insert_fits, insert_evicts, insert_leaves_out,
}
use rbp.Core.Candidates.Freshness.{Fresher, Fresher-dec}
use rbp.Core.Candidates.History.{last_exists}

module _ (keccak256 : List ℕ → B256) (store : CandidateStore) (c : PeerCandidate) (k : List ℕ)
    (old after : PeerCandidate) (v : IsMap store.candidates)
    (found : HashMap.get k store.candidates ≡ some old) where
  -- the record under `k` is the old one, or the inserted one, and that is fresher
  abbrev pub Advances : Type 0
  Advances = (after ≡ old) ⊎ ((after ≡ c) × (identity_key c ≡ k) × Fresher c old)

  kept_same : HashMap.get k store.candidates ≡ some after → Advances
  kept_same h = inl (cc (found, h))

  kept_Advances :
      (m : HashMap (List ℕ) PeerCandidate)
      → (identity_key c ≡ k → Fresher c old)
      → (HashMap.get k m ≡ some after → HashMap.get k store.candidates ≡ some after)
      → HashMap.get k (kept keccak256 store c m).candidates ≡ some after
      → Advances
  kept_Advances m newer same h = elim (HashMap.get-insert-some (identity_key c) k c after m h) [
    | inl (here, it) ↦ inr (it, here, newer here)
    | inr (other, there) ↦ kept_same (same there)
  ]

  -- After an insertion that retains a record under a key that had one, it is the old record, or the
  -- inserted one, of that identity and fresher than the old one.
  pub insert-Advances :
      HashMap.get k (insert keccak256 store c).0.candidates ≡ some after → Advances
  insert-Advances h = elim (Option-cases (HashMap.get (identity_key c) store.candidates)) [
    | inr (present, there) ↦ elim (Fresher-dec c present) [
      | inl newer ↦
          kept_Advances store.candidates
            (λ same. let it : old ≡ present = cc (found, there, same) in rw it newer) (λ g. g)
            (rw (insert_replaces keccak256 store c present there newer) at h)
      | inr older ↦ kept_same (rw (insert_ignores keccak256 store c present there older) at h)
    ]
    | inl missing ↦ elim (dec_lt (length store.candidates) store.config.max_candidates) [
      | yes room ↦
          kept_Advances store.candidates (λ same. absurd (cc (found, missing, same))) (λ g. g)
            (rw (insert_fits keccak256 store c missing room) at h)
      | no full ↦
          let (worst, last) =
            last_exists keccak256 store
              (omega (arith, HashMap.length-remove_old k old store.candidates found)) in
          elim (dec_lt (score keccak256 store.config (identity_key c))
            (score keccak256 store.config worst)) [
              | yes before ↦
                  kept_Advances (HashMap.remove worst store.candidates)
                    (λ same. absurd (cc (found, missing, same)))
                    (λ g. (HashMap.get-remove-some worst k after store.candidates v g).1)
                    (rw (insert_evicts keccak256 store c worst missing (omega arith) last before) at
                      h)
              | no after' ↦ kept_same (
                  rw
                    (insert_leaves_out keccak256 store c worst missing (omega arith) last
                      (omega arith))
                    at h)
            ]
    ]
  ]
