-- ===== src/Core/Candidates/Sample.antt =====
-- The candidate store as a bounded sample of the history of insertions.
use rbp.Prelude.{
  ℕ, ◌≤◌, ◌≡◌, ◌≢◌, ap, sym, ◌∙◌, inl, inr, some, none, List, ◌∷◌, bytes_eq, length, Among,
}
use rbp.Prelude.HashMap
use rbp.Prelude.HashMap.{HashMap, IsMap}
use rbp.Core.PeerRecord.{PeerCandidate, identity_key}
use rbp.Core.Candidates.{new}
use rbp.Core.Candidates.Freshness.{Fresher, not-Fresher_self}

-- `m` is the sample of size `cap` of the candidates of `hist`, by the ranks `key`.
pub record IsSample (key : List ℕ → ℕ) (cap : ℕ) (hist : List PeerCandidate)
    (m : HashMap (List ℕ) PeerCandidate) : Type 0 where
  pub is_map : IsMap m
  pub bounded : length m ≤ cap
  -- what is retained is stored under its identity and has been inserted
  pub stored :
      (k : List ℕ) (c : PeerCandidate)
      → HashMap.get k m ≡ some c
      → (identity_key c ≡ k) × Among c hist
  -- nothing inserted would replace the retained record of its identity
  pub freshest :
      (c d : PeerCandidate) → HashMap.get (identity_key d) m ≡ some c → Among d hist → ¬ Fresher d c
  -- a missing identity ranks after every retained one, and the store is full
  pub left_out :
      (d : PeerCandidate)
      → Among d hist
      → HashMap.get (identity_key d) m ≡ none
      → (length m ≡ cap)
        × ((k : List ℕ) (c : PeerCandidate)
            → HashMap.get k m ≡ some c
            → key k ≤ key (identity_key d))

module _ {key : List ℕ → ℕ} {cap : ℕ} {hist : List PeerCandidate}
    (m : HashMap (List ℕ) PeerCandidate) (c : PeerCandidate) where
  -- what an insertion has to bring along; `m` is the map without the identities that it drops
  pub insert-IsSample :
      IsMap m
      → length (HashMap.insert (identity_key c) c m) ≤ cap
      → ((k : List ℕ) (d : PeerCandidate)
          → HashMap.get k m ≡ some d
          → (identity_key d ≡ k) × Among d hist)
      → ((d e : PeerCandidate)
          → HashMap.get (identity_key e) m ≡ some d
          → Among e hist
          → ¬ Fresher e d)
      → ((e : PeerCandidate) → Among e hist → identity_key e ≡ identity_key c → ¬ Fresher e c)
      → ((e : PeerCandidate)
          → Among e hist
          → identity_key c ≢ identity_key e
          → HashMap.get (identity_key e) m ≡ none
          → (length (HashMap.insert (identity_key c) c m) ≡ cap)
            × (key (identity_key c) ≤ key (identity_key e))
            × ((k : List ℕ) (d : PeerCandidate)
                → HashMap.get k m ≡ some d
                → key k ≤ key (identity_key e)))
      → IsSample key cap (c ∷ hist) (HashMap.insert (identity_key c) c m)
  insert-IsSample is_map bounded stored freshest newest left_out = record {
    is_map = HashMap.insert-IsMap (identity_key c) c m is_map;
    bounded = bounded;
    stored = λ k d h. elim (HashMap.get-insert-some (identity_key c) k c d m h) [
      | inl (same, new) ↦ (ap identity_key new ∙ same, inl new)
      | inr (other, old) ↦ ((stored k d old).0, inr (stored k d old).1)
    ];
    freshest = λ d e h among.
        elim (HashMap.get-insert-some (identity_key c) (identity_key e) c d m h) [
          | inl (same, new) ↦ elim among [
            | inl first ↦ rw (first, new) (not-Fresher_self c)
            | inr later ↦ rw new (newest e later (sym same))
          ]
          | inr (other, old) ↦ elim among [
            | inl first ↦ absurd (other (ap identity_key (sym first)))
            | inr later ↦ freshest d e old later
          ]
        ];
    left_out = λ e among h.
        let (other, missing) = HashMap.get-insert-none (identity_key c) (identity_key e) c m h in
        elim among [
          | inl first ↦ absurd (other (ap identity_key (sym first)))
          | inr later ↦
              let (full, ranks, rest) = left_out e later other missing in
              (
                full,
                λ k d g. elim (HashMap.get-insert-some (identity_key c) k c d m g) [
                  | inl (same, new) ↦ rw (← same) ranks
                  | inr (different, old) ↦ rest k d old
                ],
              )
        ];
  }
