-- ===== src/Core/Candidates/History.antt =====
-- The candidate store as a bounded sample of the history of its insertions.
use rbp.Prelude.{
  ℕ, ◌≤◌, ◌<◌, ◌≡◌, refl, ap, ◌∙◌, inl, inr, some, none, List, [], ◌∷◌, bytes_eq, length, arith,
  Option-cases,
}
use native.Mathlib.Decide.{dec_lt}
use rbp.Prelude.HashMap
use rbp.Prelude.HashMap.{HashMap, IsMap}
use rbp.Core.Namespace.{B256}
use rbp.Core.PeerRecord.{PeerCandidate, identity_key}
use rbp.Core.Candidates.{
  CandidateStore, CandidateStoreConfig, max_by_key, score, insert, insert_all, new,
}
use rbp.Core.Candidates.Maximum.{max_by_key-none, max_by_key-some}
use rbp.Core.Candidates.Branches.{
  kept, insert_replaces, insert_ignores, insert_fits, insert_evicts, insert_leaves_out,
}
use rbp.Core.Candidates.Sample.{IsSample, insert-IsSample}
use rbp.Core.Candidates.Freshness.{Fresher, Fresher-dec, not-Fresher-trans}

-- the history after further insertions, the latest first
abbrev pub recorded : List PeerCandidate → List PeerCandidate → List PeerCandidate
recorded hist [] = hist
recorded hist (c ∷ cs) = recorded (c ∷ hist) cs

module _ (keccak256 : List ℕ → B256) where
  -- `store` is the sample of the candidates of `hist`
  abbrev pub Samples : List PeerCandidate → CandidateStore → Type 0
  Samples hist store =
      IsSample (score keccak256 store.config) store.config.max_candidates hist store.candidates

  module _ (hist : List PeerCandidate) (store : CandidateStore) (c : PeerCandidate)
      (s : Samples hist store) where
    abbrev map_of : HashMap (List ℕ) PeerCandidate
    map_of = store.candidates

    Samples-replaced :
        (old : PeerCandidate)
        → HashMap.get (identity_key c) map_of ≡ some old
        → Fresher c old
        → Samples (c ∷ hist) (kept keccak256 store c map_of)
    Samples-replaced old found fresher =
        let same_length = HashMap.length-insert_old (identity_key c) c old map_of found in
        insert-IsSample map_of c s.is_map (omega (arith, s.bounded)) s.stored s.freshest
          (λ e among same.
            not-Fresher-trans c e old (s.freshest old e (rw same found) among) fresher)
          (λ e among other missing.
            let (full, ranks) = s.left_out e among missing in
            (same_length ∙ full, ranks (identity_key c) old found, ranks))

    Samples-ignored :
        (old : PeerCandidate)
        → HashMap.get (identity_key c) map_of ≡ some old
        → ¬ Fresher c old
        → Samples (c ∷ hist) store
    Samples-ignored old found older = record {
      is_map = s.is_map;
      bounded = s.bounded;
      stored = λ k d h. ((s.stored k d h).0, inr (s.stored k d h).1);
      freshest = λ d e h among. elim among [
        | inl first ↦
            let it : old ≡ d = cc (found, h, ap identity_key first) in rw (first, ← it) older
        | inr later ↦ s.freshest d e h later
      ];
      left_out = λ e among h. elim among [
        | inl first ↦ absurd (cc (found, h, ap identity_key first))
        | inr later ↦ s.left_out e later h
      ];
    }

    module _ (missing : HashMap.get (identity_key c) map_of ≡ none) where
      Samples-fits :
          length map_of < store.config.max_candidates
          → Samples (c ∷ hist) (kept keccak256 store c map_of)
      Samples-fits room =
          insert-IsSample map_of c s.is_map
            (omega (arith, HashMap.length-insert_new (identity_key c) c map_of missing)) s.stored
            s.freshest
            (λ e among same. absurd (omega (arith, (s.left_out e among (rw same missing)).0)))
            (λ e among other gone. absurd (omega (arith, (s.left_out e among gone).0)))

      module _ (worst : List ℕ)
          (last : max_by_key (score keccak256 store.config) (HashMap.keys map_of)
            ≡ some worst) where
        Samples-evicts :
            score keccak256 store.config (identity_key c) < score keccak256 store.config worst
            → store.config.max_candidates ≤ length map_of
            → Samples (c ∷ hist) (kept keccak256 store c (HashMap.remove worst map_of))
        Samples-evicts before full =
            let rank = score keccak256 store.config in
            let rest = HashMap.remove worst map_of in
            let ((c', found), bound) = max_by_key-some rank map_of worst last in
            let shorter = HashMap.length-remove_old worst c' map_of found in
            let gone : HashMap.get (identity_key c) rest ≡ none =
              ground (arith, HashMap.get-remove worst (identity_key c) map_of s.is_map) in
            let longer = HashMap.length-insert_new (identity_key c) c rest gone in
            let old = λ (k : List ℕ) (d : PeerCandidate) (h : HashMap.get k rest ≡ some d).
              (HashMap.get-remove-some worst k d map_of s.is_map h).1 in
            insert-IsSample rest c (HashMap.remove-IsMap worst map_of s.is_map)
              (omega (arith, s.bounded)) (λ k d h. s.stored k d (old k d h))
              (λ d e h. s.freshest d e (old (identity_key e) d h))
              (λ e among same. absurd (
                omega
                  (arith, ap rank same, (s.left_out e among (rw same missing)).1 worst c' found)))
              (λ e among other dropped.
                elim (HashMap.get-remove-none worst (identity_key e) map_of s.is_map dropped) [
                  | inl here ↦ (
                    omega (arith, s.bounded),
                    omega (arith, ap rank here),
                    λ k d h. omega (arith, ap rank here, bound k d (old k d h)),
                  )
                  | inr out ↦
                      let (_, ranks) = s.left_out e among out in
                      (
                        omega (arith, s.bounded),
                        omega (arith, ranks worst c' found),
                        λ k d h. ranks k d (old k d h),
                      )
                ])

        Samples-sampled_out :
            score keccak256 store.config worst ≤ score keccak256 store.config (identity_key c)
            → store.config.max_candidates ≤ length map_of
            → Samples (c ∷ hist) store
        Samples-sampled_out after full =
            let (present, bound) =
              max_by_key-some (score keccak256 store.config) map_of worst last in
            record {
              is_map = s.is_map;
              bounded = s.bounded;
              stored = λ k d h. ((s.stored k d h).0, inr (s.stored k d h).1);
              freshest = λ d e h among. elim among [
                | inl first ↦ absurd (cc (missing, h, ap identity_key first))
                | inr later ↦ s.freshest d e h later
              ];
              left_out = λ e among h. elim among [
                | inl first ↦
                    (omega (arith, s.bounded), λ k d g. rw first (omega (arith, bound k d g)))
                | inr later ↦ s.left_out e later h
              ];
            }

  -- a store of capacity at least one that is full is not empty
  pub last_exists :
      (store : CandidateStore)
      → 1 ≤ length store.candidates
      → (worst : List ℕ) × (max_by_key
            (score keccak256 store.config)
            (HashMap.keys store.candidates)
          ≡ some worst)
  last_exists store h =
      elim (Option-cases
        (max_by_key (score keccak256 store.config) (HashMap.keys store.candidates))) [
          | inl nothing ↦ absurd (
              omega (
                arith,
                ap length (max_by_key-none (score keccak256 store.config) store.candidates nothing),
              ))
          | inr found ↦ found
        ]

  -- Inserting a candidate into a store of capacity at least one that is the sample of a history
  -- leaves the configuration alone and gives the sample of the history with that candidate.
  pub insert-Samples :
      (hist : List PeerCandidate) (store : CandidateStore) (c : PeerCandidate)
      → 1 ≤ store.config.max_candidates
      → Samples hist store
      → Samples (c ∷ hist) (insert keccak256 store c).0
        × ((insert keccak256 store c).0.config ≡ store.config)
  insert-Samples hist store c positive s =
      elim (Option-cases (HashMap.get (identity_key c) store.candidates)) [
        | inr (old, found) ↦ elim (Fresher-dec c old) [
          | inl newer ↦
              rw (insert_replaces keccak256 store c old found newer)
                (Samples-replaced hist store c s old found newer, refl)
          | inr older ↦
              rw (insert_ignores keccak256 store c old found older)
                (Samples-ignored hist store c s old found older, refl)
        ]
        | inl missing ↦ elim (dec_lt (length store.candidates) store.config.max_candidates) [
          | yes room ↦
              rw (insert_fits keccak256 store c missing room)
                (Samples-fits hist store c s missing room, refl)
          | no full ↦
              let (worst, last) = last_exists store (omega arith) in
              elim (dec_lt (score keccak256 store.config (identity_key c))
                (score keccak256 store.config worst)) [
                  | yes before ↦
                      rw (insert_evicts keccak256 store c worst missing (omega arith) last before) (
                        Samples-evicts hist store c s missing worst last before (omega arith),
                        refl,
                      )
                  | no after ↦
                      rw
                        (insert_leaves_out keccak256 store c worst missing (omega arith) last
                          (omega arith))
                        (
                          Samples-sampled_out hist store c s missing worst last (omega arith)
                              (omega arith),
                          refl,
                        )
                ]
        ]
      ]

  insert_all-Samples_from :
      (hist cs : List PeerCandidate) (store : CandidateStore)
      → 1 ≤ store.config.max_candidates
      → Samples hist store
      → Samples (recorded hist cs) (insert_all keccak256 store cs)
        × ((insert_all keccak256 store cs).config ≡ store.config)
  unfolding insert_all
  insert_all-Samples_from hist [] store positive s = (s, refl)
  insert_all-Samples_from hist (c ∷ cs) store positive s =
      let (next, same) = insert-Samples hist store c positive s in
      let (last, rest) =
        insert_all-Samples_from (c ∷ hist) cs (insert keccak256 store c).0
          (omega (arith, ap (λ (x : CandidateStoreConfig). x.max_candidates) same)) next in
      (last, rest ∙ same)

  new-Samples : (config : CandidateStoreConfig) → Samples [] (new config)
  unfolding new HashMap.get
  new-Samples config = record {
    is_map = tt;
    bounded = omega arith;
    stored = λ k c h. cc;
    freshest = λ c d h among. cc;
    left_out = λ d among. elim among [ ];
  }

  -- A new store of any configuration, a capacity of zero included, into which candidates are
  -- inserted is the sample of those candidates, of the capacity or of size one.
  pub insert_all-Samples :
      (config : CandidateStoreConfig) (cs : List PeerCandidate)
      → Samples (recorded [] cs) (insert_all keccak256 (new config) cs)
        × ((insert_all keccak256 (new config) cs).config ≡ (new config).config)
  insert_all-Samples config cs =
      insert_all-Samples_from [] cs (new config) (unfold new in omega arith) (new-Samples config)
