-- ===== src/Core/Candidates/Maximum.antt =====
-- `max_by_key` over the keys of a candidate map.
use rbp.Prelude.{
  ℕ, ◌≤◌, ◌≡◌, refl, ◌⊎◌, inl, inr, some, none, List, [], ◌∷◌, ltb, bytes_eq, if◌then◌else◌, arith,
  Bool-cases, bytes_beq, bytes_beq_iff,
}
use rbp.Prelude.HashMap
use rbp.Prelude.HashMap.{HashMap, IsMap}
use rbp.Core.PeerRecord.{PeerCandidate}
use rbp.Core.Candidates.{max_from, max_by_key}

abbrev pub Present : List ℕ → HashMap (List ℕ) PeerCandidate → Type 0
Present k m = (c : PeerCandidate) × (HashMap.get k m ≡ some c)

Present-cons :
    (k : List ℕ) (e : List ℕ × PeerCandidate) (m : HashMap (List ℕ) PeerCandidate)
    → Present k m
    → Present k (e ∷ m)
unfolding HashMap.get
Present-cons k e m (c, h) = elim (Bool-cases (bytes_beq e.0 k)) [
  | inl same ↦ (e.1, rw same)
  | inr other ↦ (c, rw other h)
]

Present-head :
    (e : List ℕ × PeerCandidate) (m : HashMap (List ℕ) PeerCandidate) → Present e.0 (e ∷ m)
unfolding HashMap.get
Present-head e m = (e.1, ground (arith, bytes_beq_iff e.0 e.0))

module _ (key : List ℕ → ℕ) where
  max_from-bound :
      (m : HashMap (List ℕ) PeerCandidate) (best : List ℕ)
      → (key best ≤ key (max_from key best (HashMap.keys m)))
        × ((k : List ℕ) (c : PeerCandidate)
            → HashMap.get k m ≡ some c
            → key k ≤ key (max_from key best (HashMap.keys m)))
  unfolding max_from HashMap.get
  max_from-bound [] best = (omega arith, λ k c h. cc)
  max_from-bound (e ∷ m) best =
      let rec = max_from-bound m (if ltb (key e.0) (key best) then best else e.0) in
      (ground (arith, rec.0), λ k c h. ground (arith, rec.0, rec.1 k c, bytes_beq_iff e.0 k))

  max_from-Present :
      (m : HashMap (List ℕ) PeerCandidate) (best : List ℕ)
      → (max_from key best (HashMap.keys m) ≡ best) ⊎ Present (max_from key best (HashMap.keys m)) m
  unfolding max_from
  max_from-Present [] best = inl refl
  max_from-Present (e ∷ m) best = elim (Bool-cases (ltb (key e.0) (key best))) [
    | inl less ↦
        rw (less, max_from)
          (elim (max_from-Present m best) [
            | inl same ↦ inl same
            | inr there ↦ inr (Present-cons _ e m there)
          ])
    | inr more ↦
        rw (more, max_from)
          (elim (max_from-Present m e.0) [
            | inl same ↦ inr (rw same (Present-head e m))
            | inr there ↦ inr (Present-cons _ e m there)
          ])
  ]

  pub max_by_key-none :
      (m : HashMap (List ℕ) PeerCandidate) → max_by_key key (HashMap.keys m) ≡ none → m ≡ []
  unfolding max_by_key
  max_by_key-none [] h = refl
  max_by_key-none (e ∷ m) h = cc

  -- the maximum is a key of the map, and bounds the others
  pub max_by_key-some :
      (m : HashMap (List ℕ) PeerCandidate) (worst : List ℕ)
      → max_by_key key (HashMap.keys m) ≡ some worst
      → Present worst m
        × ((k : List ℕ) (c : PeerCandidate) → HashMap.get k m ≡ some c → key k ≤ key worst)
  unfolding max_by_key
  max_by_key-some [] worst h = absurd (cc)
  max_by_key-some (e ∷ m) worst h =
      let same : max_from key e.0 (HashMap.keys m) ≡ worst = cc in
      let bound = max_from-bound m e.0 in
      rw (← same) (
        elim (max_from-Present m e.0) [
          | inl first ↦ rw first (Present-head e m)
          | inr there ↦ Present-cons _ e m there
        ],
        unfold HashMap.get in λ k c h. ground (arith, bound.0, bound.1 k c, bytes_beq_iff e.0 k),
      )
