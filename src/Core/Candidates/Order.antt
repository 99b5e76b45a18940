-- ===== src/Core/Candidates/Order.antt =====
-- Two samples of histories with the same members agree, whatever the order of the insertions.
use rbp.Prelude.{
  ℕ, ◌≤◌, ◌≡◌, ◌≢◌, ◌↔◌, ap, ◌⊎◌, inl, inr, Option, some, none, List, [], ◌∷◌, bytes_eq, length,
  Among, arith, Option-cases, Bool-cases, bytes_beq, bytes_beq_iff,
}
use Prim.Native.Nat.{Ordering}
use rbp.Prelude.HashMap
use rbp.Prelude.HashMap.{HashMap, IsMap}
use rbp.Core.Namespace.{B256}
use rbp.Core.PeerRecord.{PeerCandidate, identity_key}
use rbp.Core.Candidates.{CandidateStoreConfig, score, insert_all, new, compare_freshness}
use rbp.Core.Candidates.Freshness.{Fresher}
use rbp.Core.Candidates.Sample.{IsSample}
use rbp.Core.Candidates.Maximum.{Present}
use rbp.Core.Candidates.History.{recorded, insert_all-Samples}

abbrev Store : Type 0
Store = HashMap (List ℕ) PeerCandidate

-- every key of `m` is one of `n`
abbrev Within : Store → Store → Type 0
Within m n = (j : List ℕ) (d : PeerCandidate) → HashMap.get j m ≡ some d → Present j n

Within-tail :
    (e : List ℕ × PeerCandidate) (m n : Store) → IsMap (e ∷ m) → Within (e ∷ m) n → Within m n
unfolding HashMap.get
Within-tail e m n v w j d h = w j d (ground (arith, bytes_beq_iff e.0 j))

Within-remove :
    (k : List ℕ) (m n : Store)
    → IsMap n
    → HashMap.get k m ≡ none
    → Within m n
    → Within m (HashMap.remove k n)
Within-remove k m n v gone w j d h =
    let (c, found) = w j d h in (c, ground (arith, bytes_beq_iff k j, HashMap.get-remove k j n v))

-- distinct keys that all occur in `n` are at most as many as the entries of `n`
length-Within : (m n : Store) → IsMap m → IsMap n → Within m n → length m ≤ length n
length-Within [] n vm vn w = omega arith
length-Within (e ∷ m) n vm vn w =
    let (c, found) = w e.0 e.1 (unfold HashMap.get in ground (arith, bytes_beq_iff e.0 e.0)) in
    omega (
      arith,
      HashMap.length-remove_old e.0 c n found,
      length-Within m (HashMap.remove e.0 n) vm.1 (HashMap.remove-IsMap e.0 n vn)
          (Within-remove e.0 m n vn vm.0 (Within-tail e m n vm w)),
    )

-- either every key of `m` occurs in `n`, or one is shown that does not
Within-cases :
    (m n : Store)
    → IsMap m
    → Within m n
      ⊎ ((j : List ℕ) × (d : PeerCandidate) × (HashMap.get j m ≡ some d) × (HashMap.get j n ≡ none))
Within-cases [] n v = inl (unfold HashMap.get in λ j d h. cc)
Within-cases (e ∷ m) n v = elim (Option-cases (HashMap.get e.0 n)) [
  | inl gone ↦ inr (e.0, e.1, unfold HashMap.get in ground (arith, bytes_beq_iff e.0 e.0), gone)
  | inr (c, found) ↦ elim (Within-cases m n v.1) [
    | inl rest ↦ inl (
        unfold HashMap.get in
        λ j d h. elim (Bool-cases (bytes_beq e.0 j)) [
          | inl same ↦ (c, ground (arith, bytes_beq_iff e.0 j))
          | inr other ↦ rest j d (ground arith)
        ])
    | inr (j, d, h, gone) ↦
        inr (j, d, unfold HashMap.get in ground (arith, bytes_beq_iff e.0 j), gone)
  ]
]

-- no two of the identities of `hist` have the same rank
abbrev pub RanksDiffer : (List ℕ → ℕ) → List PeerCandidate → Type 0
RanksDiffer key hist =
    (c d : PeerCandidate)
    → Among c hist
    → Among d hist
    → key (identity_key c) ≡ key (identity_key d)
    → identity_key c ≡ identity_key d

module _ (key : List ℕ → ℕ) (cap : ℕ) (h₁ h₂ : List PeerCandidate) (m₁ m₂ : Store)
    (s₁ : IsSample key cap h₁ m₁) (s₂ : IsSample key cap h₂ m₂) (differ : RanksDiffer key h₁)
    (into : (c : PeerCandidate) → Among c h₁ → Among c h₂)
    (back : (c : PeerCandidate) → Among c h₂ → Among c h₁) where
  retained_once :
      (k : List ℕ) (c : PeerCandidate) → HashMap.get k m₁ ≡ some c → HashMap.get k m₂ ≢ none
  retained_once k c found gone =
      let (of_k, among) = s₁.stored k c found in
      let (full, ranks) = s₂.left_out c (into c among) (rw of_k gone) in
      elim (Within-cases m₂ m₁ s₂.is_map) [
        | inl within ↦ absurd (
            omega (
              arith,
              s₁.bounded,
              length-Within ((k, c) ∷ m₂) m₁ (gone, s₂.is_map) s₁.is_map
                  (unfold HashMap.get in
                    λ j d h. elim (Bool-cases (bytes_beq k j)) [
                      | inl same ↦ (c, ground (arith, bytes_beq_iff k j))
                      | inr other ↦ within j d (ground arith)
                    ]),
            ))
        | inr (j, d, there, missing) ↦
            let (of_j, d_among) = s₂.stored j d there in
            let (_, above) = s₁.left_out d (back d d_among) (rw of_j missing) in
            let same =
              differ c d among (back d d_among)
                (omega (arith, above k c found, ranks j d there, ap key of_k, ap key of_j)) in
            cc (of_k, same, of_j, gone, there)
      ]

-- two lookups agree: both miss, or both hit records of the same freshness
abbrev pub SameRecord : Option PeerCandidate → Option PeerCandidate → Type 0
SameRecord none none = Unit
SameRecord none (some d) = ⊥
SameRecord (some c) none = ⊥
SameRecord (some c) (some d) = compare_freshness c d ≡ Ordering.eq

equal_of_not-Fresher :
    (c d : PeerCandidate) → ¬ Fresher c d → ¬ Fresher d c → compare_freshness c d ≡ Ordering.eq
unfolding compare_freshness
equal_of_not-Fresher c d h k = ground arith

module _ (key : List ℕ → ℕ) (cap : ℕ) (h₁ h₂ : List PeerCandidate) (m₁ m₂ : Store)
    (s₁ : IsSample key cap h₁ m₁) (s₂ : IsSample key cap h₂ m₂) (differ : RanksDiffer key h₁)
    (into : (c : PeerCandidate) → Among c h₁ → Among c h₂)
    (back : (c : PeerCandidate) → Among c h₂ → Among c h₁) where
  IsSample-unique : (k : List ℕ) → SameRecord (HashMap.get k m₁) (HashMap.get k m₂)
  IsSample-unique k = elim (Option-cases (HashMap.get k m₁)) [
    | inl gone ↦ elim (Option-cases (HashMap.get k m₂)) [
      | inl too ↦ rw (gone, too) tt
      | inr (d, found) ↦ absurd (
          retained_once key cap h₂ h₁ m₂ m₁ s₂ s₁ (λ a b x y. differ a b (back a x) (back b y)) back
            into k d found gone)
    ]
    | inr (c, found) ↦ elim (Option-cases (HashMap.get k m₂)) [
      | inl gone ↦ absurd (retained_once key cap h₁ h₂ m₁ m₂ s₁ s₂ differ into back k c found gone)
      | inr (d, there) ↦
          let (of_c, c_among) = s₁.stored k c found in
          let (of_d, d_among) = s₂.stored k d there in
          rw (found, there)
            (equal_of_not-Fresher c d (s₂.freshest d c (rw of_c there) (into c c_among))
              (s₁.freshest c d (rw of_d found) (back d d_among)))
    ]
  ]

recorded-Among :
    (c : PeerCandidate) (hist cs : List PeerCandidate)
    → Among c (recorded hist cs) ↔ (Among c hist ⊎ Among c cs)
recorded-Among c hist [] = (λ a. inl a, elim [ inl a ↦ a | inr b ↦ elim b [ ] ])
recorded-Among c hist (x ∷ cs) =
    let (there, back) = recorded-Among c (x ∷ hist) cs in
    (
      λ a. elim (there a) [
        | inl h ↦ elim h [ inl e ↦ inr (inl e) | inr o ↦ inl o ]
        | inr r ↦ inr (inr r)
      ],
      elim [
        | inl o ↦ back (inl (inr o))
        | inr r ↦ elim r [ inl e ↦ back (inl (inl e)) | inr o ↦ back (inr o) ]
      ],
    )

only_new : (c : PeerCandidate) (cs : List PeerCandidate) → Among c (recorded [] cs) → Among c cs
only_new c cs a = elim ((recorded-Among c [] cs).0 a) [ inl h ↦ elim h [ ] | inr r ↦ r ]

-- Two sequences of insertions with the same members, into new stores of one configuration, retain
-- the same identities, and under each of them records of equal sequence and chain position, if no
-- two identities among them have the same score.
pub insert_all-order :
    (keccak256 : List ℕ → B256) (config : CandidateStoreConfig) (cs ds : List PeerCandidate)
    → RanksDiffer (score keccak256 (new config).config) cs
    → ((c : PeerCandidate) → Among c cs ↔ Among c ds)
    → (k : List ℕ)
    → SameRecord
        (HashMap.get k (insert_all keccak256 (new config) cs).candidates)
        (HashMap.get k (insert_all keccak256 (new config) ds).candidates)
insert_all-order keccak256 config cs ds differ same =
    let (s₁, c₁) = insert_all-Samples keccak256 config cs in
    let (s₂, c₂) = insert_all-Samples keccak256 config ds in
    IsSample-unique (score keccak256 (new config).config) (new config).config.max_candidates
      (recorded [] cs) (recorded [] ds) _ _ (rw c₁ at s₁) (rw c₂ at s₂)
      (λ c d a b. differ c d (only_new c cs a) (only_new d cs b))
      (λ c a. (recorded-Among c [] ds).1 (inr ((same c).0 (only_new c cs a))))
      (λ c a. (recorded-Among c [] cs).1 (inr ((same c).1 (only_new c ds a))))
