-- ===== src/Core/Candidates/Freshness.antt =====
-- The order in which records of one identity replace one another.
use Prim.Native.Nat.{Ordering}
use rbp.Prelude.{◌⊎◌, inl, inr, refl, ◌≤◌, ◌≡◌, ◌≢◌, arith}
use rbp.Core.PeerRecord.{PeerCandidate}
use rbp.Core.Candidates.{compare_freshness}

-- `c` would replace `d`
abbrev pub Fresher : PeerCandidate → PeerCandidate → Type 0
Fresher c d = compare_freshness c d ≡ Ordering.gt

pub not-Fresher-trans : (c d e : PeerCandidate) → ¬ Fresher d e → Fresher c e → ¬ Fresher d c
unfolding compare_freshness
not-Fresher-trans c d e h k = ground arith

pub not-Fresher_self : (c : PeerCandidate) → ¬ Fresher c c
unfolding compare_freshness
not-Fresher_self c = ground arith

pub Fresher-sequence-le : (c d : PeerCandidate) → Fresher c d → d.sequence ≤ c.sequence
unfolding compare_freshness
Fresher-sequence-le c d h = ground arith

-- the two outcomes that `insert` tells apart
pub Fresher-dec : (c d : PeerCandidate) → Fresher c d ⊎ (¬ Fresher c d)
Fresher-dec c d = split (compare_freshness c d)
  where
    split : (o : Ordering) → (o ≡ Ordering.gt) ⊎ (o ≢ Ordering.gt)
    split Ordering.gt = inl refl
    split Ordering.lt = inr (λ h. cc)
    split Ordering.eq = inr (λ h. cc)
