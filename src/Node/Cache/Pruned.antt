-- ===== src/Node/Cache/Pruned.antt =====
-- crates/resurrect-node/src/cache.rs: what `prune` leaves.
use rbp.Prelude.{
  ℕ, ◌≤◌, ◌≡◌, refl, inl, inr, ◌∙◌, true, Option, none, some, List, [], ◌∷◌, ok, nat_eq,
  if◌then◌else◌, arith, leb, Bool-cases, All, length, retain,
}
use rbp.Node.Cache.{ℤ, pos, i64_max, Row}
use rbp.Node.Cache.Table.{same_key, is_live, prune}
use rbp.Node.Cache.Upsert.{find, find_same}

retain-All :
    (now : ℤ) (rows : List Row) → All (λ r. is_live now r ≡ true) (retain (is_live now) rows)
unfolding retain
retain-All now [] = tt
retain-All now (r ∷ rows) = elim (Bool-cases (is_live now r)) [
  | inl live ↦ rw live (live, retain-All now rows)
  | inr gone ↦ rw gone (retain-All now rows)
]

-- the keys of the table are all different
abbrev pub IsKeyed : List Row → Type 0
IsKeyed [] = Unit
IsKeyed (r ∷ rows) = (find r rows ≡ none) × IsKeyed rows

find-retain-none :
    (k : Row) (now : ℤ) (rows : List Row)
    → find k rows ≡ none
    → find k (retain (is_live now) rows) ≡ none
unfolding find retain
find-retain-none k now [] h = refl
find-retain-none k now (r ∷ rows) h = ground (arith, find-retain-none k now rows)

abbrev pub live_only : ℤ → Option Row → Option Row
live_only now none = none
live_only now (some r) = if is_live now r then some r else none

find-retain :
    (k : Row) (now : ℤ) (rows : List Row)
    → IsKeyed rows
    → find k (retain (is_live now) rows) ≡ live_only now (find k rows)
unfolding find retain
find-retain k now [] h = refl
find-retain k now (r ∷ rows) h = elim (Bool-cases (same_key k r)) [
  | inr other ↦ ground (arith, other, find-retain k now rows h.1)
  | inl same ↦
      let missing : find k rows ≡ none = find_same k r rows same ∙ h.0 in
      ground (arith, same, missing, find-retain-none k now rows missing)
]

-- Pruning at a time of at most 2^63 - 1 succeeds with the number of the rows that are left; all of
-- them expire later than that time, and in a table whose keys differ, what is found under a key is
-- still found if it expires later, and else nothing is.
pub prune-live_only :
    (now : ℕ) (rows : List Row)
    → now ≤ i64_max
    → IsKeyed rows
    → ((prune (ok tt) now rows).1 ≡ ok (length (prune (ok tt) now rows).0))
      × All (λ r. is_live (pos now) r ≡ true) (prune (ok tt) now rows).0
      × ((k : Row) → find k (prune (ok tt) now rows).0 ≡ live_only (pos now) (find k rows))
unfolding prune
prune-live_only now rows fits keyed =
    let in_range : leb now i64_max ≡ true = ground arith in
    rw in_range (refl, retain-All (pos now) rows, λ k. find-retain k (pos now) rows keyed)
