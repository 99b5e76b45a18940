-- ===== src/Node/Cache/Upsert.antt =====
-- crates/resurrect-node/src/cache.rs: the upsert, by what is found under a key.
use rbp.Prelude.{
  ◌≡◌, ◌↔◌, refl, inl, inr, sym, ap, ◌∙◌, true, false, Option, none, some, List, [], ◌∷◌, nat_eq,
  nat_beq_iff, bytes_eq, bytes_beq_iff, if◌then◌else◌, arith, Bool-cases,
}
use rbp.Node.Cache.{ℤ, pos, negsuc, compare_ints, is_gt, is_ge, is_eq, Row}
use rbp.Node.Cache.Table.{same_key, supersedes, updated, upsert}

-- the row under the key of `k`
unfoldable pub find : Row → List Row → Option Row
find k [] = none
find k (s ∷ rows) = if same_key k s then some s else find k rows

-- the sequence number of `t` is not below that of `s`
abbrev pub NoOlder : Row → Row → Type 0
NoOlder t s = is_ge (compare_ints t.sequence s.sequence) ≡ true

is_eq-compare_ints : (m n : ℤ) → (is_eq (compare_ints m n) ≡ true) ↔ (m ≡ n)
is_eq-compare_ints (pos m) (pos n) = ground arith
is_eq-compare_ints (pos m) (negsuc n) = ground arith
is_eq-compare_ints (negsuc m) (pos n) = ground arith
is_eq-compare_ints (negsuc m) (negsuc n) = ground arith

is_ge-compare_ints_self : (n : ℤ) → is_ge (compare_ints n n) ≡ true
is_ge-compare_ints_self (pos n) = ground arith
is_ge-compare_ints_self (negsuc n) = ground arith

is_ge-compare_ints_trans :
    (k m n : ℤ)
    → is_ge (compare_ints k m) ≡ true
    → is_ge (compare_ints m n) ≡ true
    → is_ge (compare_ints k n) ≡ true
is_ge-compare_ints_trans (pos k) (pos m) (pos n) h j = ground arith
is_ge-compare_ints_trans (pos k) (pos m) (negsuc n) h j = ground arith
is_ge-compare_ints_trans (pos k) (negsuc m) (pos n) h j = ground arith
is_ge-compare_ints_trans (pos k) (negsuc m) (negsuc n) h j = ground arith
is_ge-compare_ints_trans (negsuc k) (pos m) (pos n) h j = ground arith
is_ge-compare_ints_trans (negsuc k) (pos m) (negsuc n) h j = ground arith
is_ge-compare_ints_trans (negsuc k) (negsuc m) (pos n) h j = ground arith
is_ge-compare_ints_trans (negsuc k) (negsuc m) (negsuc n) h j = ground arith

pub NoOlder-refl : (s : Row) → NoOlder s s
NoOlder-refl s = is_ge-compare_ints_self s.sequence

pub NoOlder-trans : (u t s : Row) → NoOlder u t → NoOlder t s → NoOlder u s
NoOlder-trans u t s h j = is_ge-compare_ints_trans u.sequence t.sequence s.sequence h j

supersedes-NoOlder : (r s : Row) → supersedes r s ≡ true → NoOlder r s
supersedes-NoOlder r s h = ground arith

kept-NoOlder : (r s : Row) → supersedes r s ≡ false → NoOlder s r
kept-NoOlder r s h = kept r.sequence s.sequence (ground arith)
  where
    kept : (m n : ℤ) → is_gt (compare_ints m n) ≡ false → is_ge (compare_ints n m) ≡ true
    kept (pos m) (pos n) h = ground arith
    kept (pos m) (negsuc n) h = ground arith
    kept (negsuc m) (pos n) h = ground arith
    kept (negsuc m) (negsuc n) h = ground arith

pub same_key_iff :
    (r s : Row)
    → (same_key r s ≡ true)
      ↔ ((r.namespace ≡ s.namespace) × (r.record_type ≡ s.record_type) × (r.peer_id ≡ s.peer_id))
same_key_iff r s = ground (
  arith,
  nat_beq_iff r.namespace s.namespace,
  is_eq-compare_ints r.record_type s.record_type,
  bytes_beq_iff r.peer_id s.peer_id,
)

-- what the upsert leaves under the key of `r`
abbrev pub merged : Row → Option Row → Row
merged r none = r
merged r (some s) = if supersedes r s then updated r s else s

-- An upsert of `r` leaves under the key of `r` the row `r` if there was none, the present row with
-- the new numbers if `r` supersedes it, and else the present row; under every other key it changes
-- nothing.
pub find-upsert :
    (k r : Row) (rows : List Row)
    → find k (upsert r rows) ≡ (if same_key k r then some (merged r (find r rows)) else find k rows)
unfolding find upsert
find-upsert k r [] = ground arith
find-upsert k r (s ∷ rows) = elim (Bool-cases (supersedes r s)) [
  | inl newer ↦ ground (
    arith,
    newer,
    same_key_iff k r,
    same_key_iff r s,
    same_key_iff k s,
    same_key_iff k (updated r s),
    find-upsert k r rows,
  )
  | inr older ↦
      ground
        (arith, older, same_key_iff k r, same_key_iff r s, same_key_iff k s, find-upsert k r rows)
]

merged-NoOlder : (r : Row) (o : Option Row) → NoOlder (merged r o) r
merged-NoOlder r none = NoOlder-refl r
merged-NoOlder r (some s) = elim (Bool-cases (supersedes r s)) [
  | inl newer ↦ rw newer (NoOlder-refl r)
  | inr older ↦ rw older (kept-NoOlder r s older)
]

merged-some-NoOlder : (r s : Row) → NoOlder (merged r (some s)) s
merged-some-NoOlder r s = elim (Bool-cases (supersedes r s)) [
  | inl newer ↦ rw newer (supersedes-NoOlder r s newer)
  | inr older ↦ rw older (NoOlder-refl s)
]

-- the row under a key is found, and no older than `s`
abbrev pub FindsNoOlder : Row → Row → List Row → Type 0
FindsNoOlder k s rows = (t : Row) × (find k rows ≡ some t) × NoOlder t s

pub find_same : (k r : Row) (rows : List Row) → same_key k r ≡ true → find k rows ≡ find r rows
unfolding find
find_same k r [] h = refl
find_same k r (s ∷ rows) h =
    ground (arith, same_key_iff k r, same_key_iff k s, same_key_iff r s, find_same k r rows h)

pub upsert-FindsNoOlder :
    (k s r : Row) (rows : List Row) → FindsNoOlder k s rows → FindsNoOlder k s (upsert r rows)
upsert-FindsNoOlder k s r rows (t, found, fresh) = elim (Bool-cases (same_key k r)) [
  | inr other ↦ (t, find-upsert k r rows ∙ rw other found, fresh)
  | inl same ↦ (
    merged r (some t),
    find-upsert k r rows
        ∙ rw same (ap (λ o. some (merged r o)) (sym (find_same k r rows same) ∙ found)),
    NoOlder-trans (merged r (some t)) t s (merged-some-NoOlder r t) fresh,
  )
]

pub upsert-Finds : (r : Row) (rows : List Row) → FindsNoOlder r r (upsert r rows)
upsert-Finds r rows =
    let itself : same_key r r ≡ true = ground (arith, same_key_iff r r) in
    (merged r (find r rows), find-upsert r r rows ∙ rw itself refl, merged-NoOlder r (find r rows))
