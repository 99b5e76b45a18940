-- ===== src/Node/Cache/Reload.antt =====
-- crates/resurrect-node/src/cache.rs: a candidate that is stored is read again.
use rbp.Prelude.{
  ◌≤◌, ◌≡◌, ◌⊎◌, refl, inl, inr, sym, ap, ◌∙◌, true, none, some, List, [], ◌∷◌, ok, nat_eq,
  nat_beq_iff, bytes_eq, ◌==◌, arith, Bool-cases, Result-cases, Among,
}
use rbp.Prelude.Words.{u32_max}
use rbp.Core.Namespace.{Namespace}
use rbp.Core.PeerRecord.{PeerCandidate}
use rbp.Node.Cache.{CachedRow, Row, cached_row}
use rbp.Node.Cache.Table.{
  Sqlite, cached_rows, comes_first, insert_row, load_rows, same_key, select, store, supersedes,
  updated, upsert,
}
use rbp.Node.Cache.Upsert.{find, find-upsert, merged, same_key_iff}
use rbp.Node.Cache.Rows.{plain_row, cached_row-plain_row}
use rbp.Node.Cache.Stored.{Succeeds, store-atomic}

insert_row-Among :
    (r s : Row) (rows : List Row) → (s ≡ r) ⊎ Among s rows → Among s (insert_row r rows)
unfolding insert_row
insert_row-Among r s [] h = h
insert_row-Among r s (t ∷ rows) h = elim (Bool-cases (comes_first r t)) [
  | inl before ↦ rw before h
  | inr after ↦ rw after (elim h [
    | inl new ↦ inr (insert_row-Among r s rows (inl new))
    | inr (inl here) ↦ inl here
    | inr (inr later) ↦ inr (insert_row-Among r s rows (inr later))
  ])
]

select-Among :
    (namespace : Namespace) (s : Row) (rows : List Row)
    → s.namespace ≡ namespace
    → Among s rows
    → Among s (select namespace rows)
unfolding select
select-Among namespace s [] own h = h
select-Among namespace s (r ∷ rows) own h = elim (Bool-cases (r.namespace == namespace)) [
  | inl mine ↦ rw mine (
      insert_row-Among r s (select namespace rows) (elim h [
        | inl here ↦ inl here
        | inr later ↦ inr (select-Among namespace s rows own later)
      ]))
  | inr other ↦ rw other (elim h [
    | inl here ↦ absurd (ground (arith, nat_beq_iff r.namespace namespace, ap Row.namespace here))
    | inr later ↦ select-Among namespace s rows own later
  ])
]

cached_rows-Among :
    (s : Row) (it : CachedRow) (rs : List Row) (rows : List CachedRow)
    → cached_row s ≡ ok it
    → cached_rows rs ≡ ok rows
    → Among s rs
    → Among it rows
unfolding cached_rows
cached_rows-Among s it [] rows read h among = elim among [ ]
cached_rows-Among s it (r ∷ rs) rows read h among = elim (Result-cases (cached_row r)) [
  | inr (e, failed) ↦ absurd (ground (arith, failed))
  | inl (row, this) ↦ elim (Result-cases (cached_rows rs)) [
    | inr (e, failed) ↦ absurd (ground (arith, failed, this))
    | inl (rest, others) ↦
        let same : rows ≡ row ∷ rest = ground (arith, this, others) in
        rw same (elim among [
          | inl here ↦ inl (ground (arith, read, this, ap cached_row here))
          | inr later ↦ inr (cached_rows-Among s it rs rest read others later)
        ])
  ]
]

find-Among :
    (k s : Row) (rows : List Row) → find k rows ≡ some s → Among s rows × (same_key k s ≡ true)
unfolding find
find-Among k s [] h = absurd (cc)
find-Among k s (r ∷ rows) h = elim (Bool-cases (same_key k r)) [
  | inl same ↦ let here : r ≡ s = ground arith in (inl (sym here), rw (sym here) same)
  | inr other ↦ let (among, key) = find-Among k s rows (ground arith) in (inr among, key)
]

-- the table has no row under the key of `r`, or one that `r` supersedes
abbrev pub IsNews : Row → List Row → Type 0
IsNews r rows =
    (find r rows ≡ none) ⊎ ((s : Row) × (find r rows ≡ some s) × (supersedes r s ≡ true))

updated-same : (r s : Row) → same_key r s ≡ true → updated r s ≡ r
updated-same r s h =
    let (one, two, three) = (same_key_iff r s).0 h in rw (sym one, sym two, sym three) refl

upsert-Among : (r : Row) (rows : List Row) → IsNews r rows → Among r (upsert r rows)
upsert-Among r rows news =
    let itself : same_key r r ≡ true = ground (arith, same_key_iff r r) in
    let found : find r (upsert r rows) ≡ some (merged r (find r rows)) =
      find-upsert r r rows ∙ rw itself refl in
    elim news [
      | inl nothing ↦ (find-Among r r (upsert r rows) (found ∙ rw nothing refl)).0
      | inr (s, present, newer) ↦
          let same = updated-same r s (find-Among r s rows present).1 in
          (find-Among r r (upsert r rows) (found ∙ rw (present, newer, same) refl)).0
    ]

-- A candidate with a u32 record type that is stored alone, into a table without a row under its key
-- or with one that it supersedes, and with nothing failing, is among the rows that are read from the
-- table afterwards, if reading succeeds: with its record type, record, expiry, block and log index.
pub load_rows-store :
    (sqlite : Sqlite) (namespace : Namespace) (c : PeerCandidate) (rows : List Row)
    (read : List CachedRow)
    → c.record_type ≤ u32_max
    → Succeeds sqlite (c ∷ [])
    → IsNews (plain_row namespace c) rows
    → load_rows (ok tt) namespace (store sqlite namespace (c ∷ []) rows).0 ≡ ok read
    → Among
        (record {
          record_type = c.record_type;
          raw_signed_record = c.raw_signed_record;
          expires_at = c.expires_at;
          block_number = c.announcement_block;
          log_index = c.announcement_log_index;
        })
        read
unfolding load_rows
load_rows-store sqlite namespace c rows read u32 went news loads =
    let r = plain_row namespace c in
    elim (store-atomic sqlite namespace (c ∷ []) rows) [
      | inr (failed, same, e, error) ↦ absurd (failed went)
      | inl (went', stored) ↦
          cached_rows-Among r _ (select namespace (upsert r rows)) read
            (cached_row-plain_row namespace c u32) (rw stored at loads)
            (select-Among namespace r (upsert r rows) refl (upsert-Among r rows news))
    ]
