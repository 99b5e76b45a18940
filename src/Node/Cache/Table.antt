-- ===== src/Node/Cache/Table.antt =====
-- crates/resurrect-node/src/cache.rs: the SQL statements. The table `verified_peers` is a list of rows
-- in the order of their insertion, and each statement is the function on that list that it asks for.
-- The errors of SQLite are arguments; a transaction that is dropped before it is committed, or whose
-- commit fails, is rolled back.
use rbp.Prelude.{
  ℕ, Bool, true, false, ◌&&◌, ◌||◌, Option, none, some, List, [], ◌∷◌, String, Result, ok, err,
  ◌>>=◌, ◌==◌, nat_eq, bytes_eq, if◌then◌else◌, length, retain,
}
use rbp.Core.Namespace.{Namespace}
use rbp.Core.PeerRecord.{PeerCandidate}
use rbp.Node.Cache.{
  CacheError, CachedRow, Row, cached_row, compare_ints, is_eq, is_ge, is_gt, pos, row_of, to_i64, ℤ,
}

-- `PRIMARY KEY(namespace, record_type, peer_id)`
abbrev pub same_key : Row → Row → Bool
same_key r s =
    (r.namespace == s.namespace && is_eq (compare_ints r.record_type s.record_type))
    && r.peer_id == s.peer_id

-- `COALESCE(block, 0)`
abbrev pub coalesce : Option ℤ → ℤ
coalesce none = pos 0
coalesce (some block) = block

-- the `WHERE` of the `DO UPDATE`
abbrev pub supersedes : Row → Row → Bool
supersedes excluded present =
    is_gt (compare_ints excluded.sequence present.sequence)
    || (is_eq (compare_ints excluded.sequence present.sequence)
        && is_ge (
            compare_ints (coalesce excluded.announcement_block)
              (coalesce present.announcement_block)))

abbrev pub updated : Row → Row → Row
updated excluded present = record present {
  sequence = excluded.sequence;
  raw_signed_record = excluded.raw_signed_record;
  expires_at = excluded.expires_at;
  announcement_block = excluded.announcement_block;
  announcement_log_index = excluded.announcement_log_index;
}

-- `INSERT … ON CONFLICT … DO UPDATE`
unfoldable pub upsert : Row → List Row → List Row
upsert r [] = r ∷ []
upsert r (s ∷ rows) =
    if same_key r s then (if supersedes r s then updated r s else s) ∷ rows else s ∷ upsert r rows

-- what SQLite answers to `Connection::open`, `transaction`, `commit`, and to the `execute` that has
-- so many candidates behind it
pub record Sqlite : Type 0 where
  pub opened : Result (Unit {0}) CacheError
  pub transaction : Result (Unit {0}) CacheError
  pub execute : ℕ → Result (Unit {0}) CacheError
  pub commit : Result (Unit {0}) CacheError

-- the rows after the transaction: an error up to `commit` rolls it back
abbrev pub committed :
    List Row → Result (List Row) CacheError → List Row × Result (Unit {0}) CacheError
committed rows (ok after) = (after, ok tt)
committed rows (err e) = (rows, err e)

module _ (sqlite : Sqlite) where
  -- the loop inside the transaction
  unfoldable pub store_rows :
      Namespace → List PeerCandidate → List Row → Result (List Row) CacheError
  unfolding row_of upsert
  store_rows namespace [] rows = ok rows
  store_rows namespace (candidate ∷ rest) rows = do
    row ← row_of namespace candidate
    executed ← sqlite.execute (length rest)
    store_rows namespace rest (upsert row rows)

  unfoldable pub store :
      Namespace → List PeerCandidate → List Row → List Row × Result (Unit {0}) CacheError
  unfolding store_rows
  store namespace candidates rows = committed rows (do
    connection ← sqlite.opened
    transaction ← sqlite.transaction
    after ← store_rows namespace candidates rows
    done ← sqlite.commit
    ok after)

-- `DESC` of a nullable column: NULL is the least value
abbrev pub block_first : Option ℤ → Option ℤ → Bool
block_first left none = true
block_first none (some right) = false
block_first (some left) (some right) = is_ge (compare_ints left right)

-- `ORDER BY sequence DESC, announcement_block DESC`
abbrev pub comes_first : Row → Row → Bool
comes_first r s =
    is_gt (compare_ints r.sequence s.sequence)
    || (is_eq (compare_ints r.sequence s.sequence)
        && block_first r.announcement_block s.announcement_block)

unfoldable pub insert_row : Row → List Row → List Row
insert_row r [] = r ∷ []
insert_row r (s ∷ rows) = if comes_first r s then r ∷ s ∷ rows else s ∷ insert_row r rows

-- `SELECT … WHERE namespace = ?1 ORDER BY …`
unfoldable pub select : Namespace → List Row → List Row
unfolding insert_row
select namespace [] = []
select namespace (r ∷ rows) =
    let rest = select namespace rows in if r.namespace == namespace then insert_row r rest else rest

-- `collect` stops at the first row that violates a bound
unfoldable pub cached_rows : List Row → Result (List CachedRow) CacheError
unfolding cached_row
cached_rows [] = ok []
cached_rows (r ∷ rows) = do row ← cached_row r; rest ← cached_rows rows; ok (row ∷ rest)

-- `load_rows`, with what `Connection::open`, `prepare` and `query_map` answer
unfoldable pub load_rows :
    Result (Unit {0}) CacheError → Namespace → List Row → Result (List CachedRow) CacheError
unfolding cached_rows select
load_rows opened namespace rows = do connection ← opened; cached_rows (select namespace rows)

-- `DELETE FROM verified_peers WHERE expires_at <= ?1`
abbrev pub is_live : ℤ → Row → Bool
is_live now row = is_gt (compare_ints row.expires_at now)

-- the rows that are left, and their number; the two statements are taken not to fail
abbrev pub pruned : List Row → Result ℤ CacheError → List Row × Result ℕ CacheError
pruned rows (err e) = (rows, err e)
pruned rows (ok now) = (retain (is_live now) rows, ok (length (retain (is_live now) rows)))

unfoldable pub prune : Result (Unit {0}) CacheError → ℕ → List Row → List Row × Result ℕ CacheError
unfolding retain
prune opened now rows =
    let time_text : String = "time" in pruned rows (do connection ← opened; to_i64 now time_text)
