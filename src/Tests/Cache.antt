-- ===== src/Tests/Cache.antt =====
-- The theorems about crates/resurrect-node/src/cache.rs at concrete inputs.
use rbp.Prelude.{
  ◌≡◌, ◌⊎◌, refl, some, List, [], ◌∷◌, ok, err, All, Among, arith, inr, nat_eq, bytes_eq, bytes_beq,
  contains, ◌^◌,
}
use rbp.Prelude.HashMap
use rbp.Core.PeerRecord.{PeerCandidate, native_server, local_cache, identity_key}
use rbp.Core.Validation.{validate_announcement, complete}
use rbp.Core.Candidates.{insert_all, insert, insert_full, ranked, sort_by_key, insert_by_key, new}
use rbp.Node.Cache.{CacheError, CachedRow, Row, row_of, cached_row}
use rbp.Node.Cache.Table.{
  Sqlite, store, store_rows, upsert, load_rows, cached_rows, select, insert_row,
}
use rbp.Node.Cache.Load.{SqlitePeerCache, open_cache, load, revalidated}
use rbp.Node.Cache.Upsert.{find, FindsNoOlder}
use rbp.Node.Cache.Rows.{plain_row}
use rbp.Node.Cache.Reload.{load_rows-store}
use rbp.Node.Cache.Stored.{Succeeds, upsert_all, store-atomic, store-FindsNoOlder}
use rbp.Node.Cache.Loaded.{IsRevalidated, load-IsRevalidated}
use rbp.Tests.{digest, codecs, accepted_peer}

abbrev cached : Row
cached = plain_row 5 accepted_peer

-- nothing fails
abbrev sqlite : Sqlite
sqlite = record { opened = ok tt; transaction = ok tt; execute = λ n. ok tt; commit = ok tt }

-- the record was older
abbrev present : Row
present = plain_row 5 (record accepted_peer { sequence = 0; raw_signed_record = 1 ∷ [] })

abbrev read_back : List CachedRow
read_back =
    record {
      record_type = 1;
      raw_signed_record = 9 ∷ [];
      expires_at = 2000;
      block_number = some 11;
      log_index = some 0;
    }
    ∷ []

reads : load_rows (ok tt) 5 (store sqlite 5 (accepted_peer ∷ []) (present ∷ [])).0 ≡ ok read_back
unfolding load_rows store store_rows row_of upsert cached_rows cached_row select insert_row
    bytes_beq
reads = refl

found_present : find cached (present ∷ []) ≡ some present
unfolding find bytes_beq
found_present = refl

load_rows-store_example :
    Among
      (record {
        record_type = 1;
        raw_signed_record = 9 ∷ [];
        expires_at = 2000;
        block_number = some 11;
        log_index = some 0;
      })
      read_back
load_rows-store_example =
    load_rows-store sqlite 5 accepted_peer (present ∷ []) read_back (omega arith)
      (refl, refl, ((omega arith, omega arith, omega arith, omega arith), tt), (refl, tt), refl)
      (inr (present, found_present, refl)) reads

-- the second candidate has no place in an i64
abbrev two : List PeerCandidate
two = accepted_peer ∷ record accepted_peer { peer_id = 8 ∷ []; sequence = 2 ^ 63 } ∷ []

store-atomic_example :
    (Succeeds sqlite two × (store sqlite 5 two [] ≡ (upsert_all sqlite 5 two [], ok tt)))
    ⊎ ((¬ Succeeds sqlite two)
        × ((store sqlite 5 two []).0 ≡ [])
        × (e : CacheError) × ((store sqlite 5 two []).1 ≡ err e))
store-atomic_example = store-atomic sqlite 5 two []

found : find cached (cached ∷ []) ≡ some cached
unfolding find bytes_beq
found = refl

store-FindsNoOlder_example :
    FindsNoOlder cached cached
      (store sqlite 5 (record accepted_peer { sequence = 0 } ∷ []) (cached ∷ [])).0
store-FindsNoOlder_example =
    store-FindsNoOlder sqlite 5 (record accepted_peer { sequence = 0 } ∷ []) (cached ∷ []) cached
      cached found

abbrev late : Row
late = plain_row 6 (record accepted_peer { expires_at = 3000 })

abbrev cache : SqlitePeerCache
cache = open_cache codecs (1 ∷ []) native_server 0

-- the one row of the namespace, as a candidate
abbrev loaded : List PeerCandidate
loaded = record accepted_peer { source = local_cache } ∷ []

loads : load digest cache (ok tt) 5 (ok 1000) (cached ∷ late ∷ []) ≡ ok loaded
unfolding load load_rows cached_rows cached_row select insert_row revalidated validate_announcement
    complete contains HashMap.get HashMap.insert insert_all insert insert_full ranked sort_by_key
    insert_by_key new identity_key
loads = refl

load-IsRevalidated_example : All (IsRevalidated cache 5 1000 (cached ∷ late ∷ [])) loaded
load-IsRevalidated_example =
    load-IsRevalidated digest cache 5 1000 (cached ∷ late ∷ []) loaded loads
