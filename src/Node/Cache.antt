-- ===== src/Node/Cache.antt =====
-- crates/resurrect-node/src/cache.rs: the rows of `verified_peers` and the numbers in them. SQLite's
-- integers are ℤ with their bounds written out, and parameters say what SQLite's calls answer.
pub mod Table
pub mod Load
pub mod Upsert
pub mod Rows
pub mod Stored
pub mod Reload
pub mod Pruned
pub mod Loaded
use Prim.Native.Nat.{compare, Ordering}
use rbp.Prelude.{
  ℕ, suc, Bool, true, false, not, ◌&&◌, ◌||◌, Option, none, some, List, [], ◌∷◌, ◌++◌, String,
  Result, ok, err, ◌>>=◌, ◌==◌, nat_eq, bytes_eq, if◌then◌else◌, ltb, leb, length, retain, ◌-◌, ◌^◌,
  max,
}
use rbp.Prelude.Words.{u32_max}
use rbp.Core.Namespace.{Namespace, B256}
use rbp.Core.PeerRecord.{PeerCandidate, DialContext, local_cache}
use rbp.Core.Validation.{
  Announcement, AnnouncementPolicy, CodecRegistry, AnnouncementError, validate_announcement,
  default_max_record_bytes, default_max_endpoints_per_record,
}
use rbp.Core.Candidates.{
  CandidateStore, CandidateStoreConfig, new, insert_all, ranked, unwrap_or_default,
}

pub data ℤ : Type 0 where
  pos negsuc : ℕ → ℤ

abbrev pub compare_ints : ℤ → ℤ → Ordering
compare_ints (pos m) (pos n) = compare m n
compare_ints (pos m) (negsuc n) = Ordering.gt
compare_ints (negsuc m) (pos n) = Ordering.lt
compare_ints (negsuc m) (negsuc n) = compare n m

abbrev pub is_gt : Ordering → Bool
is_gt Ordering.gt = true
is_gt Ordering.eq = false
is_gt Ordering.lt = false

abbrev pub is_ge : Ordering → Bool
is_ge Ordering.gt = true
is_ge Ordering.eq = true
is_ge Ordering.lt = false

abbrev pub is_eq : Ordering → Bool
is_eq Ordering.gt = false
is_eq Ordering.eq = true
is_eq Ordering.lt = false

pub data CacheError : Type 0 where
  sqlite : String → CacheError
  clock : CacheError
  numeric_overflow invalid_row : String → CacheError

abbrev pub i64_max : ℕ
i64_max = 2 ^ 63 - 1

-- `i64::try_from` of a u64
abbrev pub to_i64 : ℕ → String → Result ℤ CacheError
to_i64 value field = if leb value i64_max then ok (pos value) else err (numeric_overflow field)

-- `u64::try_from` of an i64
abbrev pub to_u64 : ℤ → String → Result ℕ CacheError
to_u64 (pos value) field = ok value
to_u64 (negsuc _) field = err (invalid_row field)

abbrev pub to_u32 : ℤ → String → Result ℕ CacheError
to_u32 (pos value) field = if leb value u32_max then ok value else err (invalid_row field)
to_u32 (negsuc _) field = err (invalid_row field)

abbrev pub optional_i64 : Option ℕ → String → Result (Option ℤ) CacheError
optional_i64 none field = ok none
optional_i64 (some value) field = do number ← to_i64 value field; ok (some number)

abbrev pub optional_u64 : Option ℤ → String → Result (Option ℕ) CacheError
optional_u64 none field = ok none
optional_u64 (some value) field = do number ← to_u64 value field; ok (some number)

-- a row of `verified_peers`
pub record Row : Type 0 where
  pub namespace : Namespace
  pub record_type : ℤ
  pub peer_id : List ℕ
  pub sequence : ℤ
  pub raw_signed_record : List ℕ
  pub expires_at : ℤ
  pub announcement_block : Option ℤ
  pub announcement_log_index : Option ℤ

-- the numbers of a candidate, converted in the order of the loop's body
unfoldable pub row_of : Namespace → PeerCandidate → Result Row CacheError
row_of namespace candidate =
    let sequence_text : String = "sequence" in
    let expires_text : String = "expires_at" in
    let block_text : String = "announcement_block" in
    let log_text : String = "announcement_log_index" in
    (do
      sequence ← to_i64 candidate.sequence sequence_text
      expires_at ← to_i64 candidate.expires_at expires_text
      block ← optional_i64 candidate.announcement_block block_text
      log_index ← optional_i64 candidate.announcement_log_index log_text
      ok (record {
        namespace = namespace;
        record_type = pos candidate.record_type;
        peer_id = candidate.peer_id;
        sequence = sequence;
        raw_signed_record = candidate.raw_signed_record;
        expires_at = expires_at;
        announcement_block = block;
        announcement_log_index = log_index;
      }))

pub record CachedRow : Type 0 where
  pub record_type : ℕ
  pub raw_signed_record : List ℕ
  pub expires_at : ℕ
  pub block_number : Option ℕ
  pub log_index : Option ℕ

unfoldable pub cached_row : Row → Result CachedRow CacheError
cached_row row =
    let type_text : String = "record_type" in
    let expires_text : String = "expires_at" in
    let block_text : String = "announcement_block" in
    let log_text : String = "announcement_log_index" in
    (do
      record_type ← to_u32 row.record_type type_text
      expires_at ← to_u64 row.expires_at expires_text
      block_number ← optional_u64 row.announcement_block block_text
      log_index ← optional_u64 row.announcement_log_index log_text
      ok (record {
        record_type = record_type;
        raw_signed_record = row.raw_signed_record;
        expires_at = expires_at;
        block_number = block_number;
        log_index = log_index;
      }))
