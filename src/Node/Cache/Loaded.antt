-- ===== src/Node/Cache/Loaded.antt =====
-- crates/resurrect-node/src/cache.rs: what `load` returns.
use rbp.Prelude.{
  ℕ, true, ◌≡◌, refl, inl, inr, List, [], ◌∷◌, ok, nat_eq, nat_beq_iff, bytes_eq, arith, ◌==◌,
  Bool-cases, Result-cases, All, Among, ◌<◌, ◌≤◌, ◌≢◌, ap, some, length, contains,
}
use rbp.Prelude.HashMap
use rbp.Core.Namespace.{Namespace, B256}
use rbp.Core.PeerRecord.{PeerCandidate, PeerRecordCodec, local_cache}
use rbp.Core.Validation.{validate_announcement}
use rbp.Core.Validation.Acceptance.{validate_announcement-Accepts}
use rbp.Core.Candidates.{CandidateStoreConfig, new, insert_all, ranked, unwrap_or_default}
use rbp.Node.Cache.{Row, CachedRow, cached_row}
use rbp.Node.Cache.Load.{SqlitePeerCache, announcement_of, policy_of, revalidated, load}
use rbp.Node.Cache.Table.{cached_rows, insert_row, comes_first, select, load_rows}
use rbp.Core.Candidates.Members.{ranked-candidates}

-- one of the table's rows in the namespace, as it is read
abbrev pub IsSelected : Namespace → List Row → CachedRow → Type 0
IsSelected namespace table row =
    (r : Row) × Among r table × (r.namespace ≡ namespace) × (cached_row r ≡ ok row)

-- the row passes every check at the time `now`, and `c` is what its codec decoded, with the row's
-- expiry, block and log index
pub record Vouches (cache : SqlitePeerCache) (now : ℕ) (row : CachedRow) (codec : PeerRecordCodec)
    (decoded c : PeerCandidate) : Type 0 where
  pub accepted : contains cache.accepted_record_types row.record_type ≡ true
  pub live : now < row.expires_at
  pub present : row.raw_signed_record ≢ []
  pub bounded : length row.raw_signed_record ≤ 4096
  pub registered : HashMap.get row.record_type cache.codecs.codecs ≡ some codec
  pub decodes : codec.decode_and_verify row.raw_signed_record cache.dial_context ≡ ok decoded
  pub same_type : decoded.record_type ≡ row.record_type
  pub few_endpoints : length decoded.endpoints ≤ 16
  pub candidate : c ≡ record decoded {
    expires_at = row.expires_at;
    source = local_cache;
    announcement_block = some (unwrap_or_default row.block_number);
    announcement_log_index = some (unwrap_or_default row.log_index);
  }

-- a row of the namespace in the table vouches for the candidate
abbrev pub IsRevalidated : SqlitePeerCache → Namespace → ℕ → List Row → PeerCandidate → Type 0
IsRevalidated cache namespace now table c =
    (row : CachedRow) × (codec : PeerRecordCodec) × (decoded : PeerCandidate) × IsSelected namespace
      table row
    × Vouches cache now row codec decoded c

valid-Vouches :
    (cache : SqlitePeerCache) (namespace : Namespace) (now : ℕ) (row : CachedRow)
    (valid : PeerCandidate)
    → validate_announcement cache.codecs
        (announcement_of namespace row)
        (policy_of cache namespace now)
      ≡ ok valid
    → (codec : PeerRecordCodec) × (decoded : PeerCandidate) × Vouches cache now row codec decoded
        (record valid { source = local_cache })
valid-Vouches cache namespace now row valid h =
    let (codec, decoded, ok_all) =
      (validate_announcement-Accepts cache.codecs (announcement_of namespace row)
          (policy_of cache namespace now) valid).0
        h in
    (
      codec,
      decoded,
      record {
        accepted = ok_all.envelope.accepted;
        live = ok_all.envelope.live;
        present = ok_all.envelope.present;
        bounded = ok_all.envelope.bounded;
        registered = ok_all.registered;
        decodes = ok_all.decodes;
        same_type = ok_all.same_type;
        few_endpoints = ok_all.few_endpoints;
        candidate = ap (λ (c : PeerCandidate). record c { source = local_cache }) ok_all.completed;
      },
    )

InNamespace : Namespace → List Row → Row → Type 0
InNamespace namespace table r = Among r table × (r.namespace ≡ namespace)

insert_row-All :
    (P : Row → Type 0) (r : Row) (rows : List Row) → P r → All P rows → All P (insert_row r rows)
unfolding insert_row
insert_row-All P r [] p h = (p, tt)
insert_row-All P r (s ∷ rows) p h = elim (Bool-cases (comes_first r s)) [
  | inl before ↦ rw before (p, h)
  | inr after ↦ rw after (h.0, insert_row-All P r rows p h.1)
]

select-All :
    (P : Row → Type 0) (namespace : Namespace) (table : List Row)
    → ((r : Row) → Among r table → r.namespace ≡ namespace → P r)
    → All P (select namespace table)
unfolding select
select-All P namespace [] p = tt
select-All P namespace (r ∷ rows) p =
    let rest = select-All P namespace rows (λ s among. p s (inr among)) in
    elim (Bool-cases (r.namespace == namespace)) [
      | inr other ↦ rw other rest
      | inl same ↦ rw same (
          insert_row-All P r (select namespace rows)
            (p r (inl refl) (ground (arith, nat_beq_iff r.namespace namespace))) rest)
    ]

cached_rows-All :
    (P : CachedRow → Type 0) (rs : List Row) (rows : List CachedRow)
    → All (λ r. (row : CachedRow) → cached_row r ≡ ok row → P row) rs
    → cached_rows rs ≡ ok rows
    → All P rows
unfolding cached_rows
cached_rows-All P [] rows ps h = let same : rows ≡ [] = cc in rw same tt
cached_rows-All P (r ∷ rs) rows ps h = elim (Result-cases (cached_row r)) [
  | inr (e, failed) ↦ absurd (ground (arith, failed))
  | inl (row, read) ↦ elim (Result-cases (cached_rows rs)) [
    | inr (e, failed) ↦ absurd (ground (arith, failed, read))
    | inl (rest, others) ↦
        let same : rows ≡ row ∷ rest = ground (arith, read, others) in
        rw same (ps.0 row read, cached_rows-All P rs rest ps.1 others)
  ]
]

revalidated-All :
    (cache : SqlitePeerCache) (namespace : Namespace) (now : ℕ) (table : List Row)
    (rows : List CachedRow)
    → All (IsSelected namespace table) rows
    → All (IsRevalidated cache namespace now table) (revalidated cache namespace now rows)
unfolding revalidated
revalidated-All cache namespace now table [] hs = tt
revalidated-All cache namespace now table (row ∷ rows) hs =
    let rest = revalidated-All cache namespace now table rows hs.1 in
    elim (Result-cases (
      validate_announcement cache.codecs (announcement_of namespace row)
        (policy_of cache namespace now))) [
          | inr (e, invalid) ↦ rw (invalid, revalidated) rest
          | inl (valid, it) ↦
              let (codec, decoded, vouches) = valid-Vouches cache namespace now row valid it in
              rw (it, revalidated) ((row, codec, decoded, hs.0, vouches), rest)
        ]

load_rows-All :
    (namespace : Namespace) (table : List Row) (rows : List CachedRow)
    → load_rows (ok tt) namespace table ≡ ok rows
    → All (IsSelected namespace table) rows
unfolding load_rows
load_rows-All namespace table rows h =
    cached_rows-All (IsSelected namespace table) (select namespace table) rows
      (select-All (λ r. (row : CachedRow) → cached_row r ≡ ok row → IsSelected namespace table row)
        namespace table (λ r among same row read. (r, among, same, read)))
      h

-- Every candidate that `load` returns comes from a row of the namespace whose record type is
-- accepted, that expires later than the present time, and whose record of 1 to 4096 bytes the codec
-- registered for its type decodes again, in the cache's dial context, to a candidate of that type
-- with at most 16 endpoints. It is that candidate with the local cache as its source and the row's
-- own expiry, block and log index, which are not verified, absent ones read as 0.
pub load-IsRevalidated :
    (keccak256 : List ℕ → B256) (cache : SqlitePeerCache) (namespace : Namespace) (now : ℕ)
    (table : List Row) (cs : List PeerCandidate)
    → load keccak256 cache (ok tt) namespace (ok now) table ≡ ok cs
    → All (IsRevalidated cache namespace now table) cs
unfolding load
load-IsRevalidated keccak256 cache namespace now table cs h =
    elim (Result-cases (load_rows (ok tt) namespace table)) [
      | inr (e, failed) ↦ absurd (ground (arith, failed))
      | inl (rows, read) ↦
          let config : CandidateStoreConfig = record {
            max_candidates = cache.max_candidates;
            sampling_seed = namespace;
          } in
          let same : cs
              ≡ ranked keccak256
                  (insert_all keccak256 (new config) (revalidated cache namespace now rows)) =
            ground (arith, read) in
          rw same (
            ranked-candidates (IsRevalidated cache namespace now table) keccak256 config
              (revalidated cache namespace now rows)
              (revalidated-All cache namespace now table rows
                (load_rows-All namespace table rows read)))
    ]
