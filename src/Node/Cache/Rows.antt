-- ===== src/Node/Cache/Rows.antt =====
-- crates/resurrect-node/src/cache.rs: a candidate as a row, and back.
use rbp.Prelude.{
  ℕ, ◌≤◌, ◌≡◌, ◌⊎◌, refl, inl, inr, true, Option, none, some, ok, err, nat_eq, arith, leb,
  Bool-cases, String, leb→le,
}
use rbp.Prelude.Words.{u32_max}
use rbp.Core.Namespace.{Namespace}
use rbp.Core.PeerRecord.{PeerCandidate}
use rbp.Node.Cache.{
  ℤ, pos, CacheError, numeric_overflow, i64_max, to_i64, optional_i64, optional_u64, Row, row_of,
  cached_row,
}

-- each number of the candidate is at most 2^63 - 1
abbrev pub FitsOption : Option ℕ → Type 0
FitsOption none = Unit
FitsOption (some n) = n ≤ i64_max

abbrev pub Fits : PeerCandidate → Type 0
Fits c =
    (c.sequence ≤ i64_max)
    × (c.expires_at ≤ i64_max)
    × FitsOption c.announcement_block
    × FitsOption c.announcement_log_index

abbrev pub optional_pos : Option ℕ → Option ℤ
optional_pos none = none
optional_pos (some n) = some (pos n)

to_i64-cases :
    (n : ℕ) (field : String)
    → ((n ≤ i64_max) × (to_i64 n field ≡ ok (pos n)))
      ⊎ ((¬ (n ≤ i64_max)) × (to_i64 n field ≡ err (numeric_overflow field)))
to_i64-cases n field = elim (Bool-cases (leb n i64_max)) [
  | inl fits ↦ inl (leb→le n i64_max fits, rw fits refl)
  | inr over ↦ inr (ground arith, rw over refl)
]

optional_i64-cases :
    (o : Option ℕ) (field : String)
    → (FitsOption o × (optional_i64 o field ≡ ok (optional_pos o)))
      ⊎ ((¬ FitsOption o) × (optional_i64 o field ≡ err (numeric_overflow field)))
optional_i64-cases none field = inl (tt, refl)
optional_i64-cases (some n) field = elim (to_i64-cases n field) [
  | inl (fits, converted) ↦ inl (fits, rw converted refl)
  | inr (over, failed) ↦ inr (over, rw failed refl)
]

-- the row of a candidate whose numbers fit
abbrev pub plain_row : Namespace → PeerCandidate → Row
plain_row namespace c = record {
  namespace = namespace;
  record_type = pos c.record_type;
  peer_id = c.peer_id;
  sequence = pos c.sequence;
  raw_signed_record = c.raw_signed_record;
  expires_at = pos c.expires_at;
  announcement_block = optional_pos c.announcement_block;
  announcement_log_index = optional_pos c.announcement_log_index;
}

abbrev pub Converted : Namespace → PeerCandidate → Type 0
Converted namespace c =
    (Fits c × (row_of namespace c ≡ ok (plain_row namespace c)))
    ⊎ ((¬ Fits c) × (e : CacheError) × (row_of namespace c ≡ err e))

pub row_of-cases : (namespace : Namespace) (c : PeerCandidate) → Converted namespace c
unfolding row_of
row_of-cases namespace c = elim (to_i64-cases c.sequence "sequence") [
  | inr (over, failed) ↦ inr (λ f. over f.0, numeric_overflow "sequence", rw failed refl)
  | inl (one, first) ↦ elim (to_i64-cases c.expires_at "expires_at") [
    | inr (over, failed) ↦
        inr (λ f. over f.1, numeric_overflow "expires_at", rw (first, failed) refl)
    | inl (two, second) ↦ elim (optional_i64-cases c.announcement_block "announcement_block") [
      | inr (over, failed) ↦
          inr
            (λ f. over f.2, numeric_overflow "announcement_block", rw (first, second, failed) refl)
      | inl (three, third) ↦
          elim (optional_i64-cases c.announcement_log_index "announcement_log_index") [
            | inr (over, failed) ↦ inr (
              λ f. over f.3,
              numeric_overflow "announcement_log_index",
              rw (first, second, third, failed) refl,
            )
            | inl (four, fourth) ↦
                inl ((one, two, three, four), rw (first, second, third, fourth) refl)
          ]
    ]
  ]
]

optional_u64-pos : (o : Option ℕ) (field : String) → optional_u64 (optional_pos o) field ≡ ok o
optional_u64-pos none field = refl
optional_u64-pos (some n) field = refl

-- the row of a candidate with a u32 record type, as it is read
pub cached_row-plain_row :
    (namespace : Namespace) (c : PeerCandidate)
    → c.record_type ≤ u32_max
    → cached_row (plain_row namespace c)
      ≡ ok (record {
        record_type = c.record_type;
        raw_signed_record = c.raw_signed_record;
        expires_at = c.expires_at;
        block_number = c.announcement_block;
        log_index = c.announcement_log_index;
      })
unfolding cached_row
cached_row-plain_row namespace c u32 =
    let in_range : leb c.record_type u32_max ≡ true = ground arith in
    rw
      (
        in_range,
        optional_u64-pos c.announcement_block "announcement_block",
        optional_u64-pos c.announcement_log_index "announcement_log_index",
      )
      refl
