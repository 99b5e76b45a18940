-- ===== src/Core/Candidates.antt =====
-- crates/resurrect-core/src/validation.rs: `CandidateStore`. The digest function of alloy is the
-- parameter `keccak256`; the iteration order of the map is the order of its list.
pub mod Freshness
mod Maximum
pub mod Branches
pub mod Sample
pub mod History
pub mod Order
pub mod Monotone
pub mod Ranked
pub mod Members
use Prim.Native.Nat.{compare, Ordering}
use rbp.Prelude.{
  ℕ, max, Option, some, none, List, [], ◌∷◌, ◌++◌, ltb, leb, bytes_eq, if◌then◌else◌, length,
  is_empty, Bool,
}
use rbp.Prelude.HashMap
use rbp.Prelude.HashMap.{HashMap}
use rbp.Core.Namespace.{B256, as_bytes}
use rbp.Core.PeerRecord.{PeerCandidate, identity_key, composite_key}
use rbp.Core.Validation.{default_max_active_candidates}

pub record CandidateStoreConfig : Type 0 where
  pub max_candidates : ℕ
  pub sampling_seed : B256

abbrev pub default_config : CandidateStoreConfig
default_config = record { max_candidates = default_max_active_candidates; sampling_seed = 0 }

pub data CandidateInsert : Type 0 where
  inserted replaced stale sampled_out : CandidateInsert

pub record CandidateStore : Type 0 where
  pub config : CandidateStoreConfig
  pub candidates : HashMap (List ℕ) PeerCandidate

unfoldable pub new : CandidateStoreConfig → CandidateStore
new config = record {
  config = record config { max_candidates = max config.max_candidates 1 };
  candidates = [];
}

unfoldable pub len : CandidateStore → ℕ
len store = length store.candidates

unfoldable pub is_empty_store : CandidateStore → Bool
is_empty_store store = is_empty store.candidates

unfoldable pub get : CandidateStore → ℕ → List ℕ → Option PeerCandidate
unfolding composite_key
get store record_type peer_id = HashMap.get (composite_key record_type peer_id) store.candidates

abbrev pub unwrap_or_default : Option ℕ → ℕ
unwrap_or_default none = 0
unwrap_or_default (some n) = n

-- `Ordering::then_with`
abbrev pub then_with : Ordering → Ordering → Ordering
then_with Ordering.eq next = next
then_with Ordering.lt next = Ordering.lt
then_with Ordering.gt next = Ordering.gt

unfoldable pub compare_freshness : PeerCandidate → PeerCandidate → Ordering
compare_freshness left right =
    then_with
      (then_with (compare left.sequence right.sequence) (
        compare (unwrap_or_default left.announcement_block)
          (unwrap_or_default right.announcement_block)))
      (compare (unwrap_or_default left.announcement_log_index)
        (unwrap_or_default right.announcement_log_index))

module _ {ℓ} {A : Type ℓ} (key : A → ℕ) where
  -- `Iterator::max_by_key`: of equal maxima the last
  unfoldable pub max_from : A → List A → A
  max_from best [] = best
  max_from best (x ∷ xs) = max_from (if ltb (key x) (key best) then best else x) xs

  unfoldable pub max_by_key : List A → Option A
  unfolding max_from
  max_by_key [] = none
  max_by_key (x ∷ xs) = some (max_from x xs)

  -- `sort_by_key`, which is stable
  unfoldable pub insert_by_key : A → List A → List A
  insert_by_key x [] = x ∷ []
  insert_by_key x (y ∷ ys) = if leb (key x) (key y) then x ∷ y ∷ ys else y ∷ insert_by_key x ys

  unfoldable pub sort_by_key : List A → List A
  unfolding insert_by_key
  sort_by_key [] = []
  sort_by_key (x ∷ xs) = insert_by_key x (sort_by_key xs)

module _ (keccak256 : List ℕ → B256) where
  unfoldable pub score : CandidateStoreConfig → List ℕ → B256
  unfolding as_bytes
  score config identity = keccak256 (as_bytes config.sampling_seed ++ identity)

  -- the case of a full store and a new identity
  unfoldable pub insert_full :
      CandidateStore → List ℕ → PeerCandidate → CandidateStore × CandidateInsert
  insert_full store identity candidate =
      elim (max_by_key (score store.config) (HashMap.keys store.candidates)) [
        | none ↦ (
          record store { candidates = HashMap.insert identity candidate store.candidates },
          inserted,
        )
        | some worst ↦
            if ltb (score store.config identity) (score store.config worst)
            then (
              record store {
                candidates =
                    HashMap.insert identity candidate (HashMap.remove worst store.candidates);
              },
              inserted,
            )
            else (store, sampled_out)
      ]

  unfoldable pub insert : CandidateStore → PeerCandidate → CandidateStore × CandidateInsert
  unfolding insert_full
  insert store candidate =
      let identity = identity_key candidate in
      let kept = record store { candidates = HashMap.insert identity candidate store.candidates } in
      elim (HashMap.get identity store.candidates) [
        | some existing ↦ elim (compare_freshness candidate existing) [
          | Ordering.gt ↦ (kept, replaced)
          | _ ↦ (store, stale)
        ]
        | none ↦
            if ltb (length store.candidates) store.config.max_candidates
            then (kept, inserted)
            else insert_full store identity candidate
      ]

  -- what a scan does with the candidates that it accepts, in their order
  unfoldable pub insert_all : CandidateStore → List PeerCandidate → CandidateStore
  unfolding insert
  insert_all store [] = store
  insert_all store (c ∷ cs) = insert_all (insert store c).0 cs

  unfoldable pub ranked : CandidateStore → List PeerCandidate
  unfolding sort_by_key
  ranked store = HashMap.values (sort_by_key (λ e. score store.config e.0) store.candidates)
