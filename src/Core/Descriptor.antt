-- ===== src/Core/Descriptor.antt =====
-- crates/resurrect-core/src/descriptor.rs, without its JSON syntax: parsing and printing are
-- serde_json's and stand as parameters.
pub mod Validity
pub mod Numbers
pub mod Printed
use rbp.Prelude.{
  ℕ, ◌*◌, String, Bool, true, false, not, List, [], ◌∷◌, Result, ok, err, ◌>>=◌, ◌>>◌, ltb, nat_beq,
  ◌==◌, nat_eq, if◌then◌else◌, contains, is_empty, map_err,
}
use rbp.Core.Namespace.{Namespace}

abbrev pub resurrect_version : ℕ
resurrect_version = 1

abbrev pub max_ttl_seconds : ℕ
max_ttl_seconds = 90 * 24 * 60 * 60

pub record RegistryDescriptor : Type 0 where
  pub chain_id : ℕ
  pub address : ℕ
  pub deployment_block : ℕ
  pub max_ttl : ℕ

pub record NetworkDescriptor : Type 0 where
  pub version : ℕ
  pub registry : RegistryDescriptor
  pub namespace : Namespace
  pub accepted_record_types : List ℕ

pub data DescriptorError : Type 0 where
  json : String → DescriptorError
  unsupported_version : ℕ → DescriptorError
  unexpected_max_ttl : ℕ → ℕ → DescriptorError
  no_accepted_record_types : DescriptorError
  duplicate_record_type : ℕ → DescriptorError
  wrong_chain : ℕ → ℕ → DescriptorError

unfoldable pub ethereum_mainnet_registry : RegistryDescriptor
ethereum_mainnet_registry = record {
  chain_id = 1;
  address = 0x136c191B5e6541532E42Ecd7C719C29D7ecdf468;
  deployment_block = 25_943_058;
  max_ttl = max_ttl_seconds;
}

-- the loop over `accepted_record_types`; `unique` holds what has been inserted
unfoldable pub check_unique : List ℕ → List ℕ → Result (Unit {0}) DescriptorError
check_unique unique [] = ok tt
check_unique unique (record_type ∷ rest) =
    let next = check_unique (record_type ∷ unique) rest in
    if contains unique record_type then err (duplicate_record_type record_type) else next

unfoldable pub validate : NetworkDescriptor → Result (Unit {0}) DescriptorError
validate d =
    if not (d.version == resurrect_version)
    then err (unsupported_version d.version)
    else if not (d.registry.max_ttl == max_ttl_seconds)
    then err (unexpected_max_ttl max_ttl_seconds d.registry.max_ttl)
    else if is_empty d.accepted_record_types
    then err no_accepted_record_types
    else check_unique [] d.accepted_record_types

unfoldable pub ethereum_mainnet : Namespace → List ℕ → Result NetworkDescriptor DescriptorError
unfolding ethereum_mainnet_registry
ethereum_mainnet namespace accepted_record_types = do
  let descriptor : NetworkDescriptor = record {
    version = resurrect_version;
    registry = ethereum_mainnet_registry;
    namespace = namespace;
    accepted_record_types = accepted_record_types;
  }
  validate descriptor
  ok descriptor

-- `sort_unstable` on numbers, whose order determines the result
unfoldable pub insert_sorted : ℕ → List ℕ → List ℕ
insert_sorted x [] = x ∷ []
insert_sorted x (y ∷ ys) = if ltb y x then y ∷ insert_sorted x ys else x ∷ y ∷ ys

unfoldable pub sort_unstable : List ℕ → List ℕ
unfolding insert_sorted
sort_unstable [] = []
sort_unstable (x ∷ xs) = insert_sorted x (sort_unstable xs)

-- `from_str` is `serde_json::from_str`
unfoldable pub from_json :
    (String → Result NetworkDescriptor String) → String → Result NetworkDescriptor DescriptorError
from_json from_str text = do
  descriptor ← map_err json (from_str text)
  validate descriptor
  ok descriptor

-- `to_string` is `serde_json::to_string`
unfoldable pub canonical_json :
    (NetworkDescriptor → Result String String) → NetworkDescriptor → Result String DescriptorError
unfolding sort_unstable
canonical_json to_string d = do
  validate d
  map_err json
      (to_string (record d { accepted_record_types = sort_unstable d.accepted_record_types }))

unfoldable pub verify_chain_id : NetworkDescriptor → ℕ → Result (Unit {0}) DescriptorError
verify_chain_id d actual =
    if not (actual == d.registry.chain_id)
    then err (wrong_chain d.registry.chain_id actual)
    else ok tt
