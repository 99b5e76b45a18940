-- ===== src/Core/Descriptor/Numbers.antt =====
-- crates/resurrect-core/src/descriptor.rs: the modules chain_id_serde and deployment_block_serde. A
-- text is the list of its bytes. serde calls the visitor's method for the JSON value that it finds;
-- the methods that a visitor leaves out refuse the value. The integers of 256 bits are alloy's.
use rbp.Prelude.{
  ℕ, ◌-◌, ◌^◌, String, Bool, true, false, not, ◌&&◌, ◌||◌, List, [], ◌∷◌, Result, ok, err, ltb, leb,
  nat_beq, if◌then◌else◌, length, is_empty, map_err, ok_or,
}
use rbp.Prelude.Words.{u64_max}
use rbp.Prelude.Decimal.{is_ascii_digit, to_string, parse}

abbrev pub max_safe_json_integer : ℕ
max_safe_json_integer = 9_007_199_254_740_991

abbrev pub u256_max : ℕ
u256_max = 2 ^ 256 - 1

-- the JSON values that reach a visitor
pub data JsonValue : Type 0 where
  u64_value : ℕ → JsonValue
  str_value : List ℕ → JsonValue
  other_value : JsonValue

pub data SerdeError : Type 0 where
  custom : String → SerdeError
  invalid_type : SerdeError

-- `bytes().all`
unfoldable pub all_digits : List ℕ → Bool
all_digits [] = true
all_digits (byte ∷ bytes) = is_ascii_digit byte && all_digits bytes

abbrev pub starts_with_zero : List ℕ → Bool
starts_with_zero [] = false
starts_with_zero (byte ∷ bytes) = nat_beq byte b'0'

-- the test of both `visit_str`
unfoldable pub is_not_canonical : List ℕ → Bool
unfolding all_digits
is_not_canonical value =
    is_empty value || ((ltb 1 (length value) && starts_with_zero value) || not (all_digits value))

-- alloy's `U256`: `to_string` and `parse`
pub record Uint256 : Type 0 where
  pub print : ℕ → List ℕ
  pub read : List ℕ → Result ℕ String

-- chain_id_serde
module _ (uint : Uint256) where
  unfoldable pub serialize_chain_id : ℕ → JsonValue
  serialize_chain_id chain_id =
      if leb chain_id u64_max && leb chain_id max_safe_json_integer
      then u64_value chain_id
      else str_value (uint.print chain_id)

  unfoldable pub visit_chain_id : List ℕ → Result ℕ SerdeError
  unfolding is_not_canonical
  visit_chain_id value =
      if is_not_canonical value
      then err (custom "chainId must be a canonical unsigned decimal integer")
      else map_err custom (uint.read value)

  unfoldable pub deserialize_chain_id : JsonValue → Result ℕ SerdeError
  unfolding visit_chain_id
  deserialize_chain_id (u64_value value) = ok value
  deserialize_chain_id (str_value value) = visit_chain_id value
  deserialize_chain_id other_value = err invalid_type

-- deployment_block_serde
unfoldable pub serialize_deployment_block : ℕ → JsonValue
serialize_deployment_block value =
    if leb value max_safe_json_integer then u64_value value else str_value (to_string value)

unfoldable pub visit_deployment_block : List ℕ → Result ℕ SerdeError
unfolding is_not_canonical
visit_deployment_block value =
    if is_not_canonical value
    then err (custom "deploymentBlock must be a canonical unsigned decimal integer")
    else map_err custom (ok_or "number too large to fit in target type" (parse u64_max value))

unfoldable pub deserialize_deployment_block : JsonValue → Result ℕ SerdeError
unfolding visit_deployment_block
deserialize_deployment_block (u64_value value) = ok value
deserialize_deployment_block (str_value value) = visit_deployment_block value
deserialize_deployment_block other_value = err invalid_type
