-- ===== src/Core/Namespace.antt =====
-- crates/resurrect-core/src/namespace.rs. A `B256` is the number that its 32 bytes spell, the most
-- significant byte first, so that its derived order is the order of the numbers.
use rbp.Prelude.{ℕ, String, Option, Result, ok_or, map_err, ◌>>=◌, List, [], ◌∷◌, ◌++◌, to_be_bytes}

abbrev pub B256 : Type 0
B256 = ℕ

abbrev pub Namespace : Type 0
Namespace = B256

-- `as_bytes`, also `B256::as_slice`
unfoldable pub as_bytes : B256 → List ℕ
unfolding to_be_bytes
as_bytes value = to_be_bytes 32 value

-- `Namespace::derive`: `keccak256` is alloy's, `decimal` prints a u64; the
-- literal bytes of the format string are spelled out
module _ (keccak256 : List ℕ → B256) (decimal : ℕ → List ℕ) where
  unfoldable pub derive : List ℕ → ℕ → Namespace
  derive application_identifier major_protocol_version =
      keccak256 (resurrect ++ (application_identifier ++ (colon ++ decimal major_protocol_version)))
    where
      resurrect : List ℕ
      resurrect = 114 ∷ 101 ∷ 115 ∷ 117 ∷ 114 ∷ 114 ∷ 101 ∷ 99 ∷ 116 ∷ 58 ∷ []

      colon : List ℕ
      colon = 58 ∷ []

-- The texts of a namespace: alloy prints and reads a `B256` in hex.
pub record HexText : Type 0 where
  pub print_hex : B256 → String
  pub b256_from_str : String → Option B256

pub data NamespaceError : Type 0 where
  invalid_hex : NamespaceError

abbrev pub error_text : NamespaceError → String
error_text invalid_hex = "namespace must be a 0x-prefixed 32-byte hex value"

module _ (hex : HexText) where
  -- `Display`, and the text that is serialized
  abbrev pub to_text : Namespace → String
  to_text namespace = hex.print_hex namespace

  unfoldable pub from_str : String → Result Namespace NamespaceError
  from_str value = ok_or invalid_hex (hex.b256_from_str value)

  -- `deserialize` of a value that is a text, or is not
  unfoldable pub deserialize : Result String String → Result Namespace String
  unfolding from_str
  deserialize read = do value ← read; map_err error_text (from_str value)
