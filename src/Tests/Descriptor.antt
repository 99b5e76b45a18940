-- ===== src/Tests/Descriptor.antt =====
-- The theorems about the numbers of crates/resurrect-core/src/descriptor.rs at concrete inputs.
use rbp.Prelude.{
  ℕ, ◌≤◌, ◌≡◌, ◌≢◌, ◌+◌, ◌^◌, refl, List, [], ok, err, arith, All, Option-cases, inl, inr, ok_or,
}
use rbp.Prelude.Texts.{codes}
use rbp.Prelude.Decimal.{to_string, parse, parse_iff, IsDigit, value}
use rbp.Core.Descriptor.{RegistryDescriptor}
use rbp.Core.Descriptor.Numbers.{
  u256_max, is_not_canonical, all_digits, Uint256, SerdeError, serialize_chain_id,
  deserialize_chain_id, serialize_deployment_block, visit_deployment_block,
  deserialize_deployment_block,
}
use rbp.Core.Descriptor.Printed.{UintLaws, IsSafe, deserialize-serialize}

abbrev uint : Uint256
uint = record { print = to_string; read = λ s. ok_or "overflow" (parse u256_max s) }

reads : (s : List ℕ) → s ≢ [] → All IsDigit s → value 0 s ≤ u256_max → uint.read s ≡ ok (value 0 s)
reads s present digits fits =
    rw ((parse_iff u256_max s (value 0 s)).1 (present, digits, refl, fits)) refl

uint_laws : UintLaws uint
uint_laws = record {
  prints = λ v h. refl;
  reads = reads;
  refuses = λ s present digits over. elim (Option-cases (parse u256_max s)) [
    | inl refused ↦ ("overflow", rw refused refl)
    | inr (v, read) ↦ absurd (let f = (parse_iff u256_max s v).0 read in ground arith)
  ];
}

abbrev registry : RegistryDescriptor
registry = record {
  chain_id = 2 ^ 200 + 7;
  address = 5;
  deployment_block = 25_943_058;
  max_ttl = 7_776_000;
}

deserialize-serialize_example :
    (deserialize_chain_id uint (serialize_chain_id uint registry.chain_id) ≡ ok registry.chain_id)
    × (deserialize_deployment_block (serialize_deployment_block registry.deployment_block)
        ≡ ok registry.deployment_block)
    × IsSafe (serialize_chain_id uint registry.chain_id)
    × IsSafe (serialize_deployment_block registry.deployment_block)
deserialize-serialize_example =
    deserialize-serialize uint uint_laws registry (omega arith) (omega arith)

too_large :
    visit_deployment_block (codes "18446744073709551616")
    ≡ err (SerdeError.custom "number too large to fit in target type")
unfolding visit_deployment_block is_not_canonical all_digits parse
too_large = refl

zeros_in_front :
    visit_deployment_block (codes "007")
    ≡ err (SerdeError.custom "deploymentBlock must be a canonical unsigned decimal integer")
unfolding visit_deployment_block is_not_canonical all_digits
zeros_in_front = refl
