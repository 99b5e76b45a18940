-- ===== src/Core/Descriptor/Printed.antt =====
-- crates/resurrect-core/src/descriptor.rs: the numbers of a descriptor in JSON and back.
use native.Mathlib.Decide.{ℕ_discrete, dec_le}
use rbp.Prelude.{
  ℕ, ◌≤◌, ◌<◌, ◌≡◌, ◌≢◌, ◌↔◌, refl, ap, sym, inl, inr, String, Bool, true, false, ◌&&◌, some, List,
  [], ◌∷◌, ok, err, leb, if◌then◌else◌, arith, All, ◌∙◌, Bool-cases, Option-cases,
}
use rbp.Prelude.Words.{u64_max}
use rbp.Prelude.Decimal.{
  to_string, parse, parse_iff, IsDigit, value, IsCanonical, to_string-IsCanonical, value-to_string,
  to_string-value,
}
use rbp.Core.Descriptor.{RegistryDescriptor}
use rbp.Core.Descriptor.Numbers.{
  max_safe_json_integer, u256_max, JsonValue, u64_value, str_value, other_value, all_digits,
  is_not_canonical, Uint256, serialize_chain_id, visit_chain_id, deserialize_chain_id,
  serialize_deployment_block, visit_deployment_block, deserialize_deployment_block,
}

all_digits_iff : (s : List ℕ) → (all_digits s ≡ true) ↔ All IsDigit s
unfolding all_digits
all_digits_iff [] = ((λ h. tt), λ h. refl)
all_digits_iff (c ∷ s) =
    ((λ h. ground (arith, all_digits_iff s)), λ h. ground (arith, all_digits_iff s))

is_not_canonical-IsCanonical :
    (s : List ℕ) → is_not_canonical s ≡ false → IsCanonical s × All IsDigit s
unfolding is_not_canonical all_digits
is_not_canonical-IsCanonical [] h = absurd (ground arith)
is_not_canonical-IsCanonical (c ∷ []) h =
    let digit : IsDigit c = ground arith in
    elim (ℕ_discrete c b'0') [
      | yes zero_digit ↦ (inl (ap (λ x. x ∷ []) zero_digit), (digit, tt))
      | no other ↦ (inr (c, [], refl, omega (arith, digit)), (digit, tt))
    ]
is_not_canonical-IsCanonical (c ∷ d ∷ s) h =
    let digits : All IsDigit (c ∷ d ∷ s) = ground (arith, all_digits_iff s) in
    (inr (c, d ∷ s, refl, ground arith), digits)

IsCanonical-is_not_canonical :
    (s : List ℕ) → IsCanonical s → All IsDigit s → is_not_canonical s ≡ false
unfolding is_not_canonical all_digits
IsCanonical-is_not_canonical [] (inl e) h = cc
IsCanonical-is_not_canonical [] (inr (c, rest, e, first)) h = cc
IsCanonical-is_not_canonical (c ∷ []) r h = ground arith
IsCanonical-is_not_canonical (c ∷ d ∷ s) (inl e) h = absurd (ground arith)
IsCanonical-is_not_canonical (c ∷ d ∷ s) (inr (c', rest, e, first)) h =
    ground (arith, all_digits_iff s)

-- the texts that pass the test are the printed numbers
canonical_text : (s : List ℕ) → is_not_canonical s ≡ false → s ≡ to_string (value 0 s)
canonical_text s h =
    let (canonical, digits) = is_not_canonical-IsCanonical s h in
    sym (to_string-value s canonical digits)

is_not_canonical-to_string : (v : ℕ) → is_not_canonical (to_string v) ≡ false
is_not_canonical-to_string v =
    IsCanonical-is_not_canonical (to_string v) (to_string-IsCanonical v) (value-to_string v).1

IsCanonical-ne-nil : (s : List ℕ) → IsCanonical s → s ≢ []
IsCanonical-ne-nil s (inl e) h = cc
IsCanonical-ne-nil s (inr (c, rest, e, first)) h = cc

parse-to_string : (bound v : ℕ) → v ≤ bound → parse bound (to_string v) ≡ some v
parse-to_string bound v h =
    let (same, digits) = value-to_string v in
    (parse_iff bound (to_string v) v).1
      (IsCanonical-ne-nil _ (to_string-IsCanonical v), digits, sym same, h)

visited_block :
    (s : List ℕ) (v : ℕ)
    → visit_deployment_block s ≡ ok v
    → (is_not_canonical s ≡ false) × (parse u64_max s ≡ some v)
unfolding visit_deployment_block
visited_block s v h = elim (Option-cases (parse u64_max s)) [
  | inl refused ↦ absurd (ground arith)
  | inr (n, read) ↦ (ground arith, ground arith)
]

-- The visitor for the deployment block accepts exactly the decimal print of a number that fits 64
-- bits, without zeros in front, and gives that number: each number has one text.
pub visit_deployment_block_iff :
    (s : List ℕ) (v : ℕ) → (visit_deployment_block s ≡ ok v) ↔ ((v ≤ u64_max) × (s ≡ to_string v))
unfolding visit_deployment_block
visit_deployment_block_iff s v = (
  λ h.
      let (canonical, read) = visited_block s v h in
      let (_, digits, exact, fits) = (parse_iff u64_max s v).0 read in
      (fits, canonical_text s canonical ∙ ap to_string (sym exact)),
  λ h.
      let (fits, printed) = h in
      rw (printed, is_not_canonical-to_string v, parse-to_string u64_max v fits) refl,
)

deserialize-serialize_deployment_block :
    (v : ℕ) → v ≤ u64_max → deserialize_deployment_block (serialize_deployment_block v) ≡ ok v
unfolding serialize_deployment_block deserialize_deployment_block
deserialize-serialize_deployment_block v h = elim (Bool-cases (leb v max_safe_json_integer)) [
  | inl safe ↦ rw safe refl
  | inr large ↦ rw large ((visit_deployment_block_iff (to_string v) v).1 (h, refl))
]

-- what alloy's integers do with digits
pub record UintLaws (uint : Uint256) : Type 0 where
  pub prints : (v : ℕ) → v ≤ u256_max → uint.print v ≡ to_string v
  pub reads :
      (s : List ℕ) → s ≢ [] → All IsDigit s → value 0 s ≤ u256_max → uint.read s ≡ ok (value 0 s)
  pub refuses :
      (s : List ℕ)
      → s ≢ []
      → All IsDigit s
      → u256_max < value 0 s
      → (e : String) × (uint.read s ≡ err e)

-- a number of JSON is one that every reader of JSON keeps exact
abbrev pub IsSafe : JsonValue → Type 0
IsSafe (u64_value n) = n ≤ max_safe_json_integer
IsSafe (str_value s) = Unit
IsSafe other_value = ⊥

IsSafe-if :
    (b : Bool) (n : ℕ) (s : List ℕ)
    → (b ≡ true → n ≤ max_safe_json_integer)
    → IsSafe (if b then u64_value n else str_value s)
IsSafe-if true n s h = h refl
IsSafe-if false n s h = tt

module _ (uint : Uint256) (laws : UintLaws uint) where
  visited_chain_id :
      (s : List ℕ) (v : ℕ)
      → visit_chain_id uint s ≡ ok v
      → (is_not_canonical s ≡ false) × (v ≡ value 0 s) × (v ≤ u256_max)
  unfolding visit_chain_id
  visited_chain_id s v h = elim (Bool-cases (is_not_canonical s)) [
    | inl refused ↦ absurd (ground arith)
    | inr canonical ↦
        let (shape, digits) = is_not_canonical-IsCanonical s canonical in
        let present = IsCanonical-ne-nil s shape in
        elim (dec_le (value 0 s) u256_max) [
          | yes fits ↦ (
            canonical,
            ground (arith, laws.reads s present digits fits),
            ground (arith, laws.reads s present digits fits),
          )
          | no over ↦
              let (e, refused) = laws.refuses s present digits (omega arith) in
              absurd (ground arith)
        ]
  ]

  -- With integers of alloy that read digits up to 256 bits, the visitor for the chain identifier
  -- accepts exactly the decimal print of a number that fits 256 bits, without zeros in front, and
  -- gives that number: each chain identifier has one text.
  pub visit_chain_id_iff :
      (s : List ℕ) (v : ℕ) → (visit_chain_id uint s ≡ ok v) ↔ ((v ≤ u256_max) × (s ≡ to_string v))
  unfolding visit_chain_id
  visit_chain_id_iff s v = (
    λ h.
        let (canonical, exact, fits) = visited_chain_id s v h in
        (fits, canonical_text s canonical ∙ ap to_string (sym exact)),
    λ h.
        let (fits, printed) = h in
        let (same, digits) = value-to_string v in
        let read =
          laws.reads (to_string v) (IsCanonical-ne-nil _ (to_string-IsCanonical v)) digits
            (omega arith) in
        rw (printed, is_not_canonical-to_string v, read, same) refl,
  )

  deserialize-serialize_chain_id :
      (v : ℕ) → v ≤ u256_max → deserialize_chain_id uint (serialize_chain_id uint v) ≡ ok v
  unfolding serialize_chain_id deserialize_chain_id
  deserialize-serialize_chain_id v h =
      elim (Bool-cases (leb v u64_max && leb v max_safe_json_integer)) [
        | inl safe ↦ rw safe refl
        | inr large ↦ rw (large, laws.prints v h) ((visit_chain_id_iff (to_string v) v).1 (h, refl))
      ]

  -- With integers of alloy that print and read digits up to 256 bits, the chain identifier and the
  -- deployment block of every registry come back from the JSON values
  -- that they are written as, over the whole range of their types; and a value that is written as a
  -- number, not as a text, is one that every reader of JSON keeps exact.
  pub deserialize-serialize :
      (r : RegistryDescriptor)
      → r.chain_id ≤ u256_max
      → r.deployment_block ≤ u64_max
      → (deserialize_chain_id uint (serialize_chain_id uint r.chain_id) ≡ ok r.chain_id)
        × (deserialize_deployment_block (serialize_deployment_block r.deployment_block)
            ≡ ok r.deployment_block)
        × IsSafe (serialize_chain_id uint r.chain_id)
        × IsSafe (serialize_deployment_block r.deployment_block)
  unfolding serialize_chain_id serialize_deployment_block
  deserialize-serialize r c b = (
    deserialize-serialize_chain_id r.chain_id c,
    deserialize-serialize_deployment_block r.deployment_block b,
    IsSafe-if _ r.chain_id (uint.print r.chain_id) (λ h. ground arith),
    IsSafe-if _ r.deployment_block (to_string r.deployment_block) (λ h. ground arith),
  )
