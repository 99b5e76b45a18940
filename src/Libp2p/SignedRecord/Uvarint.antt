-- ===== src/Libp2p/SignedRecord/Uvarint.antt =====
-- crates/resurrect-libp2p/src/signed_peer_record.rs: `append_uvarint` against a reader of such numbers.
use rbp.Prelude.{
  ℕ, zero, suc, ◌+◌, ◌-◌, ◌*◌, ◌/◌, ◌≤◌, ◌≡◌, Option, none, some, List, [], ◌∷◌, ◌++◌, ltb,
  if◌then◌else◌, arith,
}
use rbp.Libp2p.SignedRecord.{uvarint_loop, append_uvarint}

-- the number that a list starts with, and what follows it
unfoldable pub read_uvarint : List ℕ → Option (ℕ × List ℕ)
read_uvarint [] = none
read_uvarint (b ∷ bs) = elim (read_uvarint bs) [
  | none ↦ if ltb b 128 then some (b, bs) else none
  | some (v, rest) ↦ if ltb b 128 then some (b, bs) else some (b - 128 + 128 * v, rest)
]

read-loop :
    (fuel value : ℕ) (rest : List ℕ)
    → value ≤ fuel
    → read_uvarint (uvarint_loop fuel value ++ rest) ≡ some (value, rest)
unfolding read_uvarint uvarint_loop
read-loop zero value rest h = ground arith
read-loop (suc fuel) value rest h = ground (arith, read-loop fuel (value / 128) rest)

-- Every number is read back from the bytes that `append_uvarint` appends, whatever follows them.
pub read_uvarint-append_uvarint :
    (value : ℕ) (rest : List ℕ)
    → read_uvarint (append_uvarint [] value ++ rest) ≡ some (value, rest)
unfolding append_uvarint
read_uvarint-append_uvarint value rest = read-loop value value rest (omega arith)
