-- ===== src/Prelude/HashMap.antt =====
-- `std::collections::HashMap` as an association list. The order of the list stands for the
-- iteration order, which Rust leaves open.
use Prim.Native.Nat.{◌+◌}
use mathlib.Core.Path.{◌≡◌, refl}
use mathlib.Core.Logic.{◌≢◌, ◌⊎◌, inl, inr}
use mathlib.Core.Option.{Option, none, some}
use mathlib.Core.List.{List, [], ◌∷◌}
use native.Mathlib.Omega.{arith}
use rbp.Prelude.Tests.{Eq, ◌==◌, if◌then◌else◌, Bool-cases}
use rbp.Prelude.Lists.{length}

abbrev pub HashMap {ℓ κ} : Type ℓ → Type κ → Type (ℓ ⊔ κ)
HashMap K V = List (K × V)

module _ {ℓ κ} {K : Type ℓ} {V : Type κ} where
  abbrev pub keys : HashMap K V → List K
  keys [] = []
  keys (e ∷ m) = e.0 ∷ keys m

  abbrev pub values : HashMap K V → List V
  values [] = []
  values (e ∷ m) = e.1 ∷ values m

module _ {ℓ κ} {K : Type ℓ} {V : Type κ} ⦃eq : Eq K⦄ where
  unfoldable pub get : K → HashMap K V → Option V
  get k [] = none
  get k ((j, v) ∷ m) = if j == k then some v else get k m

  unfoldable pub insert : K → V → HashMap K V → HashMap K V
  insert k v [] = (k, v) ∷ []
  insert k v ((j, w) ∷ m) = if j == k then (k, v) ∷ m else (j, w) ∷ insert k v m

  unfoldable pub remove : K → HashMap K V → HashMap K V
  remove k [] = []
  remove k ((j, w) ∷ m) = if j == k then m else (j, w) ∷ remove k m

  -- no key occurs twice
  abbrev pub IsMap : HashMap K V → Type (ℓ ⊔ κ)
  IsMap [] = Unit
  IsMap ((j, w) ∷ m) = (get j m ≡ none) × IsMap m

  pub get-insert :
      (k j : K) (v : V) (m : HashMap K V)
      → get j (insert k v m) ≡ (if k == j then some v else get j m)
  unfolding get insert
  get-insert k j v [] = refl
  get-insert k j v ((i, w) ∷ m) =
      ground (arith, eq.beq_iff i k, eq.beq_iff i j, eq.beq_iff k j, get-insert k j v m)

  pub get-remove :
      (k j : K) (m : HashMap K V)
      → IsMap m
      → get j (remove k m) ≡ (if k == j then none else get j m)
  unfolding get remove
  get-remove k j [] h = ground arith
  get-remove k j ((i, w) ∷ m) h =
      ground (arith, eq.beq_iff i k, eq.beq_iff i j, eq.beq_iff k j, get-remove k j m h.1, h.0)

  pub insert-IsMap : (k : K) (v : V) (m : HashMap K V) → IsMap m → IsMap (insert k v m)
  unfolding insert
  insert-IsMap k v [] h = (unfold get in refl, tt)
  insert-IsMap k v ((j, w) ∷ m) h =
      ground (arith, eq.beq_iff j k, eq.beq_iff k j, get-insert k j v m, insert-IsMap k v m h.1)

  pub remove-IsMap : (k : K) (m : HashMap K V) → IsMap m → IsMap (remove k m)
  unfolding remove
  remove-IsMap k [] h = tt
  remove-IsMap k ((j, w) ∷ m) h =
      ground (arith, eq.beq_iff j k, eq.beq_iff k j, get-remove k j m h.1, remove-IsMap k m h.1)

  pub length-insert_new :
      (k : K) (v : V) (m : HashMap K V) → get k m ≡ none → length (insert k v m) ≡ length m + 1
  unfolding get insert
  length-insert_new k v [] h = omega arith
  length-insert_new k v ((j, w) ∷ m) h = ground (arith, length-insert_new k v m)

  pub length-insert_old :
      (k : K) (v old : V) (m : HashMap K V) → get k m ≡ some old → length (insert k v m) ≡ length m
  unfolding get insert
  length-insert_old k v old [] h = cc
  length-insert_old k v old ((j, w) ∷ m) h = ground (arith, length-insert_old k v old m)

  pub length-remove_old :
      (k : K) (old : V) (m : HashMap K V) → get k m ≡ some old → length (remove k m) + 1 ≡ length m
  unfolding get remove
  length-remove_old k old [] h = cc
  length-remove_old k old ((j, w) ∷ m) h = ground (arith, length-remove_old k old m)

  -- where a value found after an insertion comes from
  pub get-insert-some :
      (k j : K) (v w : V) (m : HashMap K V)
      → get j (insert k v m) ≡ some w
      → ((k ≡ j) × (w ≡ v)) ⊎ ((k ≢ j) × (get j m ≡ some w))
  get-insert-some k j v w m h = elim (Bool-cases (eq.beq k j)) [
    | inl same ↦ inl (ground (arith, eq.beq_iff k j, get-insert k j v m))
    | inr other ↦ inr (ground (arith, eq.beq_iff k j, get-insert k j v m))
  ]

  pub get-insert-none :
      (k j : K) (v : V) (m : HashMap K V) → get j (insert k v m) ≡ none → (k ≢ j) × (get j m ≡ none)
  get-insert-none k j v m h = ground (arith, eq.beq_iff k j, get-insert k j v m)

  pub get-remove-some :
      (k j : K) (w : V) (m : HashMap K V)
      → IsMap m
      → get j (remove k m) ≡ some w
      → (k ≢ j) × (get j m ≡ some w)
  get-remove-some k j w m h g = ground (arith, eq.beq_iff k j, get-remove k j m h)

  pub get-remove-none :
      (k j : K) (m : HashMap K V) → IsMap m → get j (remove k m) ≡ none → (k ≡ j) ⊎ (get j m ≡ none)
  get-remove-none k j m h g = ground (arith, eq.beq_iff k j, get-remove k j m h)
