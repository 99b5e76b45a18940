-- ===== src/Prelude/HashSet.antt =====
-- `std::collections::HashSet` as a list without repetitions, whose order stands for the iteration
-- order.
use mathlib.Core.Path.{◌≡◌}
use mathlib.Core.Logic.{◌≢◌}
use mathlib.Core.Bool.{true, false}
use mathlib.Core.List.{List, [], ◌∷◌}
use native.Mathlib.Omega.{arith}
use rbp.Prelude.Tests.{Eq, ◌==◌, if◌then◌else◌}
use rbp.Prelude.Lists.{length, contains}

module _ {ℓ} {A : Type ℓ} ⦃e : Eq A⦄ where
  unfoldable pub insert : A → List A → List A
  unfolding contains
  insert a s = if contains s a then s else a ∷ s

  unfoldable pub remove : A → List A → List A
  remove a [] = []
  remove a (x ∷ s) = let rest = remove a s in if x == a then rest else x ∷ rest

  -- no entry occurs twice
  abbrev pub IsHashSet : List A → Type 0
  IsHashSet [] = Unit
  IsHashSet (x ∷ s) = (contains s x ≡ false) × IsHashSet s

  pub contains-insert :
      (a b : A) (s : List A) → contains (insert a s) b ≡ (if a == b then true else contains s b)
  unfolding insert
  contains-insert a b s = ground (arith, e.beq_iff a b)

  pub contains-remove :
      (a b : A) (s : List A) → contains (remove a s) b ≡ (if a == b then false else contains s b)
  unfolding remove contains
  contains-remove a b [] = ground arith
  contains-remove a b (x ∷ s) =
      ground (arith, e.beq_iff a b, e.beq_iff x a, e.beq_iff x b, contains-remove a b s)

  pub insert-IsHashSet : (a : A) (s : List A) → IsHashSet s → IsHashSet (insert a s)
  unfolding insert
  insert-IsHashSet a s h = ground arith

  pub remove-IsHashSet : (a : A) (s : List A) → IsHashSet s → IsHashSet (remove a s)
  unfolding remove
  remove-IsHashSet a [] h = tt
  remove-IsHashSet a (x ∷ s) h =
      ground (arith, e.beq_iff x a, e.beq_iff a x, contains-remove a x s, remove-IsHashSet a s h.1)

  pub contains-length : (a : A) (s : List A) → contains s a ≡ true → ◌≢◌ (length s) 0
  unfolding contains
  contains-length a [] h = cc
  contains-length a (x ∷ s) h = λ k. omega (arith, k)
