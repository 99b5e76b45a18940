-- ===== src/Prelude/Waiters.antt =====
-- Maps from a key to those who wait for it, each named by a number: `entry(k).or_default().push(w)`,
-- and how often one waits.
use Prim.Native.Nat.{ℕ, ◌+◌}
use mathlib.Core.Path.{◌≡◌}
use mathlib.Core.Option.{Option, none, some}
use mathlib.Core.List.{List, [], ◌∷◌, ◌++◌}
use native.Mathlib.Omega.{arith}
use rbp.Prelude.Tests.{Eq, ◌==◌, if◌then◌else◌, nat_eq}
use rbp.Prelude.HashMap
use rbp.Prelude.HashMap.{HashMap, IsMap}

abbrev pub count : ℕ → List ℕ → ℕ
count w [] = 0
count w (x ∷ xs) = (if x == w then 1 else 0) + count w xs

pub count-append : (w : ℕ) (xs ys : List ℕ) → count w (xs ++ ys) ≡ count w xs + count w ys
count-append w [] ys = omega arith
count-append w (x ∷ xs) ys = omega (arith, count-append w xs ys)

abbrev pub or_default : Option (List ℕ) → List ℕ
or_default none = []
or_default (some ws) = ws

module _ {ℓ} {K : Type ℓ} ⦃eq : Eq K⦄ where
  unfoldable pub push : K → ℕ → HashMap K (List ℕ) → HashMap K (List ℕ)
  unfolding HashMap.get HashMap.insert
  push k w m = HashMap.insert k (or_default (HashMap.get k m) ++ (w ∷ [])) m

  -- how often `w` waits, for any key
  abbrev pub waiting : ℕ → HashMap K (List ℕ) → ℕ
  waiting w [] = 0
  waiting w ((k, ws) ∷ m) = count w ws + waiting w m

  pub waiting-insert :
      (w : ℕ) (k : K) (ws : List ℕ) (m : HashMap K (List ℕ))
      → waiting w (HashMap.insert k ws m) + count w (or_default (HashMap.get k m))
        ≡ waiting w m + count w ws
  unfolding HashMap.get HashMap.insert
  waiting-insert w k ws [] = omega arith
  waiting-insert w k ws ((j, vs) ∷ m) = ground (arith, waiting-insert w k ws m)

  pub waiting-remove :
      (w : ℕ) (k : K) (m : HashMap K (List ℕ))
      → waiting w (HashMap.remove k m) + count w (or_default (HashMap.get k m)) ≡ waiting w m
  unfolding HashMap.get HashMap.remove
  waiting-remove w k [] = omega arith
  waiting-remove w k ((j, vs) ∷ m) = ground (arith, waiting-remove w k m)

  pub waiting-push :
      (v w : ℕ) (k : K) (m : HashMap K (List ℕ))
      → waiting v (push k w m) ≡ waiting v m + count v (w ∷ [])
  unfolding push
  waiting-push v w k m = omega (
    arith,
    waiting-insert v k (or_default (HashMap.get k m) ++ (w ∷ [])) m,
    count-append v (or_default (HashMap.get k m)) (w ∷ []),
  )
