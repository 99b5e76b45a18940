-- ===== src/Prelude/Stateful.antt =====
-- Fallible calls on a party outside of the code, such as a chain provider: each call takes the
-- state of that party and returns its answer with the state that it leaves.
use rbp.Prelude.Fallible.{Result, ok, err}

abbrev pub Stateful {ℓ} : Type ℓ → Type ℓ → Type ℓ → Type ℓ
Stateful W A E = W → Result A E × W

module _ {ℓ} {W A E : Type ℓ} where
  abbrev pub pure : A → Stateful W A E
  pure a w = (ok a, w)

  abbrev pub fail : E → Stateful W A E
  fail e w = (err e, w)

  -- a result that needs no call
  abbrev pub lift : Result A E → Stateful W A E
  lift r w = (r, w)

module _ {ℓ} {W A B E : Type ℓ} where
  abbrev pub resume : Result A E × W → (A → Stateful W B E) → Result B E × W
  resume (ok a, w) f = f a w
  resume (err e, w) f = (err e, w)

  infixl 5 ◌>>=◌ ◌>>◌
  abbrev pub ◌>>=◌ : Stateful W A E → (A → Stateful W B E) → Stateful W B E
  ◌>>=◌ m f w = resume (m w) f

  abbrev pub ◌>>◌ : Stateful W A E → Stateful W B E → Stateful W B E
  m >> n = m >>= λ _. n

module _ {ℓ} {W A E F : Type ℓ} where
  abbrev relabel : (E → F) → Result A E × W → Result A F × W
  relabel f (ok a, w) = (ok a, w)
  relabel f (err e, w) = (err (f e), w)

  -- `map_err`, and the conversion that `?` makes
  abbrev pub map_err : (E → F) → Stateful W A E → Stateful W A F
  map_err f m w = relabel f (m w)
