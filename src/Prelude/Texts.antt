-- ===== src/Prelude/Texts.antt =====
-- Rust's `str` where the code looks inside of it: as the list of its characters' codes.
use Prim.Native.Nat.{ℕ, ◌+◌}
use Prim.Native.Char.{code}
use Prim.Native.String.{String}
use mathlib.Core.Path.{◌≡◌, refl}
use mathlib.Core.Logic.{inl, inr}
use mathlib.Core.Bool.{Bool, true, false, ◌&&◌, ◌||◌}
use mathlib.Core.List.{List, [], ◌∷◌, ◌++◌}
use native.Mathlib.Omega.{arith}
use rbp.Prelude.Tests.{nat_beq, leb, if◌then◌else◌, Bool-cases}

abbrev pub codes : String → List ℕ
codes String.[] = []
codes (String.◌∷◌ c s) = code c ∷ codes s

abbrev pub lowercase : ℕ → ℕ
lowercase c = if leb b'A' c && leb c b'Z' then c + 32 else c

unfoldable pub to_ascii_lowercase : List ℕ → List ℕ
to_ascii_lowercase [] = []
to_ascii_lowercase (c ∷ s) = lowercase c ∷ to_ascii_lowercase s

unfoldable pub starts_with : List ℕ → List ℕ → Bool
starts_with s [] = true
starts_with [] (c ∷ p) = false
starts_with (d ∷ s) (c ∷ p) = nat_beq d c && starts_with s p

-- `str::contains`
unfoldable pub contains_text : List ℕ → List ℕ → Bool
unfolding starts_with
contains_text [] p = starts_with [] p
contains_text (c ∷ s) p = starts_with (c ∷ s) p || contains_text s p

starts_with-append : (p after : List ℕ) → starts_with (p ++ after) p ≡ true
unfolding starts_with
starts_with-append [] after = refl
starts_with-append (c ∷ p) after = ground (arith, starts_with-append p after)

starts_with_or : (s p : List ℕ) → starts_with s p ≡ true → contains_text s p ≡ true
unfolding contains_text
starts_with_or [] p h = h
starts_with_or (c ∷ s) p h = rw h refl

pub contains_text-append :
    (before p after : List ℕ) → contains_text (before ++ (p ++ after)) p ≡ true
unfolding contains_text
contains_text-append [] p after = starts_with_or (p ++ after) p (starts_with-append p after)
contains_text-append (c ∷ before) p after =
    elim (Bool-cases (starts_with (c ∷ (before ++ (p ++ after))) p)) [
      | inl here ↦ rw here refl
      | inr later ↦ rw later (contains_text-append before p after)
    ]
