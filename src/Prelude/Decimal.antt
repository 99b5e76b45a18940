-- ===== src/Prelude/Decimal.antt =====
-- Rust's unsigned integers in decimal: `to_string`, and `parse` with the bound of the type.
use Prim.Native.Nat.{ℕ, zero, suc, ◌+◌, ◌-◌, ◌*◌, ◌/◌, ◌%◌, ◌≤◌, ◌<◌}
use mathlib.Core.Path.{◌≡◌, refl, ap, ◌∙◌}
use mathlib.Core.Logic.{◌≢◌, ◌↔◌, ◌⊎◌, inl, inr}
use mathlib.Core.Bool.{Bool, ◌&&◌}
use mathlib.Core.Option.{Option, none, some}
use mathlib.Core.List.{List, [], ◌∷◌, ◌++◌, append-nil, cons-ne-nil}
use native.Mathlib.Omega.{arith}
use native.Mathlib.Decide.{dec_lt}
use rbp.Prelude.Tests.{leb, if◌then◌else◌}
use rbp.Prelude.Lists.{All}

-- each round takes the last digit off
unfoldable digits : ℕ → ℕ → List ℕ → List ℕ
digits zero n out = out
digits (suc fuel) n out = elim (dec_lt 0 n) [
  | yes more ↦ digits fuel (n / 10) ((b'0' + n % 10) ∷ out)
  | no zero_left ↦ out
]

unfoldable pub to_string : ℕ → List ℕ
unfolding digits
to_string zero = b'0' ∷ []
to_string (suc n) = digits (suc n) (suc n) []

abbrev pub is_ascii_digit : ℕ → Bool
is_ascii_digit c = leb b'0' c && leb c b'9'

-- the digits behind `n`, each added with its check
unfoldable scan : ℕ → List ℕ → ℕ → Option ℕ
scan bound [] n = some n
scan bound (c ∷ s) n =
    let rest = scan bound s (n * 10 + (c - b'0')) in
    if is_ascii_digit c then (if leb (n * 10 + (c - b'0')) bound then rest else none) else none

-- `parse` without the sign that Rust also reads
unfoldable pub parse : ℕ → List ℕ → Option ℕ
unfolding scan
parse bound [] = none
parse bound (c ∷ s) = scan bound (c ∷ s) 0

abbrev pub IsDigit : ℕ → Type 0
IsDigit c = (b'0' ≤ c) × (c ≤ b'9')

-- the number that digits spell behind `n`
abbrev pub value : ℕ → List ℕ → ℕ
value n [] = n
value n (c ∷ s) = value (n * 10 + (c - b'0')) s

le-value : (s : List ℕ) (n : ℕ) → n ≤ value n s
le-value [] n = omega arith
le-value (c ∷ s) n = omega (arith, le-value s (n * 10 + (c - b'0')))

scan_complete :
    (bound : ℕ) (s : List ℕ) (n : ℕ)
    → All IsDigit s
    → value n s ≤ bound
    → scan bound s n ≡ some (value n s)
unfolding scan
scan_complete bound [] n h fits = refl
scan_complete bound (c ∷ s) n h fits = ground (
  arith,
  scan_complete bound s (n * 10 + (c - b'0')) h.1 fits,
  le-value s (n * 10 + (c - b'0')),
  h.0,
)

scan_sound :
    (bound : ℕ) (s : List ℕ) (n r : ℕ)
    → n ≤ bound
    → scan bound s n ≡ some r
    → (All IsDigit s) × (r ≡ value n s) × (r ≤ bound)
unfolding scan
scan_sound bound [] n r fits h = ground arith
scan_sound bound (c ∷ s) n r fits h = ground (arith, scan_sound bound s (n * 10 + (c - b'0')) r)

-- digits that spell more than the bound are refused
pub parse_iff :
    (bound : ℕ) (s : List ℕ) (r : ℕ)
    → (parse bound s ≡ some r) ↔ ((s ≢ []) × All IsDigit s × (r ≡ value 0 s) × (r ≤ bound))
unfolding parse
parse_iff bound [] r = ((λ h. absurd (ground arith)), λ h. absurd (h.0 refl))
parse_iff bound (c ∷ s) r = (
  λ h.
      let (all_digits, exact, fits) = scan_sound bound (c ∷ s) 0 r (omega arith) h in
      (cons-ne-nil c s, all_digits, exact, fits),
  λ h.
      let (_, all_digits, exact, fits) = h in
      ground (arith, scan_complete bound (c ∷ s) 0 all_digits),
)

-- the fuel does not matter if there is enough
digits_enough : (f g n : ℕ) (out : List ℕ) → n ≤ f → n ≤ g → digits f n out ≡ digits g n out
unfolding digits
digits_enough zero zero n out hf hg = refl
digits_enough zero (suc g) n out hf hg = ground arith
digits_enough (suc f) zero n out hf hg = ground arith
digits_enough (suc f) (suc g) n out hf hg =
    ground (arith, digits_enough f g (n / 10) ((b'0' + n % 10) ∷ out))

-- a digit behind a positive number is printed behind it
digits_push :
    (f g n d : ℕ) (out : List ℕ)
    → 0 < n * 10 + d
    → d < 10
    → n * 10 + d ≤ f
    → n ≤ g
    → digits f (n * 10 + d) out ≡ digits g n ((b'0' + d) ∷ out)
unfolding digits
digits_push zero g n d out positive digit hf hg = absurd (omega arith)
digits_push (suc f) g n d out positive digit hf hg =
    ground (arith, digits_enough f g n ((b'0' + d) ∷ out))

-- printing undoes spelling
digits-value :
    (s out : List ℕ) (f g n : ℕ)
    → 0 < n
    → All IsDigit s
    → value n s ≤ f
    → n ≤ g
    → digits f (value n s) out ≡ digits g n (s ++ out)
digits-value [] out f g n positive h hf hg = digits_enough f g n out hf hg
digits-value (c ∷ s) out f g n positive h hf hg =
    let first =
      digits-value s out f (n * 10 + (c - b'0')) (n * 10 + (c - b'0')) (omega arith) h.1 hf
        (omega arith) in
    let second =
      digits_push (n * 10 + (c - b'0')) g n (c - b'0') (s ++ out) (omega arith) (omega (arith, h.0))
        (omega arith) hg in
    let same : b'0' + (c - b'0') ≡ c = omega (arith, h.0) in
    first ∙ second ∙ ap (λ x. digits g n (x ∷ (s ++ out))) same

-- spelling undoes printing
value-digits :
    (f n : ℕ) (out : List ℕ)
    → n ≤ f
    → All IsDigit out
    → (value 0 (digits f n out) ≡ value n out) × All IsDigit (digits f n out)
unfolding digits
value-digits zero n out h all_digits = ground arith
value-digits (suc f) n out h all_digits = elim (dec_lt 0 n) [
  | yes more ↦ ground (arith, value-digits f (n / 10) ((b'0' + n % 10) ∷ out))
  | no none_left ↦ ground arith
]

-- no zero in front
digits_first :
    (f n : ℕ) (out : List ℕ)
    → n ≤ f
    → 0 < n
    → (c : ℕ) × (s : List ℕ) × (digits f n out ≡ c ∷ s) × (b'0' < c)
unfolding digits
digits_first zero n out h positive = absurd (omega arith)
digits_first (suc f) n out h positive = elim (dec_lt 0 (n / 10)) [
  | yes more ↦
      let (c, s, e, first) = digits_first f (n / 10) ((b'0' + n % 10) ∷ out) (omega arith) more in
      (c, s, ground arith, first)
  | no last ↦ (
    b'0' + n % 10,
    out,
    ground (arith, digits_enough f 0 (n / 10) ((b'0' + n % 10) ∷ out) (omega arith) (omega arith)),
    omega arith,
  )
]

-- one zero, or no zero in front
abbrev pub IsCanonical : List ℕ → Type 0
IsCanonical s = (s ≡ b'0' ∷ []) ⊎ ((c : ℕ) × (rest : List ℕ) × (s ≡ c ∷ rest) × (b'0' < c))

pub to_string-IsCanonical : (n : ℕ) → IsCanonical (to_string n)
unfolding to_string
to_string-IsCanonical zero = inl refl
to_string-IsCanonical (suc n) = inr (digits_first (suc n) (suc n) [] (omega arith) (omega arith))

pub value-to_string : (n : ℕ) → (value 0 (to_string n) ≡ n) × All IsDigit (to_string n)
unfolding to_string
value-to_string zero = (refl, ((omega arith, omega arith), tt))
value-to_string (suc n) = value-digits (suc n) (suc n) [] (omega arith) tt

to_string_positive : (n : ℕ) → 0 < n → to_string n ≡ digits n n []
unfolding to_string
to_string_positive zero h = absurd (omega arith)
to_string_positive (suc n) h = refl

pub to_string-value : (s : List ℕ) → IsCanonical s → All IsDigit s → to_string (value 0 s) ≡ s
unfolding digits
to_string-value s (inl zero_text) h = rw zero_text (unfold to_string in refl)
to_string-value [] (inr (c, rest, e, first)) h = cc
to_string-value (d ∷ s) (inr (c, rest, e, first)) h =
    let bigger : b'0' < d = ground arith in
    let n = 0 * 10 + (d - b'0') in
    let positive : 0 < value n s = omega (arith, le-value s n) in
    let printed = digits-value s [] (value n s) n n (omega arith) h.1 (omega arith) (omega arith) in
    let last =
      digits_push n 0 0 (d - b'0') (s ++ []) (omega arith) (omega (arith, h.0)) (omega arith)
        (omega arith) in
    let same : b'0' + (d - b'0') ≡ d = omega (arith, h.0) in
    to_string_positive (value n s) positive
    ∙ printed
    ∙ last
    ∙ ap (λ x. x ∷ (s ++ [])) same
    ∙ ap (◌∷◌ d) (append-nil s)
