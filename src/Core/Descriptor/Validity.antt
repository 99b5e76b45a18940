-- ===== src/Core/Descriptor/Validity.antt =====
-- What `validate` accepts, and what the canonical form forgets.
use mathlib.Core.Logic.{∥∥₁_elim}
use mathlib.Core.HLevel.{hedberg, ¬_prop}
use native.Mathlib.Decide.{ℕ_discrete}
use mathlib.Core.List.{Perm, Permᴰ}
use rbp.Prelude.{
  ℕ, ◌≡◌, ◌≢◌, ◌↔◌, refl, sym, ◌∙◌, false, String, List, [], ◌∷◌, Result, ok, contains, nat_eq,
  arith,
}
use rbp.Core.Descriptor.{
  NetworkDescriptor, validate, check_unique, resurrect_version, max_ttl_seconds, insert_sorted,
  sort_unstable, canonical_json,
}

abbrev pub Absent : ℕ → List ℕ → Type 0
Absent x xs = contains xs x ≡ false

-- no entry occurs twice
abbrev pub Distinct : List ℕ → Type 0
Distinct [] = Unit
Distinct (x ∷ xs) = Absent x xs × Distinct xs

pub record IsValid (d : NetworkDescriptor) : Type 0 where
  pub version : d.version ≡ resurrect_version
  pub max_ttl : d.registry.max_ttl ≡ max_ttl_seconds
  pub some_codec : d.accepted_record_types ≢ []
  pub distinct : Distinct d.accepted_record_types

abbrev Fresh : List ℕ → List ℕ → Type 0
Fresh seen [] = Unit
Fresh seen (x ∷ xs) = Absent x seen × Fresh seen xs

Fresh-nil : (xs : List ℕ) → Fresh [] xs
unfolding contains
Fresh-nil [] = tt
Fresh-nil (x ∷ xs) = (refl, Fresh-nil xs)

Fresh-cons : (x : ℕ) (seen xs : List ℕ) → Fresh seen xs → Absent x xs → Fresh (x ∷ seen) xs
unfolding contains
Fresh-cons x seen [] h a = tt
Fresh-cons x seen (y ∷ ys) h a = (ground arith, Fresh-cons x seen ys h.1 (ground arith))

Fresh-tail : (x : ℕ) (seen xs : List ℕ) → Fresh (x ∷ seen) xs → Fresh seen xs × Absent x xs
unfolding contains
Fresh-tail x seen [] h = (tt, refl)
Fresh-tail x seen (y ∷ ys) h = ground (arith, Fresh-tail x seen ys h.1)

check_unique_sound : (seen xs : List ℕ) → check_unique seen xs ≡ ok tt → Fresh seen xs × Distinct xs
unfolding check_unique
check_unique_sound seen [] h = (tt, tt)
check_unique_sound seen (x ∷ xs) h =
    ground (arith, check_unique_sound (x ∷ seen) xs, Fresh-tail x seen xs)

check_unique_complete :
    (seen xs : List ℕ) → Fresh seen xs → Distinct xs → check_unique seen xs ≡ ok tt
unfolding check_unique
check_unique_complete seen [] f d = refl
check_unique_complete seen (x ∷ xs) f d =
    ground (arith, check_unique_complete (x ∷ seen) xs (Fresh-cons x seen xs f.1 d.0) d.1)

-- `validate` accepts exactly the descriptors with the version, the TTL, at least one record type and
-- no record type twice.
pub validate-IsValid : (d : NetworkDescriptor) → (validate d ≡ ok tt) ↔ IsValid d
unfolding validate
validate-IsValid d = (sound, complete)
  where
    sound : validate d ≡ ok tt → IsValid d
    sound h = record {
      version = ground arith;
      max_ttl = ground arith;
      some_codec = ground arith;
      distinct = ground (arith, check_unique_sound [] d.accepted_record_types);
    }

    complete : IsValid d → validate d ≡ ok tt
    complete v = ground (
      arith,
      check_unique_complete [] d.accepted_record_types (Fresh-nil d.accepted_record_types)
          v.distinct,
    )

insert_sorted_comm :
    (x y : ℕ) (xs : List ℕ)
    → insert_sorted x (insert_sorted y xs) ≡ insert_sorted y (insert_sorted x xs)
unfolding insert_sorted
insert_sorted_comm x y [] = ground arith
insert_sorted_comm x y (z ∷ zs) = ground (arith, insert_sorted_comm x y zs)

sort_unstableᴰ : {xs ys : List ℕ} → Permᴰ xs ys → sort_unstable xs ≡ sort_unstable ys
unfolding sort_unstable
sort_unstableᴰ Permᴰ.nil = refl
sort_unstableᴰ (Permᴰ.cons e p) = cc (e, sort_unstableᴰ p)
sort_unstableᴰ (Permᴰ.swap {a} {b} {l = l} e f) =
    cc (e, f, insert_sorted_comm a b (sort_unstable l))
sort_unstableᴰ (Permᴰ.trans p q) = sort_unstableᴰ p ∙ sort_unstableᴰ q

containsᴰ : (x : ℕ) {xs ys : List ℕ} → Permᴰ xs ys → contains xs x ≡ contains ys x
unfolding contains
containsᴰ x Permᴰ.nil = refl
containsᴰ x (Permᴰ.cons {a} {b} e p) = ground (arith, containsᴰ x p, e)
containsᴰ x (Permᴰ.swap e f) = ground (arith, e, f)
containsᴰ x (Permᴰ.trans p q) = containsᴰ x p ∙ containsᴰ x q

Distinctᴰ : {xs ys : List ℕ} → Permᴰ xs ys → Distinct xs → Distinct ys
unfolding contains
Distinctᴰ Permᴰ.nil h = h
Distinctᴰ (Permᴰ.cons {a} {b} e p) h = (rw (← e) (sym (containsᴰ a p) ∙ h.0), Distinctᴰ p h.1)
Distinctᴰ (Permᴰ.swap e f) h = ground (arith, e, f)
Distinctᴰ (Permᴰ.trans p q) h = Distinctᴰ q (Distinctᴰ p h)

Distinct-prop : (xs : List ℕ) → IsProp (Distinct xs)
Distinct-prop [] = hlevel
Distinct-prop (x ∷ xs) = hlevel (Distinct-prop xs)

ℕs-discrete : Discrete (List ℕ)
ℕs-discrete = hlevel ℕ_discrete

nonemptyᴰ : {xs ys : List ℕ} → Permᴰ xs ys → xs ≢ [] → ys ≢ []
nonemptyᴰ Permᴰ.nil h = h
nonemptyᴰ (Permᴰ.cons e p) h = λ q. cc
nonemptyᴰ (Permᴰ.swap e f) h = λ q. cc
nonemptyᴰ (Permᴰ.trans p q) h = nonemptyᴰ q (nonemptyᴰ p h)

-- A valid descriptor is still valid with its record types in another order, and its canonical JSON
-- is the same.
pub canonical_json-perm :
    (to_string : NetworkDescriptor → Result String String) (d : NetworkDescriptor) (types : List ℕ)
    → validate d ≡ ok tt
    → Perm d.accepted_record_types types
    → (validate (record d { accepted_record_types = types }) ≡ ok tt)
      × (canonical_json to_string (record d { accepted_record_types = types })
          ≡ canonical_json to_string d)
unfolding canonical_json
canonical_json-perm to_string d types valid p =
    let v = (validate-IsValid d).0 valid in
    let sorted : sort_unstable d.accepted_record_types ≡ sort_unstable types =
      ∥∥₁_elim p (hedberg ℕs-discrete _ _) sort_unstableᴰ in
    let valid' = (validate-IsValid (record d { accepted_record_types = types })).1 (record {
      version = v.version;
      max_ttl = v.max_ttl;
      some_codec = ∥∥₁_elim p ¬_prop (λ q. nonemptyᴰ q v.some_codec);
      distinct = ∥∥₁_elim p (Distinct-prop types) (λ q. Distinctᴰ q v.distinct);
    }) in
    (valid', rw (valid', valid, sorted))
