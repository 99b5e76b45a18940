-- ===== src/Core/Candidates/Ranked.antt =====
-- `ranked`: the retained candidates, each once, in ascending order of their scores.
use mathlib.Core.List.{Perm}
use mathlib.Core.List.Perm
use rbp.Prelude.{
  ℕ, ◌≤◌, ◌≡◌, refl, List, [], ◌∷◌, Bool-cases, inl, inr, leb, All, All-map, arith, bytes_eq,
}
use rbp.Prelude.HashMap
use rbp.Prelude.HashMap.{HashMap}
use rbp.Core.PeerRecord.{PeerCandidate, identity_key}
use rbp.Core.Candidates.{sort_by_key, insert_by_key}

module _ {ℓ} {A : Type ℓ} (key : A → ℕ) where
  -- each entry has a key at most that of every later one
  abbrev pub Ascending : List A → Type ℓ
  Ascending [] = Unit
  Ascending (x ∷ xs) = All (λ y. key x ≤ key y) xs × Ascending xs

  All-insert_by_key {κ} :
      (P : A → Type κ) (x : A) (ys : List A) → P x → All P ys → All P (insert_by_key key x ys)
  unfolding insert_by_key
  All-insert_by_key P x [] px h = (px, tt)
  All-insert_by_key P x (y ∷ ys) px h = elim (Bool-cases (leb (key x) (key y))) [
    | inl le ↦ rw (le, insert_by_key) (px, h)
    | inr gt ↦ rw (gt, insert_by_key) (h.0, All-insert_by_key P x ys px h.1)
  ]

  insert_by_key-Ascending :
      (x : A) (ys : List A) → Ascending ys → Ascending (insert_by_key key x ys)
  unfolding insert_by_key
  insert_by_key-Ascending x [] h = (tt, tt)
  insert_by_key-Ascending x (y ∷ ys) h = elim (Bool-cases (leb (key x) (key y))) [
    | inl le ↦
        let first : key x ≤ key y = ground arith in
        rw (le, insert_by_key)
          (
            (first, All-map (λ z. key y ≤ key z) (λ z. key x ≤ key z) (λ z hz. omega arith) ys h.0),
            h,
          )
    | inr gt ↦
        let first : key y ≤ key x = ground arith in
        rw (gt, insert_by_key)
          (All-insert_by_key (λ z. key y ≤ key z) x ys first h.0, insert_by_key-Ascending x ys h.1)
  ]

  insert_by_key-perm : (x : A) (ys : List A) → Perm (insert_by_key key x ys) (x ∷ ys)
  unfolding insert_by_key
  insert_by_key-perm x [] = Perm.refl _
  insert_by_key-perm x (y ∷ ys) = elim (Bool-cases (leb (key x) (key y))) [
    | inl le ↦ rw (le, insert_by_key) (Perm.refl _)
    | inr gt ↦
        rw (gt, insert_by_key)
          (Perm.trans (Perm.cons y (insert_by_key-perm x ys)) (Perm.swap x y ys))
  ]

  pub sort_by_key-Ascending : (xs : List A) → Ascending (sort_by_key key xs)
  unfolding sort_by_key
  sort_by_key-Ascending [] = tt
  sort_by_key-Ascending (x ∷ xs) =
      insert_by_key-Ascending x (sort_by_key key xs) (sort_by_key-Ascending xs)

  pub sort_by_key-perm : (xs : List A) → Perm (sort_by_key key xs) xs
  unfolding sort_by_key
  sort_by_key-perm [] = Perm.refl []
  sort_by_key-perm (x ∷ xs) =
      Perm.trans (insert_by_key-perm x (sort_by_key key xs)) (Perm.cons x (sort_by_key-perm xs))

  pub All-sort_by_key {κ} : (P : A → Type κ) (xs : List A) → All P xs → All P (sort_by_key key xs)
  unfolding sort_by_key
  All-sort_by_key P [] h = tt
  All-sort_by_key P (x ∷ xs) h =
      All-insert_by_key P x (sort_by_key key xs) h.0 (All-sort_by_key P xs h.1)

abbrev Keyed : List ℕ × PeerCandidate → Type 0
Keyed e = identity_key e.1 ≡ e.0
