-- ===== src/Libp2p/EndpointPolicy/Acceptance.antt =====
-- crates/resurrect-libp2p/src/endpoint_policy.rs: the loop of `accepts` as folds.
use rbp.Prelude.{
  ℕ, ◌≡◌, refl, Bool, true, false, not, ◌&&◌, ◌||◌, Option, List, [], ◌∷◌, nat_eq, Bool-cases, inl,
  inr, bytes_eq, is_empty,
}
use rbp.Core.PeerRecord.{DialContext}
use rbp.Libp2p.EndpointPolicy.{
  EndpointPolicy, Protocol, rejects, is_transport, is_browser_secure, suits, accepts_from, accepts,
}

abbrev pub any {ℓ} : {A : Type ℓ} → (A → Bool) → List A → Bool
any f [] = false
any f (x ∷ xs) = f x || any f xs

or_false : (x : Bool) → (x || false) ≡ x
or_false true = refl
or_false false = refl

or_assoc : (x y z : Bool) → ((x || y) || z) ≡ (x || (y || z))
or_assoc true y z = refl
or_assoc false y z = refl

module _ (policy : EndpointPolicy) (expected_peer : Option (List ℕ)) (context : DialContext) where
  accepts_from-any :
      (h s : Bool) (l : List Protocol)
      → accepts_from policy expected_peer context h s l
        ≡ not (any (rejects policy expected_peer) l)
          && suits context (h || any is_transport l) (s || any is_browser_secure l)
  unfolding accepts_from
  accepts_from-any h s [] = rw (or_false h, or_false s) refl
  accepts_from-any h s (p ∷ l) =
      let rest = accepts_from-any (h || is_transport p) (s || is_browser_secure p) l in
      let goal =
        rw
          (
            or_assoc h (is_transport p) (any is_transport l),
            or_assoc s (is_browser_secure p) (any is_browser_secure l),
          )
          at rest in
      elim (Bool-cases (rejects policy expected_peer p)) [
        | inl bad ↦ rw bad refl
        | inr good ↦ rw good goal
      ]

  pub accepts-any :
      (l : List Protocol)
      → accepts policy expected_peer context l
        ≡ not (is_empty l)
          && (not (any (rejects policy expected_peer) l)
              && suits context (any is_transport l) (any is_browser_secure l))
  unfolding accepts
  accepts-any [] = refl
  accepts-any (p ∷ l) = accepts_from-any false false (p ∷ l)
