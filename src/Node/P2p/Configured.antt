-- ===== src/Node/P2p/Configured.antt =====
-- crates/resurrect-node/src/p2p.rs: `split_configured_peer`.
use rbp.Prelude.{
  ℕ, ◌≡◌, refl, false, Option, none, some, List, [], ◌∷◌, ◌++◌, String, ok, arith, is_empty, ◌↔◌,
}
use rbp.Libp2p.EndpointPolicy.{Protocol, p2p}
use rbp.Node.P2p.{Multiaddr, pop, before, configured_peer, split_configured_peer}

pop-append : (front : Multiaddr) (p : Protocol) → pop (front ++ (p ∷ [])) ≡ some (front, p)
unfolding pop
pop-append [] p = refl
pop-append (q ∷ front) p = rw (pop-append front p, pop) refl

append-pop : (a front : Multiaddr) (p : Protocol) → pop a ≡ some (front, p) → a ≡ front ++ (p ∷ [])
unfolding pop
append-pop [] front p h = cc
append-pop (q ∷ []) front p h = ground arith
append-pop (q ∷ r ∷ a) front p h =
    let (f, last) = before r (pop a) in ground (arith, append-pop (r ∷ a) f last refl)

module _ (addr_text : Multiaddr → String) where
  accepted-configured_peer :
      (a front : Multiaddr) (k : List ℕ) (o : Option (Multiaddr × Protocol))
      → configured_peer addr_text a o ≡ ok (k, front)
      → (o ≡ some (front, p2p k)) × (is_empty front ≡ false)
  unfolding configured_peer
  accepted-configured_peer a front k none h = ground arith
  accepted-configured_peer a front k (some (f, p2p j)) h = ground arith
  accepted-configured_peer a front k (some (f, p)) h = ground arith

  -- A configured peer is accepted with the peer id `k` and the address `front` exactly if it is
  -- `front` followed by `/p2p/k`, and `front` is not empty: no protocol is lost or reordered.
  pub split_configured_peer_iff :
      (a front : Multiaddr) (k : List ℕ)
      → (split_configured_peer addr_text a ≡ ok (k, front))
        ↔ ((a ≡ front ++ (p2p k ∷ [])) × (is_empty front ≡ false))
  unfolding split_configured_peer configured_peer
  split_configured_peer_iff a front k = (
    λ h.
        let (popped, some_front) = accepted-configured_peer a front k (pop a) h in
        (append-pop a front (p2p k) popped, some_front),
    λ (whole, some_front). rw (whole, pop-append front (p2p k), some_front) refl,
  )
