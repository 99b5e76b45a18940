-- ===== src/Node/P2p/Native.antt =====
-- crates/resurrect-node/src/p2p.rs: the table of natively discovered peers.
use rbp.Prelude.{ℕ, none, some, List, [], ◌∷◌, Eq, nat_eq, bytes_eq, if◌then◌else◌, is_empty}
use rbp.Prelude.HashMap
use rbp.Prelude.HashMap.{HashMap}
use rbp.Prelude.HashSet
use rbp.Node.P2p.{Multiaddr}

module _ ⦃addr_eq : Eq Multiaddr⦄ where
  -- `entry(peer).or_default().extend(addresses)`
  unfoldable pub extend : List Multiaddr → List Multiaddr → List Multiaddr
  unfolding HashSet.insert
  extend [] known = known
  extend (address ∷ rest) known = extend rest (HashSet.insert address known)

  abbrev pub addresses_of : List ℕ → HashMap (List ℕ) (List Multiaddr) → List Multiaddr
  addresses_of peer_id table = elim (HashMap.get peer_id table) [ none ↦ [] | some known ↦ known ]

  unfoldable pub discover :
      List ℕ
      → List Multiaddr
      → HashMap (List ℕ) (List Multiaddr)
      → HashMap (List ℕ) (List Multiaddr)
  unfolding extend HashMap.get HashMap.insert
  discover peer_id found table =
      HashMap.insert peer_id (extend found (addresses_of peer_id table)) table

  unfoldable pub discover_all :
      List (List ℕ × Multiaddr)
      → HashMap (List ℕ) (List Multiaddr)
      → HashMap (List ℕ) (List Multiaddr)
  unfolding discover
  discover_all [] table = table
  discover_all ((peer_id, address) ∷ rest) table =
      discover_all rest (discover peer_id (address ∷ []) table)

  unfoldable pub expire :
      List ℕ → Multiaddr → HashMap (List ℕ) (List Multiaddr) → HashMap (List ℕ) (List Multiaddr)
  unfolding HashMap.get HashMap.insert HashMap.remove HashSet.remove
  expire peer_id address table = elim (HashMap.get peer_id table) [
    | none ↦ table
    | some addresses ↦
        let left = HashSet.remove address addresses in
        if is_empty left then HashMap.remove peer_id table else HashMap.insert peer_id left table
  ]

  unfoldable pub expire_all :
      List (List ℕ × Multiaddr)
      → HashMap (List ℕ) (List Multiaddr)
      → HashMap (List ℕ) (List Multiaddr)
  unfolding expire
  expire_all [] table = table
  expire_all ((peer_id, address) ∷ rest) table = expire_all rest (expire peer_id address table)
