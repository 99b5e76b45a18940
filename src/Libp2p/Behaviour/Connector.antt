-- ===== src/Libp2p/Behaviour/Connector.antt =====
-- crates/resurrect-libp2p/src/behaviour.rs: the connector half over the swarm half. A call of `connect`
-- sees the turns of the bridge that happen before its timeout; a dropped bridge is none.
use rbp.Prelude.{
  ℕ, Bool, false, Option, none, some, List, [], ◌∷◌, String, Result, nat_eq, bytes_eq, ◌==◌,
  if◌then◌else◌,
}
use rbp.Core.PeerRecord.{PeerCandidate}
use rbp.Libp2p.EndpointPolicy.{Protocol}
use rbp.Libp2p.Behaviour.{Behaviour, Sent, Turn, requested, run}

-- `connected_peers` of the connector reads the shared count
abbrev pub connected_peers : Behaviour → ℕ
connected_peers b = b.connectivity

-- the first message through a oneshot sender
unfoldable pub received : ℕ → List Sent → Option Bool
received outcome [] = none
received outcome (s ∷ rest) =
    let later = received outcome rest in if s.outcome == outcome then some s.dialed else later

-- the timeout, and `unwrap_or(false)`
abbrev pub or_false : Option Bool → Bool
or_false none = false
or_false (some dialed) = dialed

module _ (from_bytes : List ℕ → Result (List ℕ) String)
    (parse : String → Option (List Protocol)) where
  -- `connect` with the new sender `outcome`
  unfoldable pub connect : PeerCandidate → ℕ → List Turn → Behaviour → Bool × Behaviour
  unfolding received
  connect peer outcome meanwhile b =
      let later =
        run from_bytes parse (requested (record { peer = peer; outcome = outcome }) ∷ meanwhile)
          b in
      (or_false (received outcome later.sent), later)

  -- `connect` on a bridge that may be dropped, with the bridge
  abbrev pub connect_if_running :
      PeerCandidate → ℕ → List Turn → Option Behaviour → Bool × Option Behaviour
  connect_if_running peer outcome meanwhile none = (false, none)
  connect_if_running peer outcome meanwhile (some b) =
      let (dialed, later) = connect peer outcome meanwhile b in (dialed, some later)
