-- ===== src/Tests/Connector.antt =====
-- A call of `connect` of crates/resurrect-libp2p/src/behaviour.rs over some turns of its bridge.
use rbp.Prelude.{
  ℕ, ◌≡◌, refl, true, Option, some, List, [], ◌∷◌, ◌++◌, String, Result, ok, nat_eq, bytes_eq,
  bytes_beq, contains, All, arith,
}
use rbp.Prelude.HashMap
use rbp.Prelude.HashSet
use rbp.Prelude.Waiters.{push}
use rbp.Core.PeerRecord.{PeerCandidate, record_type_libp2p}
use rbp.Libp2p.EndpointPolicy.{Protocol, ip4, tcp}
use rbp.Libp2p.Behaviour.{
  Turn, requested, reported, polled, connection_established, connector, run, turn, poll, admit,
  accept, accept_peer, addresses_of, on_swarm_event, resolve, send_all,
}
use rbp.Libp2p.Behaviour.Connector.{connect, received}
use rbp.Libp2p.Behaviour.Dialled.{TurnAsksRight, connect-connected}
use rbp.Tests.{peer_a}

abbrev peer : PeerCandidate
peer = record peer_a { record_type = record_type_libp2p }

abbrev from_bytes : List ℕ → Result (List ℕ) String
from_bytes bytes = ok bytes

abbrev parse : String → Option (List Protocol)
parse text = some (ip4 (record { a = 8; b = 8; c = 8; d = 8 }) ∷ tcp 4001 ∷ [])

-- every sender is used for one peer
abbrev owner : ℕ → List ℕ
owner v = 7 ∷ []

-- another peer connects before the call, the wanted one during it
abbrev before : List Turn
before = reported (connection_established (9 ∷ [])) ∷ []

abbrev meanwhile : List Turn
meanwhile = polled ∷ reported (connection_established (7 ∷ [])) ∷ polled ∷ []

asks :
    All
      (TurnAsksRight owner from_bytes parse)
      (requested (record { peer = peer; outcome = 3 }) ∷ meanwhile)
asks = (λ k h. ground arith, (tt, (tt, (tt, tt))))

succeeds :
    (connect from_bytes parse peer 3 meanwhile (run from_bytes parse before connector)).0 ≡ true
unfolding connect received run turn poll admit accept accept_peer addresses_of on_swarm_event
    resolve send_all push HashMap.get HashMap.insert HashMap.remove HashSet.insert contains
    bytes_beq
succeeds = refl

connect-connected_example :
    (first : List Turn) × (later : List Turn) × ((requested (record { peer = peer; outcome = 3 })
        ∷ meanwhile)
      ≡ first ++ later)
    × (contains
          (run from_bytes parse first (run from_bytes parse before connector)).connected
          (7 ∷ [])
        ≡ true)
connect-connected_example =
    connect-connected owner from_bytes parse before meanwhile peer 3 (7 ∷ []) (tt, tt) asks refl
      refl succeeds
