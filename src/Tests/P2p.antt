-- ===== src/Tests/P2p.antt =====
-- The theorems about crates/resurrect-node/src/p2p.rs and crates/resurrect-libp2p/src/behaviour.rs at
-- concrete inputs.
use rbp.Prelude.{
  ℕ, ◌≡◌, refl, true, Option, some, List, [], ◌∷◌, String, Result, ok, nat_eq, bytes_eq, ◌==◌, All,
}
use rbp.Libp2p.EndpointPolicy.{Protocol, ip4, tcp}
use rbp.Libp2p.Behaviour.{
  DialRequest, Turn, requested, reported, polled, connection_established, connector, run,
}
use rbp.Libp2p.Behaviour.Delivery.{known, run-known}
use rbp.Libp2p.Behaviour.Connectivity.{Inv, run-Inv}
use rbp.Node.P2p.{
  Multiaddr, Input, swarm, command, commands_closed, dial, prune_dial_waiters, native_candidates,
  mdns_discovered, Outside, split_configured_peer,
}
use rbp.Node.P2p.Loop.{Libp2p, new}
use rbp.Node.P2p as P2p
use rbp.Node.P2p.Loop as Loop
use rbp.Node.P2p.Status.{run-IsPublished}
use rbp.Node.P2p.Status as Status
use rbp.Node.P2p.Delivery.{settled, received_dials}
use rbp.Node.P2p.Answers.{HasReason, run-answered}
use rbp.Tests.{peer_a, peer_b}
use rbp.Tests.SignedRecord.{protocols_eq}

abbrev from_bytes : List ℕ → Result (List ℕ) String
from_bytes bytes = ok bytes

abbrev address : List Protocol
address = ip4 (record { a = 8; b = 8; c = 8; d = 8 }) ∷ tcp 4001 ∷ []

abbrev parse : String → Option (List Protocol)
parse text = some address

abbrev wanted : DialRequest
wanted = record { peer = record peer_a { record_type = 2 }; outcome = 3 }

-- one peer is dialled twice and connects, and a request of another type is rejected
abbrev turns : List Turn
turns =
    requested wanted
    ∷ polled
    ∷ requested (record wanted { outcome = 4 })
    ∷ polled
    ∷ reported (connection_established (7 ∷ []))
    ∷ requested (record { peer = peer_b; outcome = 5 })
    ∷ polled
    ∷ []

run-known_example : known 3 (run from_bytes parse turns connector) ≡ 1
run-known_example = run-known 3 from_bytes parse turns

run-Inv_example : Inv (run from_bytes parse turns connector)
run-Inv_example = run-Inv from_bytes parse turns

abbrev lib : Libp2p
lib = record {
  from_bytes = from_bytes;
  parse = parse;
  peer_text = λ peer. "peer";
  addr_text = λ a. "address";
  leb_text = λ t u. true;
  local_peer_id = 1 ∷ [];
}

abbrev outside : Outside
outside = record { dial_answer = ok tt; is_closed = λ w. w == 9 }

-- two peers are dialled, one connects, and the waiters that gave up are pruned
abbrev inputs : List Input
inputs =
    command (dial wanted.peer 3) outside
    ∷ command (dial (record wanted.peer { peer_id = 8 ∷ [] }) 9) outside
    ∷ swarm (P2p.connection_established (7 ∷ []))
    ∷ command prune_dial_waiters outside
    ∷ swarm (mdns_discovered ((6 ∷ [], address) ∷ []))
    ∷ commands_closed
    ∷ []

run-IsPublished_example : Status.Inv lib (Loop.run lib inputs (new lib ((4 ∷ [], address) ∷ [])))
run-IsPublished_example = run-IsPublished lib ((4 ∷ [], address) ∷ []) inputs

run-answered_example :
    (settled 3 (Loop.run lib inputs (new lib ((4 ∷ [], address) ∷ []))) ≡ received_dials 3 inputs)
    × All (HasReason lib inputs) (Loop.run lib inputs (new lib ((4 ∷ [], address) ∷ []))).sent
run-answered_example = run-answered 3 lib ((4 ∷ [], address) ∷ []) inputs (refl, (refl, (refl, tt)))
