-- ===== src/Node/P2p.antt =====
-- crates/resurrect-node/src/p2p.rs: the data of the native host, its configured peers and its handle.
-- A oneshot sender is a number; what is sent through it is logged with the status that was published
-- then. The transport, the parser and the printer of multiaddresses are libp2p's.
pub mod Native
pub mod Loop
pub mod Handle
pub mod Status
pub mod Delivery
pub mod Answers
pub mod Configured
use rbp.Prelude.{
  ℕ, zero, suc, ◌+◌, Bool, true, false, not, Option, none, some, List, [], ◌∷◌, ◌++◌, map, String,
  Result, ok, err, ◌>>=◌, map_err, ◌==◌, Eq, nat_eq, bytes_eq, if◌then◌else◌, length, contains,
  is_empty, retain,
}
use rbp.Prelude.Words.{u64_max}
use rbp.Prelude.HashMap
use rbp.Prelude.HashMap.{HashMap}
use rbp.Prelude.HashSet
use rbp.Prelude.Waiters.{push}
use rbp.Core.PeerRecord.{PeerCandidate, Endpoint, record_type_libp2p, native}
use rbp.Libp2p.EndpointPolicy.{Protocol, p2p}

abbrev pub Multiaddr : Type 0
Multiaddr = List Protocol

pub record HostStatus : Type 0 where
  pub peer_id : String
  pub listen_addresses : List String
  pub connected_peers : List String
  pub native_discovered_peers : ℕ

pub data HostError : Type 0 where
  build : String → HostError
  no_listener : HostError
  invalid_configured_peer : String → HostError
  listen_timeout stopped : HostError
  unsupported_record_type : ℕ → HostError
  invalid_peer_id no_dialable_endpoint : HostError
  dial_error : String → HostError

pub data Message : Type 0 where
  dialed : Result (Unit {0}) HostError → Message
  candidates : List PeerCandidate → Message
  shut_down : Message

-- a message through a oneshot sender, and the status published at that moment
pub record Reply : Type 0 where
  pub sender : ℕ
  pub message : Message
  pub visible : HostStatus

pub record EventLoop : Type 0 where
  pub connected : List (List ℕ)
  pub native : HashMap (List ℕ) (List Multiaddr)
  pub verified : HashMap (List ℕ) PeerCandidate
  pub pending : HashMap (List ℕ) (List ℕ)
  pub listen_addresses : List Multiaddr
  pub status : HostStatus
  pub sent : List Reply

pub data Command : Type 0 where
  dial : PeerCandidate → ℕ → Command
  add_verified : PeerCandidate → Command
  native_candidates : ℕ → Command
  prune_dial_waiters : Command
  shutdown : ℕ → Command

-- what `handle_swarm` tells apart
pub data SwarmEvent : Type 0 where
  new_listen_addr expired_listen_addr : Multiaddr → SwarmEvent
  connection_established : List ℕ → SwarmEvent
  connection_closed : List ℕ → ℕ → SwarmEvent
  outgoing_connection_error : Option (List ℕ) → String → SwarmEvent
  mdns_discovered mdns_expired : List (List ℕ × Multiaddr) → SwarmEvent
  identify_received : List ℕ → List Multiaddr → SwarmEvent
  other_event : SwarmEvent

-- what a command finds outside the loop: the swarm's answer to a dial, and which receivers are gone
pub record Outside : Type 0 where
  pub dial_answer : Result (Unit {0}) String
  pub is_closed : ℕ → Bool

-- what `select!` yields; `commands_closed` is `recv` of none
pub data Input : Type 0 where
  swarm : SwarmEvent → Input
  command : Command → Outside → Input
  commands_closed : Input

-- `Multiaddr::pop`: the last protocol, and those before it
abbrev pub before : Protocol → Option (Multiaddr × Protocol) → Multiaddr × Protocol
before p none = ([], p)
before p (some (front, last)) = (p ∷ front, last)

unfoldable pub pop : Multiaddr → Option (Multiaddr × Protocol)
pop [] = none
pop (p ∷ ps) = some (before p (pop ps))

module _ (addr_text : Multiaddr → String) where
  unfoldable pub configured_peer :
      Multiaddr → Option (Multiaddr × Protocol) → Result (List ℕ × Multiaddr) HostError
  configured_peer original (some (front, p2p peer_id)) =
      if not (is_empty front)
      then ok (peer_id, front)
      else err (invalid_configured_peer (addr_text original))
  configured_peer original other = err (invalid_configured_peer (addr_text original))

  unfoldable pub split_configured_peer : Multiaddr → Result (List ℕ × Multiaddr) HostError
  unfolding pop configured_peer
  split_configured_peer address = configured_peer address (pop address)

  -- `map` and `collect`
  unfoldable pub split_configured_peers :
      List Multiaddr → Result (List (List ℕ × Multiaddr)) HostError
  unfolding split_configured_peer
  split_configured_peers [] = ok []
  split_configured_peers (address ∷ rest) = do
    peer ← split_configured_peer address
    peers ← split_configured_peers rest
    ok (peer ∷ peers)

-- what the handle's `connect` learns of a command it has sent: a reply, the sender's end, or nothing
-- before the timeout
pub data Waited : Type 0 where
  received : Result (Unit {0}) HostError → Waited
  dropped timed_out : Waited

-- `connect` of the handle: the commands it sends, and its result
abbrev pub outcome_of : Waited → List Command × Bool
outcome_of (received (ok _)) = ([], true)
outcome_of (received (err _)) = ([], false)
outcome_of dropped = ([], false)
outcome_of timed_out = (prune_dial_waiters ∷ [], false)

unfoldable pub connect : PeerCandidate → ℕ → Bool → Waited → List Command × Bool
connect peer sender sent waited =
    let (more, success) = outcome_of waited in
    if sent then (dial peer sender ∷ more, success) else ([], false)

-- `wait_for_listener` over the statuses that it borrows one after the other; then the loop has
-- stopped or the time is over
unfoldable pub wait_for_listener : List HostStatus → Bool → Result HostStatus HostError
wait_for_listener [] has_stopped = if has_stopped then err stopped else err listen_timeout
wait_for_listener (status ∷ rest) has_stopped =
    let later = wait_for_listener rest has_stopped in
    if not (is_empty status.listen_addresses) then ok status else later
