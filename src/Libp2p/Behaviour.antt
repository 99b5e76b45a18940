-- ===== src/Libp2p/Behaviour.antt =====
-- crates/resurrect-libp2p/src/behaviour.rs: the dial bridge; here its swarm half. A oneshot sender is a
-- number, and what is sent through it is logged in `sent` with the count that the connector half
-- could read at that moment; the channel of requests is a list, the oldest first.
pub mod Delivery
pub mod Published
pub mod Connectivity
pub mod Connector
pub mod Owned
pub mod Dialled
use rbp.Prelude.{
  ℕ, Bool, true, false, not, Option, none, some, List, [], ◌∷◌, ◌++◌, map, String, Result, ok, err,
  ◌==◌, nat_eq, bytes_eq, if◌then◌else◌, length, contains, is_empty, max,
}
use rbp.Prelude.HashMap
use rbp.Prelude.HashMap.{HashMap}
use rbp.Prelude.HashSet
use rbp.Prelude.Waiters.{push}
use rbp.Core.PeerRecord.{PeerCandidate, Endpoint, record_type_libp2p}
use rbp.Libp2p.EndpointPolicy.{Protocol}

pub data Rejection : Type 0 where
  unsupported_record_type invalid_peer_id no_dialable_endpoint : Rejection

pub data Event : Type 0 where
  dialing connected dial_failed : List ℕ → Event
  rejected : Rejection → Event

pub record DialRequest : Type 0 where
  pub peer : PeerCandidate
  pub outcome : ℕ

-- `ToSwarm`
pub data Action : Type 0 where
  dial : List ℕ → List (List Protocol) → Action
  generate_event : Event → Action

-- a message through a oneshot sender, and the connectivity count of that moment
pub record Sent : Type 0 where
  pub outcome : ℕ
  pub dialed : Bool
  pub visible : ℕ

pub record Behaviour : Type 0 where
  pub dials : List DialRequest
  pub waiters : HashMap (List ℕ) (List ℕ)
  pub connected : List (List ℕ)
  pub connectivity : ℕ
  pub queue : List Action
  pub sent : List Sent

-- `connector`; the depth of the channel only makes its senders wait
abbrev pub connector : Behaviour
connector = record {
  dials = [];
  waiters = [];
  connected = [];
  connectivity = 0;
  queue = [];
  sent = [];
}

abbrev pub send : ℕ → Bool → Behaviour → Behaviour
send outcome dialed b = record b {
  sent = b.sent ++ ((record { outcome = outcome; dialed = dialed; visible = b.connectivity }) ∷ []);
}

-- the `for` loop of `resolve`
unfoldable pub send_all : List ℕ → Bool → Behaviour → Behaviour
send_all [] dialed b = b
send_all (waiter ∷ rest) dialed b = send_all rest dialed (send waiter dialed b)

unfoldable pub resolve : List ℕ → Bool → Behaviour → Behaviour
unfolding send_all
resolve peer_id dialed b = elim (HashMap.get peer_id b.waiters) [
  | none ↦ b
  | some waiters ↦ send_all waiters dialed (record b { waiters = HashMap.remove peer_id b.waiters })
]

abbrev pub push_back : Action → Behaviour → Behaviour
push_back action b = record b { queue = b.queue ++ (action ∷ []) }

abbrev pub reject : DialRequest → Rejection → Behaviour → Behaviour
reject request rejection b =
    push_back (generate_event (rejected rejection)) (send request.outcome false b)

-- what `on_swarm_event` tells apart
pub data FromSwarm : Type 0 where
  connection_established : List ℕ → FromSwarm
  connection_closed : List ℕ → ℕ → FromSwarm
  dial_failure : Option (List ℕ) → FromSwarm
  other_event : FromSwarm

-- the connection is entered and the count published
abbrev pub counted : List ℕ → Behaviour → Behaviour
counted peer_id b =
    let connected_now = HashSet.insert peer_id b.connected in
    if contains b.connected peer_id
    then b
    else record b { connected = connected_now; connectivity = length connected_now }

abbrev pub established : List ℕ → Behaviour → Behaviour
established peer_id b = elim (HashMap.get peer_id b.waiters) [
  | none ↦ counted peer_id b
  | some _ ↦
      push_back (generate_event (connected peer_id)) (resolve peer_id true (counted peer_id b))
]

abbrev pub closed : List ℕ → ℕ → Behaviour → Behaviour
closed peer_id remaining_established b =
    let still = HashSet.remove peer_id b.connected in
    if not (remaining_established == 0)
    then b
    else if contains b.connected peer_id
    then record b { connected = still; connectivity = length still }
    else b

abbrev pub failed : Option (List ℕ) → Behaviour → Behaviour
failed none b = b
failed (some peer_id) b = elim (HashMap.get peer_id b.waiters) [
  | none ↦ b
  | some _ ↦ push_back (generate_event (dial_failed peer_id)) (resolve peer_id false b)
]

unfoldable pub on_swarm_event : FromSwarm → Behaviour → Behaviour
unfolding resolve HashSet.insert HashSet.remove
on_swarm_event (connection_established peer_id) b = established peer_id b
on_swarm_event (connection_closed peer_id remaining_established) b =
    closed peer_id remaining_established b
on_swarm_event (dial_failure peer_id) b = failed peer_id b
on_swarm_event other_event b = b

-- what happens to the bridge: the connector sends a request, the swarm reports or polls
pub data Turn : Type 0 where
  requested : DialRequest → Turn
  reported : FromSwarm → Turn
  polled : Turn

module _ (from_bytes : List ℕ → Result (List ℕ) String)
    (parse : String → Option (List Protocol)) where
  -- the endpoints that parse
  unfoldable pub addresses_of : List Endpoint → List (List Protocol)
  addresses_of [] = []
  addresses_of (endpoint ∷ rest) = elim (parse endpoint.address) [
    | none ↦ addresses_of rest
    | some address ↦ address ∷ addresses_of rest
  ]

  -- `accept` of a request with the parsed peer id
  unfoldable pub accept_peer : DialRequest → List ℕ → Behaviour → Behaviour
  unfolding addresses_of push
  accept_peer request peer_id b =
      let addresses = addresses_of request.peer.endpoints in
      if contains b.connected peer_id
      then send request.outcome true b
      else if is_empty addresses
      then reject request no_dialable_endpoint b
      else push_back (generate_event (dialing peer_id)) (
          push_back (dial peer_id addresses)
            (record b { waiters = push peer_id request.outcome b.waiters }))

  unfoldable pub accept : DialRequest → Behaviour → Behaviour
  unfolding accept_peer
  accept request b =
      if not (request.peer.record_type == record_type_libp2p)
      then reject request unsupported_record_type b
      else elim (from_bytes request.peer.peer_id) [
        | err _ ↦ reject request invalid_peer_id b
        | ok peer_id ↦ accept_peer request peer_id b
      ]

  -- the `while` loop of `poll` over the requests that have come
  unfoldable pub admit : List DialRequest → Behaviour → Option Action × Behaviour
  admit [] b = (none, record b { dials = [] })
  admit (request ∷ rest) b = elim (accept request b).queue [
    | [] ↦ admit rest (accept request b)
    | action ∷ queue ↦ (some action, record (accept request b) { dials = rest; queue = queue })
  ]

  abbrev pub next_action : List Action → Behaviour → Option Action × Behaviour
  next_action [] b = admit b.dials b
  next_action (action ∷ queue) b = (some action, record b { queue = queue })

  unfoldable pub poll : Behaviour → Option Action × Behaviour
  unfolding admit
  poll b = next_action b.queue b

  unfoldable pub turn : Turn → Behaviour → Behaviour
  unfolding on_swarm_event poll accept
  turn (requested request) b = record b { dials = b.dials ++ (request ∷ []) }
  turn (reported event) b = on_swarm_event event b
  turn polled b = (poll b).1

  unfoldable pub run : List Turn → Behaviour → Behaviour
  unfolding turn
  run [] b = b
  run (t ∷ ts) b = run ts (turn t b)
