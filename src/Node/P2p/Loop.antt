-- ===== src/Node/P2p/Loop.antt =====
-- crates/resurrect-node/src/p2p.rs: the event loop, and how the host starts it.
use rbp.Prelude.{
  ℕ, suc, Bool, not, Option, none, some, List, [], ◌∷◌, ◌++◌, map, String, Result, ok, err, ◌>>=◌,
  map_err, ◌==◌, Eq, nat_eq, bytes_eq, if◌then◌else◌, length, contains, is_empty, retain,
}
use rbp.Prelude.Words.{u64_max}
use rbp.Prelude.HashMap
use rbp.Prelude.HashMap.{HashMap}
use rbp.Prelude.HashSet
use rbp.Prelude.Waiters.{push}
use rbp.Core.PeerRecord.{PeerCandidate, Endpoint, record_type_libp2p, native}
use rbp.Node.P2p.{
  Command, EventLoop, HostError, HostStatus, Input, Message, Multiaddr, Outside, SwarmEvent,
  add_verified, build, candidates, command, commands_closed, connection_closed,
  connection_established, dial, dial_error, dialed, expired_listen_addr, identify_received,
  invalid_peer_id, mdns_discovered, mdns_expired, native_candidates, new_listen_addr,
  no_dialable_endpoint, no_listener, other_event, outgoing_connection_error, prune_dial_waiters,
  shut_down, shutdown, split_configured_peers, swarm, unsupported_record_type,
}
use rbp.Node.P2p.Native.{discover, discover_all, expire_all}

abbrev pub send : ℕ → Message → EventLoop → EventLoop
send sender message s = record s {
  sent = s.sent ++ ((record { sender = sender; message = message; visible = s.status }) ∷ []);
}

-- the loop over the waiters of a peer
unfoldable pub send_all : List ℕ → Message → EventLoop → EventLoop
send_all [] message s = s
send_all (waiter ∷ rest) message s = send_all rest message (send waiter message s)

unfoldable pub answer : List ℕ → Message → EventLoop → EventLoop
unfolding send_all
answer peer_id message s = elim (HashMap.get peer_id s.pending) [
  | none ↦ s
  | some waiters ↦
      send_all waiters message (record s { pending = HashMap.remove peer_id s.pending })
]

-- the two `retain`s of `PruneDialWaiters`
unfoldable pub prune_waiters : (ℕ → Bool) → HashMap (List ℕ) (List ℕ) → HashMap (List ℕ) (List ℕ)
unfolding retain
prune_waiters is_closed [] = []
prune_waiters is_closed ((peer_id, waiters) ∷ pending) =
    let unclosed = retain (λ w. not (is_closed w)) waiters in
    let rest = prune_waiters is_closed pending in
    if not (is_empty unclosed) then (peer_id, unclosed) ∷ rest else rest

-- `sort` of the texts, by the order of strings
module _ (leb_text : String → String → Bool) where
  abbrev pub insert_text : String → List String → List String
  insert_text t [] = t ∷ []
  insert_text t (u ∷ us) =
      let rest = insert_text t us in if leb_text t u then t ∷ u ∷ us else u ∷ rest

  unfoldable pub sort : List String → List String
  sort [] = []
  sort (t ∷ ts) = insert_text t (sort ts)

-- libp2p's part: the parser of peer ids and of addresses, and the texts of both
pub record Libp2p : Type 0 where
  pub from_bytes : List ℕ → Result (List ℕ) String
  pub parse : String → Option Multiaddr
  pub peer_text : List ℕ → String
  pub addr_text : Multiaddr → String
  pub leb_text : String → String → Bool
  pub local_peer_id : List ℕ

module _ (lib : Libp2p) where
  abbrev pub initial_status : HostStatus
  initial_status = record {
    peer_id = lib.peer_text lib.local_peer_id;
    listen_addresses = [];
    connected_peers = [];
    native_discovered_peers = 0;
  }

  -- the status that `publish_status` builds
  abbrev pub snapshot : EventLoop → HostStatus
  snapshot s = record {
    peer_id = lib.peer_text lib.local_peer_id;
    listen_addresses = sort lib.leb_text (map lib.addr_text s.listen_addresses);
    connected_peers = sort lib.leb_text (map lib.peer_text s.connected);
    native_discovered_peers = length s.native;
  }

  abbrev pub publish_status : EventLoop → EventLoop
  publish_status s = record s { status = snapshot s }

  -- the endpoints that parse
  unfoldable pub parsed : List Endpoint → List Multiaddr
  parsed [] = []
  parsed (endpoint ∷ rest) = elim (lib.parse endpoint.address) [
    | none ↦ parsed rest
    | some address ↦ address ∷ parsed rest
  ]

  abbrev pub candidate : List ℕ × List Multiaddr → PeerCandidate
  candidate (peer, addresses) = record {
    record_type = record_type_libp2p;
    peer_id = peer;
    sequence = 0;
    endpoints = map (λ a. record { address = lib.addr_text a }) addresses;
    raw_signed_record = [];
    expires_at = u64_max;
    source = native;
    announcement_block = none;
    announcement_log_index = none;
  }

  -- `native_candidates`
  abbrev pub candidates_of : EventLoop → List PeerCandidate
  candidates_of s = map candidate s.native

  -- the swarm's answer to the dial
  abbrev pub dial_answered : List ℕ → ℕ → Result (Unit {0}) String → EventLoop → EventLoop
  dial_answered peer_id sender (ok _) s = record s { pending = push peer_id sender s.pending }
  dial_answered peer_id sender (err error) s = send sender (dialed (err (dial_error error))) s

  -- `dial` of a candidate with the parsed peer id
  unfoldable pub dial_peer : PeerCandidate → List ℕ → ℕ → Outside → EventLoop → EventLoop
  unfolding parsed
  dial_peer peer peer_id sender outside s =
      if contains s.connected peer_id
      then send sender (dialed (ok tt)) s
      else if is_empty (parsed peer.endpoints)
      then send sender (dialed (err no_dialable_endpoint)) s
      else dial_answered peer_id sender outside.dial_answer s

  unfoldable pub start_dial : PeerCandidate → ℕ → Outside → EventLoop → EventLoop
  unfolding dial_peer
  start_dial peer sender outside s =
      if not (peer.record_type == record_type_libp2p)
      then send sender (dialed (err (unsupported_record_type peer.record_type))) s
      else elim (lib.from_bytes peer.peer_id) [
        | err _ ↦ send sender (dialed (err invalid_peer_id)) s
        | ok peer_id ↦ dial_peer peer peer_id sender outside s
      ]

  abbrev pub remember : Result (List ℕ) String → PeerCandidate → EventLoop → EventLoop
  remember (err _) peer s = s
  remember (ok peer_id) peer s = record s { verified = HashMap.insert peer_id peer s.verified }

  unfoldable pub handle_command : Command → Outside → EventLoop → EventLoop
  unfolding start_dial prune_waiters
  handle_command (dial peer sender) outside s = start_dial peer sender outside s
  handle_command (add_verified peer) outside s =
      publish_status (remember (lib.from_bytes peer.peer_id) peer s)
  handle_command (native_candidates sender) outside s = send sender (candidates (candidates_of s)) s
  handle_command prune_dial_waiters outside s = record s {
    pending = prune_waiters outside.is_closed s.pending;
  }
  handle_command (shutdown sender) outside s = s

  module _ ⦃addr_eq : Eq Multiaddr⦄ where
    unfoldable pub handle_swarm : SwarmEvent → EventLoop → EventLoop
    unfolding HashSet.insert HashSet.remove answer discover discover_all expire_all
    handle_swarm (new_listen_addr address) s =
        publish_status (record s { listen_addresses = HashSet.insert address s.listen_addresses })
    handle_swarm (expired_listen_addr address) s =
        publish_status (record s { listen_addresses = HashSet.remove address s.listen_addresses })
    handle_swarm (connection_established peer_id) s =
        answer peer_id (dialed (ok tt))
          (publish_status (record s { connected = HashSet.insert peer_id s.connected }))
    handle_swarm (connection_closed peer_id num_established) s =
        if num_established == 0
        then publish_status (record s { connected = HashSet.remove peer_id s.connected })
        else s
    handle_swarm (outgoing_connection_error none error) s = s
    handle_swarm (outgoing_connection_error (some peer_id) error) s =
        answer peer_id (dialed (err (dial_error error))) s
    handle_swarm (mdns_discovered peers) s =
        publish_status (record s { native = discover_all peers s.native })
    handle_swarm (mdns_expired peers) s =
        publish_status (record s { native = expire_all peers s.native })
    handle_swarm (identify_received peer_id listen_addrs) s =
        publish_status (record s { native = discover peer_id listen_addrs s.native })
    handle_swarm other_event s = s

    -- `EventLoop::new`
    abbrev pub new : List (List ℕ × Multiaddr) → EventLoop
    new configured_peers = record {
      connected = [];
      native = discover_all configured_peers [];
      verified = [];
      pending = [];
      listen_addresses = [];
      status = initial_status;
      sent = [];
    }

    -- the loop, over what `select!` yields until a shutdown or the end of the commands
    unfoldable pub run : List Input → EventLoop → EventLoop
    unfolding handle_swarm handle_command
    run [] s = s
    run (swarm event ∷ rest) s = run rest (handle_swarm event s)
    run (command (shutdown sender) outside ∷ rest) s = send sender shut_down s
    run (command (dial peer sender) outside ∷ rest) s =
        run rest (handle_command (dial peer sender) outside s)
    run (command (add_verified peer) outside ∷ rest) s =
        run rest (handle_command (add_verified peer) outside s)
    run (command (native_candidates sender) outside ∷ rest) s =
        run rest (handle_command (native_candidates sender) outside s)
    run (command prune_dial_waiters outside ∷ rest) s =
        run rest (handle_command prune_dial_waiters outside s)
    run (commands_closed ∷ rest) s = s

    abbrev pub listening : (Multiaddr → Bool) → List Multiaddr → ℕ
    listening listen_on [] = 0
    listening listen_on (address ∷ rest) =
        let more = listening listen_on rest in if listen_on address then suc more else more

    -- `Libp2pHost::start`, with the builder's answer and that of `listen_on` to each address
    unfoldable pub start :
        List Multiaddr
        → List Multiaddr
        → Result (Unit {0}) String
        → (Multiaddr → Bool)
        → Result EventLoop HostError
    unfolding split_configured_peers
    start configured_peers listen_addresses built listen_on = do
      peers ← split_configured_peers lib.addr_text configured_peers
      done ← map_err build built
      if listening listen_on listen_addresses == 0 then err no_listener else ok (new peers)
