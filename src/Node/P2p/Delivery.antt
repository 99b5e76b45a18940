-- ===== src/Node/P2p/Delivery.antt =====
-- crates/resurrect-node/src/p2p.rs: no dial request is lost, and only the pruned ones stay unanswered.
use rbp.Prelude.{
  ℕ, ◌+◌, ◌≡◌, refl, ap, inl, inr, Bool, false, not, Option, none, some, List, [], ◌∷◌, ◌++◌,
  String, Result, ok, err, Eq, nat_eq, bytes_eq, ◌==◌, if◌then◌else◌, arith, Bool-cases,
  Option-cases, Result-cases, retain,
}
use rbp.Prelude.HashMap
use rbp.Prelude.HashMap.{HashMap}
use rbp.Prelude.Waiters.{count, waiting, waiting-push, waiting-remove, or_default}
use rbp.Core.PeerRecord.{PeerCandidate, record_type_libp2p}
use rbp.Node.P2p.{
  Multiaddr, HostError, no_dialable_endpoint, dial_error, Message, dialed, candidates, shut_down,
  Reply, EventLoop, dial, add_verified, native_candidates, prune_dial_waiters, shutdown, SwarmEvent,
  new_listen_addr, expired_listen_addr, connection_established, connection_closed,
  outgoing_connection_error, mdns_discovered, mdns_expired, identify_received, other_event, Outside,
  Input, swarm, command, commands_closed,
}
use rbp.Node.P2p.Loop.{
  send, send_all, answer, Libp2p, publish_status, candidates_of, dial_peer, start_dial, remember,
  handle_command, prune_waiters, handle_swarm, new, run,
}

-- how often a sender was answered by a dial's result
abbrev pub told : ℕ → Message → ℕ
told v (dialed r) = 1
told v (candidates cs) = 0
told v shut_down = 0

abbrev pub answers : ℕ → List Reply → ℕ
answers v [] = 0
answers v (r ∷ rs) = (if r.sender == v then told v r.message else 0) + answers v rs

answers-append : (v : ℕ) (rs ss : List Reply) → answers v (rs ++ ss) ≡ answers v rs + answers v ss
answers-append v [] ss = omega arith
answers-append v (r ∷ rs) ss = omega (arith, answers-append v rs ss)

abbrev pub settled : ℕ → EventLoop → ℕ
settled v s = waiting v s.pending + answers v s.sent

-- the dial requests with the sender `v` that the loop receives before it ends
abbrev pub received_dials : ℕ → List Input → ℕ
received_dials v [] = 0
received_dials v (swarm e ∷ is) = received_dials v is
received_dials v (command (dial p w) o ∷ is) = count v (w ∷ []) + received_dials v is
received_dials v (command (add_verified p) o ∷ is) = received_dials v is
received_dials v (command (native_candidates w) o ∷ is) = received_dials v is
received_dials v (command prune_dial_waiters o ∷ is) = received_dials v is
received_dials v (command (shutdown w) o ∷ is) = 0
received_dials v (commands_closed ∷ is) = 0

-- nobody gives up the receiver of `v`
abbrev pub IsAwaited : ℕ → List Input → Type 0
IsAwaited v [] = Unit
IsAwaited v (swarm e ∷ is) = IsAwaited v is
IsAwaited v (command c o ∷ is) = (o.is_closed v ≡ false) × IsAwaited v is
IsAwaited v (commands_closed ∷ is) = IsAwaited v is

count-retain :
    (v : ℕ) (is_closed : ℕ → Bool) (ws : List ℕ)
    → count v (retain (λ w. not (is_closed w)) ws) ≡ (if is_closed v then 0 else count v ws)
unfolding retain
count-retain v is_closed [] = ground arith
count-retain v is_closed (w ∷ ws) = ground (arith, count-retain v is_closed ws)

-- Pruning takes away exactly the waiters whose receiver is gone, however often they wait and for
-- whichever peer; each other one waits as often as before.
pub waiting-prune_waiters :
    (v : ℕ) (is_closed : ℕ → Bool) (pending : HashMap (List ℕ) (List ℕ))
    → waiting v (prune_waiters is_closed pending) ≡ (if is_closed v then 0 else waiting v pending)
unfolding prune_waiters
waiting-prune_waiters v is_closed [] = ground arith
waiting-prune_waiters v is_closed ((k, ws) ∷ pending) =
    ground (arith, count-retain v is_closed ws, waiting-prune_waiters v is_closed pending)

module _ (v : ℕ) where
  settled-send :
      (w : ℕ) (r : Result (Unit {0}) HostError) (s : EventLoop)
      → settled v (send w (dialed r) s) ≡ settled v s + count v (w ∷ [])
  settled-send w r s = omega (arith, answers-append v s.sent _)

  settled-send_all :
      (ws : List ℕ) (r : Result (Unit {0}) HostError) (s : EventLoop)
      → settled v (send_all ws (dialed r) s) ≡ settled v s + count v ws
  unfolding send_all
  settled-send_all [] r s = omega arith
  settled-send_all (w ∷ ws) r s =
      omega (arith, settled-send_all ws r (send w (dialed r) s), settled-send w r s)

  settled-answer :
      (k : List ℕ) (r : Result (Unit {0}) HostError) (s : EventLoop)
      → settled v (answer k (dialed r) s) ≡ settled v s
  unfolding answer
  settled-answer k r s = elim (Option-cases (HashMap.get k s.pending)) [
    | inl nobody ↦ rw (nobody, answer) refl
    | inr (ws, found) ↦
        let rest = settled-send_all ws r (record s { pending = HashMap.remove k s.pending }) in
        rw (found, answer)
          (omega (
            arith,
            rest,
            waiting-remove v k s.pending,
            ap (λ (o : Option (List ℕ)). count v (or_default o)) found,
          ))
  ]

  module _ (lib : Libp2p) where
    settled-dial_peer :
        (p : PeerCandidate) (k : List ℕ) (w : ℕ) (o : Outside) (s : EventLoop)
        → settled v (dial_peer lib p k w o s) ≡ settled v s + count v (w ∷ [])
    unfolding dial_peer
    settled-dial_peer p k w o s = elim (Result-cases o.dial_answer) [
      | inl (a, taken) ↦ ground (
        arith,
        taken,
        settled-send w (ok tt) s,
        settled-send w (err no_dialable_endpoint) s,
        waiting-push v w k s.pending,
      )
      | inr (e, refused) ↦ ground (
        arith,
        refused,
        settled-send w (ok tt) s,
        settled-send w (err no_dialable_endpoint) s,
        settled-send w (err (dial_error e)) s,
      )
    ]

    settled-start_dial :
        (p : PeerCandidate) (w : ℕ) (o : Outside) (s : EventLoop)
        → settled v (start_dial lib p w o s) ≡ settled v s + count v (w ∷ [])
    unfolding start_dial
    settled-start_dial p w o s = elim (Bool-cases (p.record_type == record_type_libp2p)) [
      | inr foreign ↦ rw foreign (settled-send w _ s)
      | inl libp2p ↦ elim (Result-cases (lib.from_bytes p.peer_id)) [
        | inr (e, bad) ↦ rw (libp2p, bad, start_dial) (settled-send w _ s)
        | inl (k, good) ↦ rw (libp2p, good, start_dial) (settled-dial_peer p k w o s)
      ]
    ]

    settled-remember :
        (r : Result (List ℕ) String) (p : PeerCandidate) (s : EventLoop)
        → settled v (publish_status lib (remember lib r p s)) ≡ settled v s
    settled-remember (ok k) p s = refl
    settled-remember (err e) p s = refl

    settled-native :
        (w : ℕ) (cs : List PeerCandidate) (s : EventLoop)
        → settled v (send w (candidates cs) s) ≡ settled v s
    settled-native w cs s = grind (arith, answers-append v s.sent _)

    module _ ⦃addr_eq : Eq Multiaddr⦄ where
      settled-handle_swarm :
          (e : SwarmEvent) (s : EventLoop) → settled v (handle_swarm lib e s) ≡ settled v s
      unfolding handle_swarm
      settled-handle_swarm (new_listen_addr a) s = refl
      settled-handle_swarm (expired_listen_addr a) s = refl
      settled-handle_swarm (connection_established k) s = settled-answer k _ _
      settled-handle_swarm (connection_closed k n) s = ground arith
      settled-handle_swarm (outgoing_connection_error none e) s = refl
      settled-handle_swarm (outgoing_connection_error (some k) e) s = settled-answer k _ s
      settled-handle_swarm (mdns_discovered ps) s = refl
      settled-handle_swarm (mdns_expired ps) s = refl
      settled-handle_swarm (identify_received k found) s = refl
      settled-handle_swarm other_event s = refl

      settled-run :
          (is : List Input) (s : EventLoop)
          → IsAwaited v is
          → settled v (run lib is s) ≡ settled v s + received_dials v is
      unfolding run handle_command
      settled-run [] s h = omega arith
      settled-run (swarm e ∷ is) s h =
          omega (arith, settled-run is (handle_swarm lib e s) h, settled-handle_swarm e s)
      settled-run (command (shutdown w) o ∷ is) s h = grind (arith, answers-append v s.sent _)
      settled-run (command (dial p w) o ∷ is) s h =
          omega (arith, settled-run is (start_dial lib p w o s) h.1, settled-start_dial p w o s)
      settled-run (command (add_verified p) o ∷ is) s h = omega (
        arith,
        settled-run is (publish_status lib (remember lib (lib.from_bytes p.peer_id) p s)) h.1,
        settled-remember (lib.from_bytes p.peer_id) p s,
      )
      settled-run (command (native_candidates w) o ∷ is) s h = omega (
        arith,
        settled-run is (send w (candidates (candidates_of lib s)) s) h.1,
        settled-native w (candidates_of lib s) s,
      )
      settled-run (command prune_dial_waiters o ∷ is) s h =
          let next = handle_command lib prune_dial_waiters o s in
          ground
            (arith, settled-run is next h.1, waiting-prune_waiters v o.is_closed s.pending, h.0)
      settled-run (commands_closed ∷ is) s h = omega arith

      -- the count from the start on
      pub run-settled :
          (configured : List (List ℕ × Multiaddr)) (is : List Input)
          → IsAwaited v is
          → settled v (run lib is (new lib configured)) ≡ received_dials v is
      run-settled configured is h = omega (arith, settled-run is (new lib configured) h)
