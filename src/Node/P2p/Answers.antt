-- ===== src/Node/P2p/Answers.antt =====
-- crates/resurrect-node/src/p2p.rs: why a dial is answered as it is.
use rbp.Prelude.{
  ℕ, ◌≡◌, ◌≢◌, ◌⊎◌, refl, inl, inr, sym, Bool, true, not, none, some, List, [], ◌∷◌, String, Result,
  ok, err, Eq, nat_eq, bytes_eq, bytes_beq_iff, ◌==◌, arith, Bool-cases, Option-cases, Result-cases,
  List-cases, retain, All, All-append, Among, contains, is_empty,
}
use rbp.Prelude.HashMap
use rbp.Prelude.HashMap.{HashMap}
use rbp.Prelude.HashSet
use rbp.Prelude.Waiters.{push}
use rbp.Core.PeerRecord.{PeerCandidate, record_type_libp2p}
use rbp.Node.P2p.{
  Multiaddr, HostError, unsupported_record_type, invalid_peer_id, no_dialable_endpoint, dial_error,
  Message, dialed, candidates, shut_down, Reply, EventLoop, dial, add_verified, native_candidates,
  prune_dial_waiters, shutdown, SwarmEvent, new_listen_addr, expired_listen_addr,
  connection_established, connection_closed, outgoing_connection_error, mdns_discovered,
  mdns_expired, identify_received, other_event, Outside, Input, swarm, command, commands_closed,
}
use rbp.Node.P2p.Loop.{
  send, send_all, answer, Libp2p, publish_status, candidates_of, parsed, dial_peer, start_dial,
  remember, handle_command, prune_waiters, handle_swarm, new, run,
}
use rbp.Node.P2p.Delivery.{settled, received_dials, IsAwaited, run-settled}

-- a predicate on the waiters of every peer
module _ (P : List ℕ → ℕ → Type 0) where
  abbrev pub Waits : HashMap (List ℕ) (List ℕ) → Type 0
  Waits [] = Unit
  Waits ((k, ws) ∷ m) = All (P k) ws × Waits m

  Waits-get :
      (k ws : List ℕ) (m : HashMap (List ℕ) (List ℕ))
      → Waits m
      → HashMap.get k m ≡ some ws
      → All (P k) ws
  unfolding HashMap.get
  Waits-get k ws [] h found = absurd (cc)
  Waits-get k ws ((j, vs) ∷ m) h found = elim (Bool-cases (j == k)) [
    | inl same ↦
        let it : j ≡ k = (bytes_beq_iff j k).0 same in
        let here : vs ≡ ws = ground arith in rw (sym it, sym here) h.0
    | inr other ↦ Waits-get k ws m h.1 (ground arith)
  ]

  Waits-remove : (k : List ℕ) (m : HashMap (List ℕ) (List ℕ)) → Waits m → Waits (HashMap.remove k m)
  unfolding HashMap.remove
  Waits-remove k [] h = tt
  Waits-remove k ((j, vs) ∷ m) h = elim (Bool-cases (j == k)) [
    | inl same ↦ rw same h.1
    | inr other ↦ rw other (h.0, Waits-remove k m h.1)
  ]

  Waits-insert :
      (k ws : List ℕ) (m : HashMap (List ℕ) (List ℕ))
      → Waits m
      → All (P k) ws
      → Waits (HashMap.insert k ws m)
  unfolding HashMap.insert
  Waits-insert k ws [] h new = (new, tt)
  Waits-insert k ws ((j, vs) ∷ m) h new = elim (Bool-cases (j == k)) [
    | inl same ↦ rw same (new, h.1)
    | inr other ↦ rw other (h.0, Waits-insert k ws m h.1 new)
  ]

  Waits-push :
      (k : List ℕ) (w : ℕ) (m : HashMap (List ℕ) (List ℕ)) → Waits m → P k w → Waits (push k w m)
  unfolding push
  Waits-push k w m h new = Waits-insert k _ m h (elim (Option-cases (HashMap.get k m)) [
    | inl nobody ↦ rw nobody (new, tt)
    | inr (ws, found) ↦ rw found (All-append (P k) ws (w ∷ []) (Waits-get k ws m h found) (new, tt))
  ])

  All-retain : (k : List ℕ) (f : ℕ → Bool) (ws : List ℕ) → All (P k) ws → All (P k) (retain f ws)
  unfolding retain
  All-retain k f [] h = tt
  All-retain k f (w ∷ ws) h = elim (Bool-cases (f w)) [
    | inl it ↦ rw it (h.0, All-retain k f ws h.1)
    | inr gone ↦ rw gone (All-retain k f ws h.1)
  ]

  Waits-prune_waiters :
      (is_closed : ℕ → Bool) (m : HashMap (List ℕ) (List ℕ))
      → Waits m
      → Waits (prune_waiters is_closed m)
  unfolding prune_waiters
  Waits-prune_waiters is_closed [] h = tt
  Waits-prune_waiters is_closed ((k, ws) ∷ m) h =
      let unclosed = retain (λ w. not (is_closed w)) ws in
      let rest = Waits-prune_waiters is_closed m h.1 in
      elim (Bool-cases (not (is_empty unclosed))) [
        | inl some_left ↦ rw some_left (All-retain k (λ w. not (is_closed w)) ws h.0, rest)
        | inr nobody ↦ rw nobody rest
      ]

All-remove :
    (P : List ℕ → Type 0) (k : List ℕ) (ks : List (List ℕ)) → All P ks → All P (HashSet.remove k ks)
unfolding HashSet.remove
All-remove P k [] h = tt
All-remove P k (j ∷ ks) h = elim (Bool-cases (j == k)) [
  | inl same ↦ rw same (All-remove P k ks h.1)
  | inr other ↦ rw other (h.0, All-remove P k ks h.1)
]

All-insert :
    (P : List ℕ → Type 0) (k : List ℕ) (ks : List (List ℕ))
    → P k
    → All P ks
    → All P (HashSet.insert k ks)
unfolding HashSet.insert
All-insert P k ks new h = elim (Bool-cases (contains ks k)) [
  | inl there ↦ rw there h
  | inr missing ↦ rw missing (new, h)
]

All-contains :
    (P : List ℕ → Type 0) (k : List ℕ) (ks : List (List ℕ)) → All P ks → contains ks k ≡ true → P k
unfolding contains
All-contains P k [] h there = absurd (cc)
All-contains P k (j ∷ ks) h there = elim (Bool-cases (j == k)) [
  | inl same ↦ let it : j ≡ k = (bytes_beq_iff j k).0 same in rw (sym it) h.0
  | inr other ↦ All-contains P k ks h.1 (ground arith)
]

-- why a dial is refused at once: its record type, its peer id, its endpoints, or the swarm
pub data IsRefused (lib : Libp2p) (p : PeerCandidate) (o : Outside) : HostError → Type 0 where
  foreign : p.record_type ≢ 2 → IsRefused lib p o (unsupported_record_type p.record_type)
  unreadable : {e : String} → lib.from_bytes p.peer_id ≡ err e → IsRefused lib p o invalid_peer_id
  unreachable : parsed lib p.endpoints ≡ [] → IsRefused lib p o no_dialable_endpoint
  undialled : {e : String} → o.dial_answer ≡ err e → IsRefused lib p o (dial_error e)

module _ (lib : Libp2p) (received : List Input) where
  -- the loop received a dial of the peer `k` through the sender `w`
  abbrev pub Asked : List ℕ → ℕ → Type 0
  Asked k w =
      (p : PeerCandidate) × (o : Outside) × Among (command (dial p w) o) received
      × (lib.from_bytes p.peer_id ≡ ok k)

  abbrev pub Met : List ℕ → Type 0
  Met k = Among (swarm (connection_established k)) received

  -- a success: the peer that was asked for was reported connected; an error: the swarm reported it
  -- of that peer, or the request was refused
  abbrev pub Reason : ℕ → Result (Unit {0}) HostError → Type 0
  Reason w (ok u) = (k : List ℕ) × Asked k w × Met k
  Reason w (err e) =
      ((k : List ℕ) × (m : String) × Asked k w
        × Among (swarm (outgoing_connection_error (some k) m)) received
        × (e ≡ dial_error m))
      ⊎ ((p : PeerCandidate) × (o : Outside) × Among (command (dial p w) o) received
          × IsRefused lib p o e)

  abbrev IsFounded : ℕ → Message → Type 0
  IsFounded w (dialed r) = Reason w r
  IsFounded w (candidates cs) = Unit
  IsFounded w shut_down = Unit

  -- the reply, if it answers a dial, has a reason
  abbrev pub HasReason : Reply → Type 0
  HasReason r = IsFounded r.sender r.message

  record Inv (s : EventLoop) : Type 0 where
    met : All Met s.connected
    waits : Waits Asked s.pending
    told : All HasReason s.sent

  send-Inv : (w : ℕ) (m : Message) (s : EventLoop) → Inv s → IsFounded w m → Inv (send w m s)
  send-Inv w m s h reason = record {
    met = h.met;
    waits = h.waits;
    told = All-append HasReason s.sent _ h.told (reason, tt);
  }

  send_all-Inv :
      (ws : List ℕ) (r : Result (Unit {0}) HostError) (s : EventLoop)
      → Inv s
      → All (λ w. Reason w r) ws
      → Inv (send_all ws (dialed r) s)
  unfolding send_all
  send_all-Inv [] r s h reasons = h
  send_all-Inv (w ∷ ws) r s h reasons =
      send_all-Inv ws r (send w (dialed r) s) (send-Inv w (dialed r) s h reasons.0) reasons.1

  All-weaken : (P Q : ℕ → Type 0) → ((w : ℕ) → P w → Q w) → (ws : List ℕ) → All P ws → All Q ws
  All-weaken P Q f [] h = tt
  All-weaken P Q f (w ∷ ws) h = (f w h.0, All-weaken P Q f ws h.1)

  answer-Inv :
      (k : List ℕ) (r : Result (Unit {0}) HostError) (s : EventLoop)
      → Inv s
      → ((w : ℕ) → Asked k w → Reason w r)
      → Inv (answer k (dialed r) s)
  unfolding answer
  answer-Inv k r s h reason = elim (Option-cases (HashMap.get k s.pending)) [
    | inl nobody ↦ rw (nobody, answer) h
    | inr (ws, found) ↦
        let asked = Waits-get Asked k ws s.pending h.waits found in
        rw (found, answer)
          (send_all-Inv ws r (record s { pending = HashMap.remove k s.pending })
            (record { met = h.met; waits = Waits-remove Asked k s.pending h.waits; told = h.told })
            (All-weaken (Asked k) (λ w. Reason w r) reason ws asked))
  ]

  dial_peer-Inv :
      (p : PeerCandidate) (k : List ℕ) (w : ℕ) (o : Outside) (s : EventLoop)
      → Inv s
      → Among (command (dial p w) o) received
      → lib.from_bytes p.peer_id ≡ ok k
      → Inv (dial_peer lib p k w o s)
  unfolding dial_peer
  dial_peer-Inv p k w o s h among good = elim (Bool-cases (contains s.connected k)) [
    | inl there ↦
        rw (there, dial_peer)
          (send-Inv w _ s h (k, (p, o, among, good), All-contains Met k s.connected h.met there))
    | inr missing ↦ elim (List-cases (parsed lib p.endpoints)) [
      | inl nowhere ↦
          rw (missing, nowhere, dial_peer)
            (send-Inv w _ s h (inr (p, o, among, unreachable nowhere)))
      | inr (a, others, some_address) ↦ elim (Result-cases o.dial_answer) [
        | inl (u, taken) ↦
            rw (missing, some_address, taken, dial_peer)
              (record {
                met = h.met;
                waits = Waits-push Asked k w s.pending h.waits (p, o, among, good);
                told = h.told;
              })
        | inr (e, refused) ↦
            rw (missing, some_address, refused, dial_peer)
              (send-Inv w _ s h (inr (p, o, among, undialled refused)))
      ]
    ]
  ]

  start_dial-Inv :
      (p : PeerCandidate) (w : ℕ) (o : Outside) (s : EventLoop)
      → Inv s
      → Among (command (dial p w) o) received
      → Inv (start_dial lib p w o s)
  unfolding start_dial
  start_dial-Inv p w o s h among = elim (Bool-cases (p.record_type == record_type_libp2p)) [
    | inr other ↦
        let not_libp2p : p.record_type ≢ 2 = ground arith in
        rw other (send-Inv w _ s h (inr (p, o, among, foreign not_libp2p)))
    | inl libp2p ↦ elim (Result-cases (lib.from_bytes p.peer_id)) [
      | inr (e, bad) ↦
          rw (libp2p, bad, start_dial) (send-Inv w _ s h (inr (p, o, among, unreadable bad)))
      | inl (k, good) ↦ rw (libp2p, good, start_dial) (dial_peer-Inv p k w o s h among good)
    ]
  ]

  remember-Inv :
      (r : Result (List ℕ) String) (p : PeerCandidate) (s : EventLoop)
      → Inv s
      → Inv (publish_status lib (remember lib r p s))
  remember-Inv (ok k) p s h = record { met = h.met; waits = h.waits; told = h.told }
  remember-Inv (err e) p s h = record { met = h.met; waits = h.waits; told = h.told }

  module _ ⦃addr_eq : Eq Multiaddr⦄ where
    handle_swarm-Inv :
        (e : SwarmEvent) (s : EventLoop)
        → Among (swarm e) received
        → Inv s
        → Inv (handle_swarm lib e s)
    unfolding handle_swarm
    handle_swarm-Inv (new_listen_addr a) s among h = record {
      met = h.met;
      waits = h.waits;
      told = h.told;
    }
    handle_swarm-Inv (expired_listen_addr a) s among h = record {
      met = h.met;
      waits = h.waits;
      told = h.told;
    }
    handle_swarm-Inv (connection_established k) s among h =
        answer-Inv k (ok tt) _
          (record {
            met = All-insert Met k s.connected among h.met;
            waits = h.waits;
            told = h.told;
          })
          (λ w asked. (k, asked, among))
    handle_swarm-Inv (connection_closed k n) s among h = elim (Bool-cases (n == 0)) [
      | inl last ↦
          rw last
            (record { met = All-remove Met k s.connected h.met; waits = h.waits; told = h.told })
      | inr more ↦ rw more h
    ]
    handle_swarm-Inv (outgoing_connection_error none e) s among h = h
    handle_swarm-Inv (outgoing_connection_error (some k) e) s among h =
        answer-Inv k (err (dial_error e)) s h (λ w asked. inl (k, e, asked, among, refl))
    handle_swarm-Inv (mdns_discovered ps) s among h = record {
      met = h.met;
      waits = h.waits;
      told = h.told;
    }
    handle_swarm-Inv (mdns_expired ps) s among h = record {
      met = h.met;
      waits = h.waits;
      told = h.told;
    }
    handle_swarm-Inv (identify_received k found) s among h = record {
      met = h.met;
      waits = h.waits;
      told = h.told;
    }
    handle_swarm-Inv other_event s among h = h

    run-Inv :
        (is : List Input) (s : EventLoop)
        → ((i : Input) → Among i is → Among i received)
        → Inv s
        → Inv (run lib is s)
    unfolding run handle_command
    run-Inv [] s all h = h
    run-Inv (swarm e ∷ is) s all h =
        run-Inv is _ (λ i later. all i (inr later)) (handle_swarm-Inv e s (all _ (inl refl)) h)
    run-Inv (command (shutdown w) o ∷ is) s all h = send-Inv w shut_down s h tt
    run-Inv (command (dial p w) o ∷ is) s all h =
        run-Inv is _ (λ i later. all i (inr later)) (start_dial-Inv p w o s h (all _ (inl refl)))
    run-Inv (command (add_verified p) o ∷ is) s all h =
        run-Inv is _ (λ i later. all i (inr later)) (remember-Inv (lib.from_bytes p.peer_id) p s h)
    run-Inv (command (native_candidates w) o ∷ is) s all h =
        run-Inv is _ (λ i later. all i (inr later))
          (send-Inv w (candidates (candidates_of lib s)) s h tt)
    run-Inv (command prune_dial_waiters o ∷ is) s all h =
        run-Inv is _ (λ i later. all i (inr later))
          (record {
            met = h.met;
            waits = Waits-prune_waiters Asked o.is_closed s.pending h.waits;
            told = h.told;
          })
    run-Inv (commands_closed ∷ is) s all h = h

module _ (v : ℕ) (lib : Libp2p) ⦃addr_eq : Eq Multiaddr⦄ where
  -- Whatever the loop has received: the dial requests through a sender whose receiver is kept, that
  -- came before the loop's end, are each either waiting or answered exactly once. Every answer to a
  -- dial, through whichever sender, has its reason in what was received: a success, that the peer
  -- asked for through that sender was reported connected; an error, that the swarm reported that
  -- error of that peer, or that the request was refused for its record type, its peer id, its
  -- endpoints or by the swarm, with the error that stands for it.
  pub run-answered :
      (configured : List (List ℕ × Multiaddr)) (is : List Input)
      → IsAwaited v is
      → (settled v (run lib is (new lib configured)) ≡ received_dials v is)
        × All (HasReason lib is) (run lib is (new lib configured)).sent
  run-answered configured is h = (
    run-settled v lib configured is h,
    (run-Inv lib is is (new lib configured) (λ i among. among)
        (record { met = tt; waits = tt; told = tt })).told,
  )
