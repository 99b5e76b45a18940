-- ===== src/Node/P2p/Status.antt =====
-- crates/resurrect-node/src/p2p.rs: what the published status says of the host.
use rbp.Prelude.{
  ℕ, ◌+◌, ◌≤◌, ◌≡◌, ◌⊎◌, refl, sym, ap, ◌∙◌, inl, inr, Bool, true, none, some, List, [], ◌∷◌, map,
  String, ok, Eq, nat_eq, bytes_eq, ◌==◌, arith, Bool-cases, Option-cases, Result-cases, contains,
  length, is_empty, All, All-append, bytes_beq_iff,
}
use rbp.Prelude.HashMap
use rbp.Prelude.HashSet
use rbp.Prelude.HashSet.{IsHashSet}
use rbp.Core.PeerRecord.{PeerCandidate, record_type_libp2p}
use rbp.Node.P2p.{
  Multiaddr, HostStatus, Message, dialed, Reply, EventLoop, Command, dial, add_verified,
  native_candidates, prune_dial_waiters, shutdown, SwarmEvent, new_listen_addr, expired_listen_addr,
  connection_established, connection_closed, outgoing_connection_error, mdns_discovered,
  mdns_expired, identify_received, other_event, Outside, Input, swarm, command, commands_closed,
}
use rbp.Node.P2p.Loop.{
  send, send_all, answer, insert_text, sort, Libp2p, initial_status, snapshot, publish_status,
  parsed, dial_answered, dial_peer, start_dial, remember, handle_command, handle_swarm, new, run,
}

length-map {ℓ κ} :
    {A : Type ℓ} {B : Type κ} (f : A → B) (xs : List A) → length (map f xs) ≡ length xs
length-map f [] = refl
length-map f (x ∷ xs) = omega (arith, length-map f xs)

length-insert_text :
    (leb_text : String → String → Bool) (t : String) (us : List String)
    → length (insert_text leb_text t us) ≡ length us + 1
length-insert_text leb_text t [] = omega arith
length-insert_text leb_text t (u ∷ us) = ground (arith, length-insert_text leb_text t us)

length-sort :
    (leb_text : String → String → Bool) (ts : List String) → length (sort leb_text ts) ≡ length ts
unfolding sort
length-sort leb_text [] = refl
length-sort leb_text (t ∷ ts) =
    omega (arith, length-insert_text leb_text t (sort leb_text ts), length-sort leb_text ts)

-- A success is only told while the published status shows a connected peer.
abbrev pub IsHonest : Reply → Type 0
IsHonest r = r.message ≡ dialed (ok tt) → 1 ≤ length r.visible.connected_peers

module _ (lib : Libp2p) where
  -- the status is that of the present, or the first one, while there is nothing to tell of
  abbrev pub IsPublished : EventLoop → Type 0
  IsPublished s =
      (s.status ≡ snapshot lib s)
      ⊎ ((s.status ≡ initial_status lib) × (s.connected ≡ []) × (s.listen_addresses ≡ []))

  pub record Inv (s : EventLoop) : Type 0 where
    pub published : IsPublished s
    pub is_set : IsHashSet s.connected
    pub honest : All IsHonest s.sent

  connected-status :
      (s : EventLoop) → IsPublished s → length s.status.connected_peers ≡ length s.connected
  connected-status s (inl now) =
      ap (λ (t : HostStatus). length t.connected_peers) now
      ∙ length-sort lib.leb_text (map lib.peer_text s.connected)
      ∙ length-map lib.peer_text s.connected
  connected-status s (inr (first, alone, quiet)) =
      ap (λ (t : HostStatus). length t.connected_peers) first ∙ sym (ap (λ l. length l) alone)

  send-Inv :
      (w : ℕ) (m : Message) (s : EventLoop)
      → (m ≡ dialed (ok tt) → 1 ≤ length s.status.connected_peers)
      → Inv s
      → Inv (send w m s)
  send-Inv w m s may v = record {
    published = v.published;
    is_set = v.is_set;
    honest = All-append IsHonest s.sent _ v.honest (may, tt);
  }

  send_all-Inv :
      (ws : List ℕ) (m : Message) (s : EventLoop)
      → (m ≡ dialed (ok tt) → 1 ≤ length s.status.connected_peers)
      → Inv s
      → Inv (send_all ws m s)
  unfolding send_all
  send_all-Inv [] m s may v = v
  send_all-Inv (w ∷ ws) m s may v = send_all-Inv ws m (send w m s) may (send-Inv w m s may v)

  answer-Inv :
      (k : List ℕ) (m : Message) (s : EventLoop)
      → (m ≡ dialed (ok tt) → 1 ≤ length s.status.connected_peers)
      → Inv s
      → Inv (answer k m s)
  unfolding answer
  answer-Inv k m s may v = elim (Option-cases (HashMap.get k s.pending)) [
    | inl nobody ↦ rw (nobody, answer) v
    | inr (ws, found) ↦
        rw (found, answer)
          (send_all-Inv ws m (record s { pending = HashMap.remove k s.pending }) may
            (record { published = v.published; is_set = v.is_set; honest = v.honest }))
  ]

  publish-Inv :
      (s : EventLoop) → IsHashSet s.connected → All IsHonest s.sent → Inv (publish_status lib s)
  publish-Inv s is_set honest = record { published = inl refl; is_set = is_set; honest = honest }

  listen-Inv :
      (addresses : List Multiaddr) (s : EventLoop)
      → Inv s
      → Inv (publish_status lib (record s { listen_addresses = addresses }))
  listen-Inv addresses s v =
      publish-Inv (record s { listen_addresses = addresses }) v.is_set v.honest

  native-Inv :
      (table : HashMap.HashMap (List ℕ) (List Multiaddr)) (s : EventLoop)
      → Inv s
      → Inv (publish_status lib (record s { native = table }))
  native-Inv table s v = publish-Inv (record s { native = table }) v.is_set v.honest

  dial_peer-Inv :
      (p : PeerCandidate) (k : List ℕ) (w : ℕ) (o : Outside) (s : EventLoop)
      → Inv s
      → Inv (dial_peer lib p k w o s)
  unfolding dial_peer
  dial_peer-Inv p k w o s v = elim (Bool-cases (contains s.connected k)) [
    | inl here ↦ rw here (
        send-Inv w _ s
          (λ h.
            omega
              (arith, connected-status s v.published, HashSet.contains-length k s.connected here))
          v)
    | inr away ↦ elim (Bool-cases (is_empty (parsed lib p.endpoints))) [
      | inl nothing ↦ rw (away, nothing) (send-Inv w _ s (λ h. absurd (ground arith)) v)
      | inr addresses ↦ elim (Result-cases o.dial_answer) [
        | inl (a, taken) ↦
            rw (away, addresses, taken, dial_answered)
              (record { published = v.published; is_set = v.is_set; honest = v.honest })
        | inr (e, refused) ↦
            rw (away, addresses, refused, dial_answered)
              (send-Inv w _ s (λ h. absurd (ground arith)) v)
      ]
    ]
  ]

  start_dial-Inv :
      (p : PeerCandidate) (w : ℕ) (o : Outside) (s : EventLoop)
      → Inv s
      → Inv (start_dial lib p w o s)
  unfolding start_dial
  start_dial-Inv p w o s v = elim (Bool-cases (p.record_type == record_type_libp2p)) [
    | inr foreign ↦ rw foreign (send-Inv w _ s (λ h. absurd (ground arith)) v)
    | inl libp2p ↦ elim (Result-cases (lib.from_bytes p.peer_id)) [
      | inr (e, bad) ↦ rw (libp2p, bad, start_dial) (send-Inv w _ s (λ h. absurd (ground arith)) v)
      | inl (k, good) ↦ rw (libp2p, good, start_dial) (dial_peer-Inv p k w o s v)
    ]
  ]

  handle_command-Inv :
      (c : Command) (o : Outside) (s : EventLoop) → Inv s → Inv (handle_command lib c o s)
  unfolding handle_command
  handle_command-Inv (dial p w) o s v = start_dial-Inv p w o s v
  handle_command-Inv (add_verified p) o s v = elim (Result-cases (lib.from_bytes p.peer_id)) [
    | inl (k, good) ↦
        rw (good, remember)
          (publish-Inv (record s { verified = HashMap.insert k p s.verified }) v.is_set v.honest)
    | inr (e, bad) ↦ rw (bad, remember) (publish-Inv s v.is_set v.honest)
  ]
  handle_command-Inv (native_candidates w) o s v = send-Inv w _ s (λ h. absurd (ground arith)) v
  handle_command-Inv prune_dial_waiters o s v = record {
    published = v.published;
    is_set = v.is_set;
    honest = v.honest;
  }
  handle_command-Inv (shutdown w) o s v = v

  module _ ⦃addr_eq : Eq Multiaddr⦄ where
    established-Inv :
        (k : List ℕ) (s : EventLoop) → Inv s → Inv (handle_swarm lib (connection_established k) s)
    unfolding handle_swarm
    established-Inv k s v =
        let next = record s { connected = HashSet.insert k s.connected } in
        let entered : Inv (publish_status lib next) =
          publish-Inv next (HashSet.insert-IsHashSet k s.connected v.is_set) v.honest in
        let here : contains (HashSet.insert k s.connected) k ≡ true =
          ground (arith, HashSet.contains-insert k k s.connected, bytes_beq_iff k k) in
        answer-Inv k _ (publish_status lib next)
          (λ h. omega (
            arith,
            connected-status (publish_status lib next) (inl refl),
            HashSet.contains-length k (HashSet.insert k s.connected) here,
          ))
          entered

    handle_swarm-Inv : (e : SwarmEvent) (s : EventLoop) → Inv s → Inv (handle_swarm lib e s)
    unfolding handle_swarm
    handle_swarm-Inv (new_listen_addr a) s v = listen-Inv _ s v
    handle_swarm-Inv (expired_listen_addr a) s v = listen-Inv _ s v
    handle_swarm-Inv (connection_established k) s v = established-Inv k s v
    handle_swarm-Inv (connection_closed k n) s v = elim (Bool-cases (n == 0)) [
      | inl last ↦ rw last (
          publish-Inv (record s { connected = HashSet.remove k s.connected })
            (HashSet.remove-IsHashSet k s.connected v.is_set) v.honest)
      | inr more ↦ rw more v
    ]
    handle_swarm-Inv (outgoing_connection_error none e) s v = v
    handle_swarm-Inv (outgoing_connection_error (some k) e) s v =
        answer-Inv k _ s (λ h. absurd (ground arith)) v
    handle_swarm-Inv (mdns_discovered ps) s v = native-Inv _ s v
    handle_swarm-Inv (mdns_expired ps) s v = native-Inv _ s v
    handle_swarm-Inv (identify_received k as') s v = native-Inv _ s v
    handle_swarm-Inv other_event s v = v

    run_from-Inv : (is : List Input) (s : EventLoop) → Inv s → Inv (run lib is s)
    unfolding run
    run_from-Inv [] s v = v
    run_from-Inv (swarm e ∷ is) s v =
        run_from-Inv is (handle_swarm lib e s) (handle_swarm-Inv e s v)
    run_from-Inv (command (shutdown w) o ∷ is) s v = send-Inv w _ s (λ h. absurd (ground arith)) v
    run_from-Inv (command (dial p w) o ∷ is) s v =
        run_from-Inv is _ (handle_command-Inv (dial p w) o s v)
    run_from-Inv (command (add_verified p) o ∷ is) s v =
        run_from-Inv is _ (handle_command-Inv (add_verified p) o s v)
    run_from-Inv (command (native_candidates w) o ∷ is) s v =
        run_from-Inv is _ (handle_command-Inv (native_candidates w) o s v)
    run_from-Inv (command prune_dial_waiters o ∷ is) s v =
        run_from-Inv is _ (handle_command-Inv prune_dial_waiters o s v)
    run_from-Inv (commands_closed ∷ is) s v = v

    -- Whatever the loop receives, from the host's start on: the published status is the snapshot of
    -- the present state, or still the first one while no peer is connected and no address is
    -- listened on; no peer is entered twice among the connected; and every success told to a dial
    -- was told while the published status showed a connected peer.
    pub run-IsPublished :
        (configured : List (List ℕ × Multiaddr)) (is : List Input)
        → Inv (run lib is (new lib configured))
    run-IsPublished configured is =
        run_from-Inv is (new lib configured)
          (record { published = inr (refl, refl, refl); is_set = tt; honest = tt })
