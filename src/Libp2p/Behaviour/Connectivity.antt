-- ===== src/Libp2p/Behaviour/Connectivity.antt =====
-- crates/resurrect-libp2p/src/behaviour.rs: what the connector half can rely on.
use rbp.Prelude.{
  ℕ, ◌≡◌, refl, sym, ap, ◌∙◌, inl, inr, true, false, Option, none, some, List, [], ◌∷◌, ◌++◌,
  String, Result, nat_eq, bytes_eq, ◌==◌, if◌then◌else◌, arith, Bool-cases, Option-cases,
  List-cases, Result-cases, contains, is_empty, bytes_beq_iff,
}
use rbp.Prelude.HashMap
use rbp.Prelude.HashMap.{IsMap}
use rbp.Prelude.HashSet
use rbp.Prelude.HashSet.{IsHashSet}
use rbp.Prelude.Waiters.{push, or_default}
use rbp.Core.PeerRecord.{record_type_libp2p}
use rbp.Libp2p.EndpointPolicy.{Protocol}
use rbp.Libp2p.Behaviour.{
  Behaviour, DialRequest, FromSwarm, connection_established, connection_closed, dial_failure,
  other_event, Turn, requested, reported, polled, connector, on_swarm_event, accept_peer, accept,
  admit, poll, turn, run, counted, next_action, established, failed, Action, Rejection,
  no_dialable_endpoint, unsupported_record_type, invalid_peer_id, reject, addresses_of,
}
use rbp.Libp2p.Behaviour.Published.{Base, send-Base, resolve-Base, counted-Base, pushed}

-- nobody waits for a peer that is connected
abbrev pub Apart : Behaviour → Type 0
Apart b =
    (k : List ℕ) (ws : List ℕ) → HashMap.get k b.waiters ≡ some ws → contains b.connected k ≡ false

-- the two halves of the invariant
abbrev pub Inv : Behaviour → Type 0
Inv b = Base b × Apart b

established-Inv :
    (k : List ℕ) (b : Behaviour) → Inv b → Inv (on_swarm_event (connection_established k) b)
unfolding on_swarm_event
established-Inv k b (v, apart) =
    let (base, some_connected, waiters, members) = counted-Base k b v in
    elim (Option-cases (HashMap.get k b.waiters)) [
      | inl nobody ↦
          rw (nobody, established)
            (
              base,
              λ j ws h.
                  let before : HashMap.get j b.waiters ≡ some ws = rw waiters at h in
                  ground (arith, members j, bytes_beq_iff k j, apart j ws before, nobody, before),
            )
      | inr (ws, found) ↦
          let (base', same, rest) = resolve-Base k true (counted k b) (λ h. some_connected) base in
          rw (found, established)
            (
              pushed _ _ base',
              λ j us h.
                  let left : (if k == j then none else HashMap.get j b.waiters) ≡ some us =
                    sym (ap (λ m. if k == j then none else HashMap.get j m) waiters)
                    ∙ sym (rest j)
                    ∙ h in
                  rw same (ground (arith, members j, bytes_beq_iff k j, apart j us, left)),
            )
    ]

closed-Inv :
    (k : List ℕ) (n : ℕ) (b : Behaviour) → Inv b → Inv (on_swarm_event (connection_closed k n) b)
unfolding on_swarm_event
closed-Inv k n b (v, apart) = elim (Bool-cases (n == 0)) [
  | inr more ↦ rw more (v, apart)
  | inl last ↦ elim (Bool-cases (contains b.connected k)) [
    | inr unknown ↦ rw (last, unknown) (v, apart)
    | inl known ↦
        rw (last, known)
          (
            record {
              counts = refl;
              is_set = HashSet.remove-IsHashSet k b.connected v.is_set;
              is_map = v.is_map;
              honest = v.honest;
            },
            λ j ws h.
                ground
                  (arith, HashSet.contains-remove k j b.connected, bytes_beq_iff k j, apart j ws h),
          )
  ]
]

failed-Inv : (k : Option (List ℕ)) (b : Behaviour) → Inv b → Inv (on_swarm_event (dial_failure k) b)
unfolding on_swarm_event
failed-Inv none b v = v
failed-Inv (some k) b (v, apart) = elim (Option-cases (HashMap.get k b.waiters)) [
  | inl nobody ↦ rw (nobody, failed) (v, apart)
  | inr (ws, found) ↦
      let (base, same, rest) = resolve-Base k false b (λ h. absurd (ground arith)) v in
      rw (found, failed)
        (
          pushed _ _ base,
          λ j us h.
              let left : (if k == j then none else HashMap.get j b.waiters) ≡ some us =
                sym (rest j) ∙ h in
              rw same (ground (arith, bytes_beq_iff k j, apart j us, left)),
        )
]

on_swarm_event-Inv : (e : FromSwarm) (b : Behaviour) → Inv b → Inv (on_swarm_event e b)
on_swarm_event-Inv (connection_established k) b v = established-Inv k b v
on_swarm_event-Inv (connection_closed k n) b v = closed-Inv k n b v
on_swarm_event-Inv (dial_failure k) b v = failed-Inv k b v
on_swarm_event-Inv other_event b v = unfold on_swarm_event in v

module _ (from_bytes : List ℕ → Result (List ℕ) String)
    (parse : String → Option (List Protocol)) where
  rejected-Inv : (r : DialRequest) (x : Rejection) (b : Behaviour) → Inv b → Inv (reject r x b)
  rejected-Inv r x b (v, apart) =
      (pushed _ _ (send-Base r.outcome false b (λ h. absurd (ground arith)) v), apart)

  accept_peer-Inv :
      (r : DialRequest) (k : List ℕ) (b : Behaviour)
      → Inv b
      → Inv (accept_peer from_bytes parse r k b)
  unfolding accept_peer push
  accept_peer-Inv r k b (v, apart) = elim (Bool-cases (contains b.connected k)) [
    | inl here ↦ rw here (
      send-Base r.outcome true b
          (λ h. omega (arith, v.counts, HashSet.contains-length k b.connected here)) v,
      apart,
    )
    | inr away ↦ elim (Bool-cases (is_empty (addresses_of from_bytes parse r.peer.endpoints))) [
      | inl none_parsed ↦ rw (away, none_parsed) (rejected-Inv r no_dialable_endpoint b (v, apart))
      | inr some_parsed ↦
          let ws = or_default (HashMap.get k b.waiters) ++ (r.outcome ∷ []) in
          rw (away, some_parsed)
            (
              record {
                counts = v.counts;
                is_set = v.is_set;
                is_map = HashMap.insert-IsMap k ws b.waiters v.is_map;
                honest = v.honest;
              },
              λ j us h.
                  ground
                    (arith, HashMap.get-insert k j ws b.waiters, bytes_beq_iff k j, apart j us),
            )
    ]
  ]

  accept-Inv : (r : DialRequest) (b : Behaviour) → Inv b → Inv (accept from_bytes parse r b)
  unfolding accept
  accept-Inv r b v = elim (Bool-cases (r.peer.record_type == record_type_libp2p)) [
    | inr foreign ↦ rw foreign (rejected-Inv r unsupported_record_type b v)
    | inl libp2p ↦ elim (Result-cases (from_bytes r.peer.peer_id)) [
      | inr (e, bad) ↦ rw (libp2p, bad, accept) (rejected-Inv r invalid_peer_id b v)
      | inl (k, good) ↦ rw (libp2p, good, accept) (accept_peer-Inv r k b v)
    ]
  ]

  admit-Inv : (rs : List DialRequest) (b : Behaviour) → Inv b → Inv (admit from_bytes parse rs b).1
  unfolding admit
  admit-Inv [] b (v, apart) =
      (record { counts = v.counts; is_set = v.is_set; is_map = v.is_map; honest = v.honest }, apart)
  admit-Inv (r ∷ rs) b v =
      let next = accept-Inv r b v in
      elim (List-cases (accept from_bytes parse r b).queue) [
        | inl quiet ↦ rw (quiet, admit) (admit-Inv rs (accept from_bytes parse r b) next)
        | inr (a, q, acts) ↦
            rw (acts, admit)
              (
                record {
                  counts = next.0.counts;
                  is_set = next.0.is_set;
                  is_map = next.0.is_map;
                  honest = next.0.honest;
                },
                next.1,
              )
      ]

  next_action-Inv :
      (q : List Action) (b : Behaviour) → Inv b → Inv (next_action from_bytes parse q b).1
  next_action-Inv [] b v = admit-Inv b.dials b v
  next_action-Inv (a ∷ q) b (v, apart) =
      (record { counts = v.counts; is_set = v.is_set; is_map = v.is_map; honest = v.honest }, apart)

  turn-Inv : (t : Turn) (b : Behaviour) → Inv b → Inv (turn from_bytes parse t b)
  unfolding turn poll
  turn-Inv (requested r) b (v, apart) =
      (record { counts = v.counts; is_set = v.is_set; is_map = v.is_map; honest = v.honest }, apart)
  turn-Inv (reported e) b v = on_swarm_event-Inv e b v
  turn-Inv polled b v = next_action-Inv b.queue b v

  run_from-Inv : (ts : List Turn) (b : Behaviour) → Inv b → Inv (run from_bytes parse ts b)
  unfolding run
  run_from-Inv [] b v = v
  run_from-Inv (t ∷ ts) b v = run_from-Inv ts (turn from_bytes parse t b) (turn-Inv t b v)

  connector-Inv : Inv connector
  unfolding HashMap.get
  connector-Inv = (record { counts = refl; is_set = tt; is_map = tt; honest = tt }, λ k ws h. cc)

  -- After any turns from the start: the published count is the number of connected peers, each of
  -- them entered once; nobody waits for a peer that is connected; and every success that was told,
  -- was told while the count showed a connection.
  pub run-Inv : (ts : List Turn) → Inv (run from_bytes parse ts connector)
  run-Inv ts = run_from-Inv ts connector connector-Inv
