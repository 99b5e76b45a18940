-- ===== src/Libp2p/Behaviour/Dialled.antt =====
-- crates/resurrect-libp2p/src/behaviour.rs: `connect` of the connector, over the turns of the bridge.
use rbp.Prelude.{
  ℕ, ◌≡◌, refl, ap, sym, ◌∙◌, inl, inr, ◌⊎◌, true, false, Option, List, [], ◌∷◌, ◌++◌, String,
  Result, nat_eq, bytes_eq, arith, List-cases, contains, All, All-append,
}
use rbp.Core.PeerRecord.{PeerCandidate}
use rbp.Libp2p.EndpointPolicy.{Protocol}
use rbp.Libp2p.Behaviour.{
  Behaviour, DialRequest, Sent, Action, Turn, requested, reported, polled, connector, accept, admit,
  next_action, poll, turn, run,
}
use rbp.Libp2p.Behaviour.Connector.{received, or_false, connect}
use rbp.Libp2p.Behaviour.Owned.{told, WaitsRight, AsksRight, on_swarm_event-Step, accept-Step}
use rbp.Libp2p.Behaviour.Delivery.{answered, requests, run-known}

module _ (owner : ℕ → List ℕ) (from_bytes : List ℕ → Result (List ℕ) String)
    (parse : String → Option (List Protocol)) where
  -- a turn keeps the waiters and the channel right, and tells a success as a step does
  record Right (v : ℕ) (b b' : Behaviour) : Type 0 where
    waits : WaitsRight owner b'.waiters
    asks : All (AsksRight owner from_bytes) b'.dials
    tells :
        told v b'.sent ≡ true → (told v b.sent ≡ true) ⊎ (contains b'.connected (owner v) ≡ true)

  admit-connected :
      (v : ℕ) (rs : List DialRequest) (b : Behaviour)
      → WaitsRight owner b.waiters
      → All (AsksRight owner from_bytes) rs
      → (admit from_bytes parse rs b).1.connected ≡ b.connected
  unfolding admit
  admit-connected v [] b h asks = refl
  admit-connected v (r ∷ rs) b h asks =
      let (s, same) = accept-Step owner from_bytes parse v r b h asks.0 in
      elim (List-cases (accept from_bytes parse r b).queue) [
        | inl quiet ↦
            rw (quiet, admit)
              (admit-connected v rs (accept from_bytes parse r b) s.waits asks.1 ∙ same)
        | inr (a, q, acts) ↦ rw (acts, admit) same
      ]

  admit-Right :
      (v : ℕ) (rs : List DialRequest) (b : Behaviour)
      → WaitsRight owner b.waiters
      → All (AsksRight owner from_bytes) rs
      → Right v b (admit from_bytes parse rs b).1
  unfolding admit
  admit-Right v [] b h asks = record { waits = h; asks = tt; tells = λ t. inl t }
  admit-Right v (r ∷ rs) b h asks =
      let (s, same) = accept-Step owner from_bytes parse v r b h asks.0 in
      elim (List-cases (accept from_bytes parse r b).queue) [
        | inl quiet ↦
            let next = accept from_bytes parse r b in
            let rest = admit-Right v rs next s.waits asks.1 in
            let linked = admit-connected v rs next s.waits asks.1 in
            rw (quiet, admit)
              (record {
                waits = rest.waits;
                asks = rest.asks;
                tells = λ t. elim (rest.tells t) [
                  | inr later ↦ inr later
                  | inl told_then ↦ elim (s.tells told_then) [
                    | inl before ↦ inl before
                    | inr here ↦ inr (ap (λ l. contains l (owner v)) linked ∙ here)
                  ]
                ];
              })
        | inr (a, q, acts) ↦
            rw (acts, admit) (record { waits = s.waits; asks = asks.1; tells = s.tells })
      ]

  next_action-Right :
      (v : ℕ) (q : List Action) (b : Behaviour)
      → WaitsRight owner b.waiters
      → All (AsksRight owner from_bytes) b.dials
      → Right v b (next_action from_bytes parse q b).1
  next_action-Right v [] b h asks = admit-Right v b.dials b h asks
  next_action-Right v (a ∷ q) b h asks = record { waits = h; asks = asks; tells = λ t. inl t }

  -- the requests among the turns ask for their owners' peers
  abbrev pub TurnAsksRight : Turn → Type 0
  TurnAsksRight (requested r) = AsksRight owner from_bytes r
  TurnAsksRight (reported e) = Unit
  TurnAsksRight polled = Unit

  turn-Right :
      (v : ℕ) (t : Turn) (b : Behaviour)
      → WaitsRight owner b.waiters
      → All (AsksRight owner from_bytes) b.dials
      → TurnAsksRight t
      → Right v b (turn from_bytes parse t b)
  unfolding turn poll
  turn-Right v (requested r) b h asks own = record {
    waits = h;
    asks = All-append (AsksRight owner from_bytes) b.dials (r ∷ []) asks (own, tt);
    tells = λ t. inl t;
  }
  turn-Right v (reported e) b h asks own =
      let s = on_swarm_event-Step owner v e b h in
      record { waits = s.waits; asks = rw s.same_dials asks; tells = s.tells }
  turn-Right v polled b h asks own = next_action-Right v b.queue b h asks

  -- the peer of `v` is connected behind some of the turns
  abbrev pub ConnectedWithin : ℕ → List Turn → Behaviour → Type 0
  ConnectedWithin v ts b =
      (first : List Turn) × (later : List Turn) × (ts ≡ first ++ later)
      × (contains (run from_bytes parse first b).connected (owner v) ≡ true)

  run-Right :
      (v : ℕ) (ts : List Turn) (b : Behaviour)
      → WaitsRight owner b.waiters
      → All (AsksRight owner from_bytes) b.dials
      → All TurnAsksRight ts
      → (WaitsRight owner (run from_bytes parse ts b).waiters)
        × (All (AsksRight owner from_bytes) (run from_bytes parse ts b).dials)
        × (told v (run from_bytes parse ts b).sent ≡ true
            → (told v b.sent ≡ true) ⊎ ConnectedWithin v ts b)
  unfolding run
  run-Right v [] b h asks own = (h, asks, λ t. inl t)
  run-Right v (t ∷ ts) b h asks own =
      let next = turn-Right v t b h asks own.0 in
      let (waits, still, tells) =
        run-Right v ts (turn from_bytes parse t b) next.waits next.asks own.1 in
      (
        waits,
        still,
        λ told_last. elim (tells told_last) [
          | inr (first, later, parts, linked) ↦ inr (t ∷ first, later, ap (◌∷◌ t) parts, linked)
          | inl told_then ↦ elim (next.tells told_then) [
            | inl before ↦ inl before
            | inr linked ↦ inr (t ∷ [], ts, refl, linked)
          ]
        ],
      )

  -- the owner of the request `connect` makes
  received-told : (v : ℕ) (ss : List Sent) → or_false (received v ss) ≡ true → told v ss ≡ true
  unfolding received
  received-told v [] h = absurd (cc)
  received-told v (s ∷ ss) h = ground (arith, received-told v ss)

  told-answered : (v : ℕ) (ss : List Sent) → answered v ss ≡ 0 → told v ss ≡ false
  told-answered v [] h = refl
  told-answered v (s ∷ ss) h = ground (arith, told-answered v ss)

  -- If no sender is used for two peers, a `connect` over a new sender that returns true has seen its
  -- own peer connected: the swarm counts that peer after some of the turns between the call and its
  -- end. A timeout, a rejected request and the answer to another one never look like a success.
  pub connect-connected :
      (before meanwhile : List Turn) (peer : PeerCandidate) (outcome : ℕ) (k : List ℕ)
      → All TurnAsksRight before
      → All TurnAsksRight (requested (record { peer = peer; outcome = outcome }) ∷ meanwhile)
      → requests outcome before ≡ 0
      → owner outcome ≡ k
      → (connect from_bytes parse peer outcome meanwhile (run from_bytes parse before connector)).0
        ≡ true
      → (first : List Turn) × (later : List Turn) × ((requested
              (record { peer = peer; outcome = outcome })
            ∷ meanwhile)
          ≡ first ++ later)
        × (contains (run from_bytes parse first (run from_bytes parse before connector)).connected k
            ≡ true)
  unfolding connect
  connect-connected before meanwhile peer outcome k asked asks fresh mine h =
      let b = run from_bytes parse before connector in
      let (waits, dials, from_start) = run-Right outcome before connector tt tt asked in
      let (_, _, tells) =
        run-Right outcome (requested (record { peer = peer; outcome = outcome }) ∷ meanwhile) b
          waits dials asks in
      let quiet : told outcome b.sent ≡ false =
        told-answered outcome b.sent
          (omega (arith, run-known outcome from_bytes parse before, fresh)) in
      elim (tells (received-told outcome _ h)) [
        | inl earlier ↦ absurd (cc)
        | inr (first, later, parts, linked) ↦ (first, later, parts, rw (sym mine) linked)
      ]
