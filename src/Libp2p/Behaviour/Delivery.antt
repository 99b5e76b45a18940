-- ===== src/Libp2p/Behaviour/Delivery.antt =====
-- crates/resurrect-libp2p/src/behaviour.rs: no dial request is lost or answered twice.
use rbp.Prelude.{
  ℕ, ◌+◌, ◌≡◌, refl, inl, inr, ap, Bool, true, false, Option, none, some, List, [], ◌∷◌, ◌++◌,
  String, Result, nat_eq, bytes_eq, ◌==◌, if◌then◌else◌, arith, Bool-cases, Option-cases,
  List-cases, Result-cases, contains,
}
use rbp.Prelude.HashMap
use rbp.Prelude.Waiters.{count, waiting, waiting-push, waiting-remove, or_default}
use rbp.Libp2p.EndpointPolicy.{Protocol}
use rbp.Libp2p.Behaviour.{
  Behaviour, DialRequest, Sent, Action, FromSwarm, connection_established, connection_closed,
  dial_failure, other_event, Turn, requested, reported, polled, connector, send, send_all, resolve,
  on_swarm_event, accept_peer, accept, admit, poll, turn, run, counted, next_action,
}

-- how often `v` is in the channel, and how often it has been answered
abbrev pub asked : ℕ → List DialRequest → ℕ
asked v [] = 0
asked v (r ∷ rs) = (if r.outcome == v then 1 else 0) + asked v rs

abbrev pub answered : ℕ → List Sent → ℕ
answered v [] = 0
answered v (s ∷ ss) = (if s.outcome == v then 1 else 0) + answered v ss

asked-append : (v : ℕ) (rs ss : List DialRequest) → asked v (rs ++ ss) ≡ asked v rs + asked v ss
asked-append v [] ss = omega arith
asked-append v (r ∷ rs) ss = omega (arith, asked-append v rs ss)

answered-append :
    (v : ℕ) (ss ts : List Sent) → answered v (ss ++ ts) ≡ answered v ss + answered v ts
answered-append v [] ts = omega arith
answered-append v (s ∷ ss) ts = omega (arith, answered-append v ss ts)

-- what became of the requests with the sender `v`, outside the channel and in all
abbrev settled : ℕ → Behaviour → ℕ
settled v b = waiting v b.waiters + answered v b.sent

abbrev pub known : ℕ → Behaviour → ℕ
known v b = asked v b.dials + settled v b

-- the requests with the sender `v` among some turns
abbrev pub requests : ℕ → List Turn → ℕ
requests v [] = 0
requests v (requested r ∷ ts) = (if r.outcome == v then 1 else 0) + requests v ts
requests v (reported e ∷ ts) = requests v ts
requests v (polled ∷ ts) = requests v ts

module _ (v : ℕ) where
  settled-send :
      (w : ℕ) (dialed : Bool) (b : Behaviour)
      → settled v (send w dialed b) ≡ settled v b + count v (w ∷ [])
  settled-send w dialed b = omega (arith, answered-append v b.sent _)

  settled-send_all :
      (ws : List ℕ) (dialed : Bool) (b : Behaviour)
      → (settled v (send_all ws dialed b) ≡ settled v b + count v ws)
        × ((send_all ws dialed b).dials ≡ b.dials)
  unfolding send_all
  settled-send_all [] dialed b = (omega arith, refl)
  settled-send_all (w ∷ ws) dialed b =
      let (rest, same) = settled-send_all ws dialed (send w dialed b) in
      (omega (arith, rest, settled-send w dialed b), same)

  settled-resolve :
      (k : List ℕ) (dialed : Bool) (b : Behaviour)
      → (settled v (resolve k dialed b) ≡ settled v b) × ((resolve k dialed b).dials ≡ b.dials)
  unfolding resolve
  settled-resolve k dialed b = elim (Option-cases (HashMap.get k b.waiters)) [
    | inl nobody ↦ rw (nobody, resolve) (refl, refl)
    | inr (ws, found) ↦
        let (rest, same) =
          settled-send_all ws dialed (record b { waiters = HashMap.remove k b.waiters }) in
        rw (found, resolve)
          (
            omega (
              arith,
              rest,
              waiting-remove v k b.waiters,
              ap (λ (o : Option (List ℕ)). count v (or_default o)) found,
            ),
            same,
          )
  ]

  known-on_swarm_event : (e : FromSwarm) (b : Behaviour) → known v (on_swarm_event e b) ≡ known v b
  unfolding on_swarm_event
  known-on_swarm_event (connection_established k) b = elim (Bool-cases (contains b.connected k)) [
    | inl old ↦ ground (arith, settled-resolve k true b)
    | inr new ↦ ground (arith, settled-resolve k true (counted k b))
  ]
  known-on_swarm_event (connection_closed k n) b = ground arith
  known-on_swarm_event (dial_failure none) b = refl
  known-on_swarm_event (dial_failure (some k)) b = ground (arith, settled-resolve k false b)
  known-on_swarm_event other_event b = refl

  requests-cons :
      (t : Turn) (ts : List Turn) → requests v (t ∷ ts) ≡ requests v (t ∷ []) + requests v ts
  requests-cons (requested r) ts = omega arith
  requests-cons (reported e) ts = omega arith
  requests-cons polled ts = omega arith

  module _ (from_bytes : List ℕ → Result (List ℕ) String)
      (parse : String → Option (List Protocol)) where
    settled-accept :
        (r : DialRequest) (b : Behaviour)
        → (settled v (accept from_bytes parse r b) ≡ settled v b + count v (r.outcome ∷ []))
          × ((accept from_bytes parse r b).dials ≡ b.dials)
    unfolding accept accept_peer
    settled-accept r b = elim (Result-cases (from_bytes r.peer.peer_id)) [
      | inr (e, bad) ↦ ground (arith, bad, settled-send r.outcome false b)
      | inl (k, good) ↦ ground (
        arith,
        good,
        settled-send r.outcome false b,
        settled-send r.outcome true b,
        waiting-push v r.outcome k b.waiters,
      )
    ]

    known-admit :
        (rs : List DialRequest) (b : Behaviour)
        → known v (admit from_bytes parse rs b).1 ≡ asked v rs + settled v b
    unfolding admit
    known-admit [] b = omega arith
    known-admit (r ∷ rs) b =
        let (one, same) = settled-accept r b in
        elim (List-cases (accept from_bytes parse r b).queue) [
          | inl quiet ↦
              rw (quiet, admit) (omega (arith, one, known-admit rs (accept from_bytes parse r b)))
          | inr (a, q, acts) ↦ rw (acts, admit) (omega (arith, one))
        ]

    known-next_action :
        (q : List Action) (b : Behaviour) → known v (next_action from_bytes parse q b).1 ≡ known v b
    known-next_action [] b = known-admit b.dials b
    known-next_action (a ∷ q) b = refl

    known-turn :
        (t : Turn) (b : Behaviour)
        → known v (turn from_bytes parse t b) ≡ known v b + requests v (t ∷ [])
    unfolding turn poll
    known-turn (requested r) b = omega (arith, asked-append v b.dials (r ∷ []))
    known-turn (reported e) b = omega (arith, known-on_swarm_event e b)
    known-turn polled b = omega (arith, known-next_action b.queue b)

    known-run :
        (ts : List Turn) (b : Behaviour)
        → known v (run from_bytes parse ts b) ≡ known v b + requests v ts
    unfolding run
    known-run [] b = omega arith
    known-run (t ∷ ts) b =
        omega (arith, known-run ts (turn from_bytes parse t b), known-turn t b, requests-cons t ts)

    -- After any turns from the start, what was asked through a sender is still in the channel, waits
    -- for its peer, or has been answered, each request exactly once: none is lost and none is
    -- answered twice.
    pub run-known : (ts : List Turn) → known v (run from_bytes parse ts connector) ≡ requests v ts
    run-known ts = omega (arith, known-run ts connector)
