-- ===== src/Libp2p/Behaviour/Owned.antt =====
-- crates/resurrect-libp2p/src/behaviour.rs: a success is told only to those who asked for a connected
-- peer.
use rbp.Prelude.{
  ℕ, ◌≡◌, refl, ap, sym, ◌∙◌, inl, inr, ◌⊎◌, Bool, true, false, ◌&&◌, ◌||◌, Option, none, some,
  List, [], ◌∷◌, ◌++◌, String, Result, ok, nat_eq, bytes_eq, ◌==◌, arith, Bool-cases, Option-cases,
  Result-cases, contains, All, All-append, bytes_beq_iff, is_empty,
}
use rbp.Prelude.HashMap
use rbp.Prelude.HashMap.{HashMap}
use rbp.Prelude.HashSet
use rbp.Prelude.Waiters.{push, or_default}
use rbp.Core.PeerRecord.{record_type_libp2p}
use rbp.Libp2p.EndpointPolicy.{Protocol}
use rbp.Libp2p.Behaviour.{
  Behaviour, DialRequest, Sent, Action, FromSwarm, connection_established, connection_closed,
  dial_failure, other_event, send, send_all, resolve, counted, on_swarm_event, accept_peer, accept,
  addresses_of, push_back, reject, Rejection, unsupported_record_type, invalid_peer_id,
  no_dialable_endpoint, established, closed, failed,
}

-- a success was sent through `v`
abbrev pub told : ℕ → List Sent → Bool
told v [] = false
told v (s ∷ ss) = (s.outcome == v && s.dialed) || told v ss

told-append : (v : ℕ) (ss ts : List Sent) → told v (ss ++ ts) ≡ (told v ss || told v ts)
told-append v [] ts = refl
told-append v (s ∷ ss) ts = ground (arith, told-append v ss ts)

module _ (owner : ℕ → List ℕ) where
  -- those who wait for a peer have asked for it
  abbrev pub WaitsRight : HashMap (List ℕ) (List ℕ) → Type 0
  WaitsRight [] = Unit
  WaitsRight ((k, ws) ∷ m) = (All (λ w. owner w ≡ k) ws) × WaitsRight m

  get-WaitsRight :
      (k : List ℕ) (ws : List ℕ) (m : HashMap (List ℕ) (List ℕ))
      → WaitsRight m
      → HashMap.get k m ≡ some ws
      → All (λ w. owner w ≡ k) ws
  unfolding HashMap.get
  get-WaitsRight k ws [] h found = absurd (cc)
  get-WaitsRight k ws ((j, vs) ∷ m) h found = elim (Bool-cases (j == k)) [
    | inl same ↦
        let it : j ≡ k = (bytes_beq_iff j k).0 same in
        let here : vs ≡ ws = ground arith in rw (sym it, sym here) h.0
    | inr other ↦ get-WaitsRight k ws m h.1 (ground arith)
  ]

  remove-WaitsRight :
      (k : List ℕ) (m : HashMap (List ℕ) (List ℕ)) → WaitsRight m → WaitsRight (HashMap.remove k m)
  unfolding HashMap.remove
  remove-WaitsRight k [] h = tt
  remove-WaitsRight k ((j, vs) ∷ m) h = elim (Bool-cases (j == k)) [
    | inl same ↦ rw same h.1
    | inr other ↦ rw other (h.0, remove-WaitsRight k m h.1)
  ]

  insert-WaitsRight :
      (k ws : List ℕ) (m : HashMap (List ℕ) (List ℕ))
      → WaitsRight m
      → All (λ w. owner w ≡ k) ws
      → WaitsRight (HashMap.insert k ws m)
  unfolding HashMap.insert
  insert-WaitsRight k ws [] h new = (new, tt)
  insert-WaitsRight k ws ((j, vs) ∷ m) h new = elim (Bool-cases (j == k)) [
    | inl same ↦ rw same (new, h.1)
    | inr other ↦ rw other (h.0, insert-WaitsRight k ws m h.1 new)
  ]

  told-send :
      (v : ℕ) (k : List ℕ) (w : ℕ) (dialed : Bool) (b : Behaviour)
      → owner w ≡ k
      → told v (send w dialed b).sent ≡ true
      → (told v b.sent ≡ true) ⊎ ((dialed ≡ true) × (owner v ≡ k))
  told-send v k w dialed b h t = elim (Bool-cases (told v b.sent)) [
    | inl before ↦ inl before
    | inr new ↦
        let last : told v
              (b.sent ++ ((record { outcome = w; dialed = dialed; visible = b.connectivity }) ∷ []))
            ≡ true =
          t in
        let here : (w == v && dialed) ≡ true = ground (
          arith,
          told-append v b.sent
              ((record { outcome = w; dialed = dialed; visible = b.connectivity }) ∷ []),
        ) in
        let mine : w ≡ v = ground arith in inr (ground arith, ap owner (sym mine) ∙ h)
  ]

  told-send_all :
      (v : ℕ) (k ws : List ℕ) (dialed : Bool) (b : Behaviour)
      → All (λ w. owner w ≡ k) ws
      → ((send_all ws dialed b).waiters ≡ b.waiters)
        × ((send_all ws dialed b).connected ≡ b.connected)
        × ((send_all ws dialed b).dials ≡ b.dials)
        × (told v (send_all ws dialed b).sent ≡ true
            → (told v b.sent ≡ true) ⊎ ((dialed ≡ true) × (owner v ≡ k)))
  unfolding send_all
  told-send_all v k [] dialed b h = (refl, refl, refl, λ t. inl t)
  told-send_all v k (w ∷ ws) dialed b h =
      let (waiters, linked, asked, tells) = told-send_all v k ws dialed (send w dialed b) h.1 in
      (
        waiters,
        linked,
        asked,
        λ t. elim (tells t) [
          | inl before ↦ told-send v k w dialed b h.0 before
          | inr later ↦ inr later
        ],
      )

  -- a request asks for its owner's peer, if it names one
  abbrev pub AsksRight : (List ℕ → Result (List ℕ) String) → DialRequest → Type 0
  AsksRight from_bytes r = (k : List ℕ) → from_bytes r.peer.peer_id ≡ ok k → owner r.outcome ≡ k

  -- a step that keeps the waiters right, and tells a success only to those whose peer is connected
  pub record Step (v : ℕ) (b b' : Behaviour) : Type 0 where
    pub waits : WaitsRight b'.waiters
    pub same_dials : b'.dials ≡ b.dials
    pub tells :
        told v b'.sent ≡ true → (told v b.sent ≡ true) ⊎ (contains b'.connected (owner v) ≡ true)

  nothing : (v : ℕ) (b : Behaviour) → WaitsRight b.waiters → Step v b b
  nothing v b h = record { waits = h; same_dials = refl; tells = λ t. inl t }

  pushed-Step : (v : ℕ) (a : Action) (b b' : Behaviour) → Step v b b' → Step v b (push_back a b')
  pushed-Step v a b b' s = record { waits = s.waits; same_dials = s.same_dials; tells = s.tells }

  resolve-Step :
      (v : ℕ) (k : List ℕ) (dialed : Bool) (b : Behaviour)
      → WaitsRight b.waiters
      → (dialed ≡ true → contains b.connected k ≡ true)
      → Step v b (resolve k dialed b)
  unfolding resolve
  resolve-Step v k dialed b h may = elim (Option-cases (HashMap.get k b.waiters)) [
    | inl nobody ↦ rw (nobody, resolve) (nothing v b h)
    | inr (ws, found) ↦
        let cleared : Behaviour = record b { waiters = HashMap.remove k b.waiters } in
        let (waiters, linked, asked, tells) =
          told-send_all v k ws dialed cleared (get-WaitsRight k ws b.waiters h found) in
        rw (found, resolve)
          (record {
            waits = rw waiters (remove-WaitsRight k b.waiters h);
            same_dials = asked;
            tells = λ t. elim (tells t) [
              | inl before ↦ inl before
              | inr (success, mine) ↦ inr (rw (linked, mine) (may success))
            ];
          })
  ]

  counted-connected :
      (k : List ℕ) (b : Behaviour)
      → (contains (counted k b).connected k ≡ true)
        × ((counted k b).waiters ≡ b.waiters)
        × ((counted k b).sent ≡ b.sent)
        × ((counted k b).dials ≡ b.dials)
  counted-connected k b = elim (Bool-cases (contains b.connected k)) [
    | inl old ↦ rw old (old, refl, refl, refl)
    | inr new ↦ rw new (
      ground (arith, HashSet.contains-insert k k b.connected, bytes_beq_iff k k),
      refl,
      refl,
      refl,
    )
  ]

  counted-Step : (v : ℕ) (k : List ℕ) (b b' : Behaviour) → Step v (counted k b) b' → Step v b b'
  counted-Step v k b b' s =
      let (there, waiters, sent, dials) = counted-connected k b in
      record {
        waits = s.waits;
        same_dials = s.same_dials ∙ dials;
        tells = λ t. elim (s.tells t) [
          | inl before ↦ inl (ap (told v) (sym sent) ∙ before)
          | inr later ↦ inr later
        ];
      }

  pub on_swarm_event-Step :
      (v : ℕ) (e : FromSwarm) (b : Behaviour) → WaitsRight b.waiters → Step v b (on_swarm_event e b)
  unfolding on_swarm_event
  on_swarm_event-Step v (connection_established k) b h =
      let (there, waiters, sent, dials) = counted-connected k b in
      let kept : WaitsRight (counted k b).waiters = rw waiters h in
      elim (Option-cases (HashMap.get k b.waiters)) [
        | inl nobody ↦
            rw (nobody, established)
              (counted-Step v k b (counted k b) (nothing v (counted k b) kept))
        | inr (ws, found) ↦
            rw (found, established)
              (pushed-Step v _ b (resolve k true (counted k b))
                (counted-Step v k b _ (resolve-Step v k true (counted k b) kept (λ t. there))))
      ]
  on_swarm_event-Step v (connection_closed k n) b h = elim (Bool-cases (n == 0)) [
    | inr open_still ↦ rw (open_still, closed) (nothing v b h)
    | inl last ↦ elim (Bool-cases (contains b.connected k)) [
      | inl linked ↦
          rw (last, linked, closed) (record { waits = h; same_dials = refl; tells = λ t. inl t })
      | inr unlinked ↦ rw (last, unlinked, closed) (nothing v b h)
    ]
  ]
  on_swarm_event-Step v (dial_failure none) b h = nothing v b h
  on_swarm_event-Step v (dial_failure (some k)) b h =
      elim (Option-cases (HashMap.get k b.waiters)) [
        | inl nobody ↦ rw (nobody, failed) (nothing v b h)
        | inr (ws, found) ↦
            rw (found, failed)
              (pushed-Step v _ b (resolve k false b)
                (resolve-Step v k false b h (λ t. absurd (cc))))
      ]
  on_swarm_event-Step v other_event b h = nothing v b h

  waiting-WaitsRight :
      (k : List ℕ) (m : HashMap (List ℕ) (List ℕ))
      → WaitsRight m
      → All (λ w. owner w ≡ k) (or_default (HashMap.get k m))
  waiting-WaitsRight k m h = elim (Option-cases (HashMap.get k m)) [
    | inl nobody ↦ rw nobody tt
    | inr (ws, found) ↦ rw found (get-WaitsRight k ws m h found)
  ]

  push-WaitsRight :
      (k : List ℕ) (w : ℕ) (m : HashMap (List ℕ) (List ℕ))
      → WaitsRight m
      → owner w ≡ k
      → WaitsRight (push k w m)
  unfolding push
  push-WaitsRight k w m h mine =
      insert-WaitsRight k _ m h
        (All-append (λ v. owner v ≡ k) _ (w ∷ []) (waiting-WaitsRight k m h) (mine, tt))

  rejected-Step :
      (v : ℕ) (r : DialRequest) (rejection : Rejection) (b : Behaviour)
      → WaitsRight b.waiters
      → Step v b (reject r rejection b)
  rejected-Step v r rejection b h = record {
    waits = h;
    same_dials = refl;
    tells = λ t. elim (told-send v (owner r.outcome) r.outcome false b refl t) [
      | inl before ↦ inl before
      | inr (success, mine) ↦ absurd (cc)
    ];
  }

  module _ (from_bytes : List ℕ → Result (List ℕ) String)
      (parse : String → Option (List Protocol)) where
    accept_peer-Step :
        (v : ℕ) (r : DialRequest) (k : List ℕ) (b : Behaviour)
        → WaitsRight b.waiters
        → owner r.outcome ≡ k
        → Step v b (accept_peer from_bytes parse r k b)
          × ((accept_peer from_bytes parse r k b).connected ≡ b.connected)
    unfolding accept_peer
    accept_peer-Step v r k b h mine = elim (Bool-cases (contains b.connected k)) [
      | inl here ↦ rw here (
        record {
          waits = h;
          same_dials = refl;
          tells = λ t. elim (told-send v k r.outcome true b mine t) [
            | inl before ↦ inl before
            | inr (success, own) ↦ inr (rw own here)
          ];
        },
        refl,
      )
      | inr away ↦ elim (Bool-cases (is_empty (addresses_of from_bytes parse r.peer.endpoints))) [
        | inl none_parsed ↦
            rw (away, none_parsed) (rejected-Step v r no_dialable_endpoint b h, refl)
        | inr some_parsed ↦
            rw (away, some_parsed)
              (
                record {
                  waits = push-WaitsRight k r.outcome b.waiters h mine;
                  same_dials = refl;
                  tells = λ t. inl t;
                },
                refl,
              )
      ]
    ]

    pub accept-Step :
        (v : ℕ) (r : DialRequest) (b : Behaviour)
        → WaitsRight b.waiters
        → AsksRight from_bytes r
        → Step v b (accept from_bytes parse r b)
          × ((accept from_bytes parse r b).connected ≡ b.connected)
    unfolding accept
    accept-Step v r b h asks = elim (Bool-cases (r.peer.record_type == record_type_libp2p)) [
      | inr foreign ↦ rw foreign (rejected-Step v r unsupported_record_type b h, refl)
      | inl libp2p ↦ elim (Result-cases (from_bytes r.peer.peer_id)) [
        | inr (e, bad) ↦ rw (libp2p, bad, accept) (rejected-Step v r invalid_peer_id b h, refl)
        | inl (k, good) ↦ rw (libp2p, good, accept) (accept_peer-Step v r k b h (asks k good))
      ]
    ]
