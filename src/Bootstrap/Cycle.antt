-- ===== src/Bootstrap/Cycle.antt =====
-- crates/resurrect-bootstrap/src/lib.rs: `BootstrapController`. Each stage of `run_cycle` is a
-- definition that takes the transitions so far and goes on with the next stage.
use rbp.Prelude.{
  ℕ, zero, suc, ◌+◌, ◌%◌, Bool, true, false, some, none, List, [], ◌∷◌, ◌++◌, Result, ok, err, ltb,
  leb, ◌==◌, nat_eq, if◌then◌else◌, length, max,
}
use rbp.Core.Namespace.{Namespace}
use rbp.Core.PeerRecord.{PeerCandidate}
use rbp.Bootstrap.{
  Adapters, BootstrapState, start, cache_discovery, native_discovery, resurrect_scan, dialing,
  isolated, announce_self, backoff, connected, BootstrapOutcome, BootstrapPolicy, BootstrapError,
}

abbrev pub connection_target : BootstrapPolicy → ℕ
connection_target policy =
    if policy.minimum_successful_peers == 0 then 1 else policy.minimum_successful_peers

unfoldable pub connected_outcome : List BootstrapState → BootstrapState → BootstrapOutcome
connected_outcome transitions connected_via = record {
  state = connected;
  connected_via = some connected_via;
  announced = false;
  transitions = transitions;
}

-- the list without its entry of index `i`
abbrev pub without {ℓ} : {A : Type ℓ} → ℕ → List A → List A
without i [] = []
without zero (x ∷ xs) = xs
without (suc i) (x ∷ xs) = x ∷ without i xs

module _ {W : Type 0} (host : Adapters W) (policy : BootstrapPolicy) where
  -- `parallel` of `dial_candidates`
  abbrev pub parallel : ℕ
  parallel = max policy.maximum_parallel_dials 1

  -- stands for `buffer_unordered` of the futures crate, as it is documented: waiting dials are started
  -- while fewer than `parallel` are in flight
  unfoldable pub fill :
      List PeerCandidate → List PeerCandidate → W → List PeerCandidate × (List PeerCandidate × W)
  fill in_flight [] w = (in_flight, ([], w))
  fill in_flight (peer ∷ waiting) w =
      let more =
        fill (in_flight ++ (peer ∷ [])) waiting (host.start_dial peer policy.per_dial_timeout w) in
      if ltb (length in_flight) parallel then more else (in_flight, (peer ∷ waiting, w))

  -- the `while dials.next().await.is_some()` loop
  unfoldable pub dial_loop : ℕ → List PeerCandidate → List PeerCandidate → W → Bool × W
  unfolding fill
  dial_loop zero in_flight waiting w = (false, w)
  dial_loop (suc fuel) in_flight waiting w =
      let (flying, (queued, v)) = fill in_flight waiting w in
      let (i, u) = host.next_done flying v in
      let left = without (i % length flying) flying in
      let (n, t) = host.connected_peers u in
      let next = dial_loop fuel left queued t in
      elim flying [
        | [] ↦ (false, v)
        | _ ∷ _ ↦ if leb (connection_target policy) n then (true, host.drop_dials left t) else next
      ]

  unfoldable pub dial_candidates :
      List PeerCandidate
      → List BootstrapState
      → BootstrapState
      → W
      → Bool × (List BootstrapState × W)
  unfolding dial_loop
  dial_candidates [] transitions source w = (false, (transitions, w))
  dial_candidates (peer ∷ peers) transitions source w =
      let dialled = transitions ++ (dialing ∷ []) in
      let (reached, v) = dial_loop (length (peer ∷ peers) + 1) [] (peer ∷ peers) w in
      if reached
      then (true, ((dialled ++ (source ∷ [])) ++ (connected ∷ []), v))
      else (false, (dialled, v))

  -- `if let Ok(peers) = … && self.dial_candidates(…)`
  unfoldable pub attempt :
      BootstrapState
      → List BootstrapState
      → Result (List PeerCandidate) BootstrapError × W
      → Bool × (List BootstrapState × W)
  unfolding dial_candidates
  attempt source transitions (ok peers, w) = dial_candidates peers transitions source w
  attempt source transitions (err _, w) = (false, (transitions, w))

  -- the loop over `add_verified_peer`, whose results are ignored
  unfoldable pub add_all : List PeerCandidate → W → W
  add_all [] w = w
  add_all (peer ∷ peers) w = add_all peers (host.add_verified_peer peer w).1

  unfoldable pub attempt_registry :
      List BootstrapState
      → Result (List PeerCandidate) BootstrapError × W
      → Bool × (List BootstrapState × W)
  unfolding dial_candidates add_all
  attempt_registry transitions (ok peers, w) =
      dial_candidates peers transitions resurrect_scan (add_all peers w)
  attempt_registry transitions (err _, w) = (false, (transitions, w))

  abbrev pub Cycle : Type 0
  Cycle = Result BootstrapOutcome BootstrapError × W

  abbrev pub backoff_outcome : List BootstrapState → Bool → BootstrapOutcome
  backoff_outcome transitions announced = record {
    state = backoff;
    connected_via = none;
    announced = announced;
    transitions = transitions ++ (backoff ∷ []);
  }

  -- `self.publisher.announce(…).await?` and what follows
  abbrev pub published_after : List BootstrapState → Result (Unit {0}) BootstrapError × W → Cycle
  published_after transitions (ok _, w) = (ok (backoff_outcome transitions true), w)
  published_after transitions (err e, w) = (err e, w)

  unfoldable pub from_isolated : List BootstrapState → W → Cycle
  from_isolated before w =
      let transitions = before ++ (isolated ∷ []) in
      if host.eligible w
      then published_after (transitions ++ (announce_self ∷ [])) (host.announce policy.reboot_ttl w)
      else (ok (backoff_outcome transitions false), w)

  -- an early return on success, else the next stage
  abbrev pub or_else :
      BootstrapState → (List BootstrapState → W → Cycle) → Bool × (List BootstrapState × W) → Cycle
  or_else source next (reached, (transitions, w)) =
      if reached then (ok (connected_outcome transitions source), w) else next transitions w

  unfoldable pub from_registry : Namespace → List BootstrapState → W → Cycle
  unfolding attempt_registry from_isolated
  from_registry namespace before w =
      or_else resurrect_scan from_isolated
        (attempt_registry (before ++ (resurrect_scan ∷ [])) (host.registry_discover namespace w))

  unfoldable pub from_native : Namespace → List BootstrapState → W → Cycle
  unfolding attempt from_registry
  from_native namespace before w = or_else native_discovery (from_registry namespace) (
      attempt native_discovery (before ++ (native_discovery ∷ []))
        (host.native_discover namespace w))

  unfoldable pub from_cache : Namespace → List BootstrapState → W → Cycle
  unfolding attempt from_native
  from_cache namespace before w =
      or_else cache_discovery (from_native namespace) (
        attempt cache_discovery (before ++ (cache_discovery ∷ []))
          (host.cache_discover namespace w))

  unfoldable pub run_cycle : Namespace → W → Cycle
  unfolding from_cache
  run_cycle namespace w =
      let (n, v) = host.connected_peers w in
      let go_on = from_cache namespace (start ∷ []) v in
      if leb (connection_target policy) n
      then (ok (connected_outcome ((start ∷ []) ++ (connected ∷ [])) start), v)
      else go_on
