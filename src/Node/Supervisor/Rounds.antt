-- ===== src/Node/Supervisor/Rounds.antt =====
-- crates/resurrect-node/src/supervisor.rs: what the rounds report, and what they count.
use rbp.Prelude.{
  ℕ, zero, suc, ◌+◌, ◌≡◌, ◌⊎◌, refl, inl, inr, sym, ap, min, Bool, true, false, Option, none, some,
  List, [], ◌∷◌, String, Result, ok, err, leb, Bool-cases, Option-cases, All,
}
use rbp.Prelude.Words.{u32_max}
use rbp.Core.Namespace.{Namespace}
use rbp.Bootstrap.{Adapters, BootstrapOutcome, BootstrapState, BootstrapError, connected, backoff}
use rbp.Bootstrap.Transitions.{Run, Ends, run_cycle-Ends}
use rbp.Node.Supervisor.{
  SupervisorPolicy, connection_target, NodeStatus, SupervisorError, Runtime, Progress, Next, go_on,
  finished, publish_status, wait, waited, renew, healthy_status, settle, jitter_window,
  exponential_backoff, healthy_round, back_off, after_status, or_before, status_of, report,
  failed_outcome, cycled, round, rounds, begin, written,
}

-- the cycles that ended in backoff since the last status that was connected, up to u32::MAX
abbrev pub backoffs_after : BootstrapState → ℕ → ℕ
backoffs_after connected n = 0
backoffs_after state n = min (n + 1) u32_max

abbrev pub backoffs : List NodeStatus → ℕ
backoffs [] = 0
backoffs (s ∷ rest) = backoffs_after s.state (backoffs rest)

-- a status tells of a healthy round, or of a cycle that connected or backed off along the steps of
-- `Bootstrap.Transitions`, or of one that failed
abbrev pub IsReport : NodeStatus → Type 0
IsReport s =
    ((s.state ≡ connected)
      × ((s.transitions ≡ connected ∷ [])
          ⊎ ((during : Option BootstrapState) × Run s.transitions during connected)))
    ⊎ ((s.state ≡ backoff)
        × (s.connected_via ≡ none)
        × ((s.transitions ≡ backoff ∷ []) ⊎ Run s.transitions none backoff))

module _ {W : Type 0} where
  abbrev pub Counts : Progress W → Type 0
  Counts p = (p.attempts ≡ backoffs p.published) × All IsReport p.published

  -- after a round that goes on, and after the last one
  abbrev pub Tells : Next W → Type 0
  Tells (go_on p) = Counts p
  Tells (finished result p) = All IsReport p.published

  Next-cases :
      (n : Next W)
      → ((p : Progress W) × (n ≡ go_on p))
        ⊎ ((r : Result (Unit {0}) SupervisorError) × (p : Progress W) × (n ≡ finished r p))
  Next-cases (go_on p) = inl (p, refl)
  Next-cases (finished r p) = inr (r, p, refl)

module _ {W : Type 0} (host : Adapters W) (runtime : Runtime W) (policy : SupervisorPolicy)
    (namespace : Namespace) (peer_id : String) where
  publish_status-Tells :
      (s : NodeStatus) (next : Progress W → Next W) (p : Progress W)
      → IsReport s
      → All IsReport p.published
      → ((w : W) → Tells (next (record p { published = s ∷ p.published; world = w })))
      → Tells (publish_status host runtime policy namespace peer_id s next p)
  unfolding publish_status
  publish_status-Tells s next p it before then = elim (Option-cases runtime.status_file) [
    | inl nowhere ↦ rw (nowhere, publish_status) (then p.world)
    | inr (write, file) ↦ rw (file, publish_status) (go (write s p.world))
  ]
    where
      go :
          (r : Result (Unit {0}) SupervisorError × W)
          → Tells (
              written host runtime policy namespace peer_id r next
                (record p { published = s ∷ p.published }))
      go (ok u, w) = then w
      go (err e, w) = (it, before)

  waited-Tells :
      (r : Bool × W) (p : Progress W)
      → Counts p
      → Tells (waited host runtime policy namespace peer_id r p)
  waited-Tells (true, w) p c = c.1
  waited-Tells (false, w) p c = c

  healthy_round-Tells :
      (n : ℕ) (p : Progress W)
      → Counts p
      → Tells (healthy_round host runtime policy namespace peer_id n p)
  unfolding healthy_round
  healthy_round-Tells n p c =
      let renewal = renew host runtime policy namespace peer_id p.world in
      let s = healthy_status host runtime policy namespace peer_id n p.last_connected_via renewal in
      let it : IsReport s = inl (refl, inl refl) in
      publish_status-Tells s
        (wait host runtime policy namespace peer_id policy.connected_poll_interval)
        (settle host runtime policy namespace peer_id renewal.1 p) it c.1
        (λ w.
          waited-Tells (runtime.wait_or_shutdown policy.connected_poll_interval w)
            (record p { attempts = 0; published = s ∷ p.published; world = w }) (refl, (it, c.1)))

  back_off-Tells :
      (q : Progress W)
      → backoffs q.published ≡ min (q.attempts + 1) u32_max
      → All IsReport q.published
      → Tells (back_off host runtime policy namespace peer_id q)
  back_off-Tells q h rs =
      waited-Tells _
        (record q {
          attempts = min (q.attempts + 1) u32_max;
          world =
              (runtime.random_range
                (jitter_window
                  (exponential_backoff policy.initial_backoff policy.maximum_backoff q.attempts))
                q.world).1;
        })
        (sym h, rs)

  after_status-Tells :
      (state : BootstrapState) (q : Progress W)
      → backoffs q.published ≡ backoffs_after state q.attempts
      → All IsReport q.published
      → Tells (after_status host runtime policy namespace peer_id state q)
  after_status-Tells connected q h rs = (sym h, rs)
  after_status-Tells state q h rs = back_off-Tells q h rs

  report-Tells :
      (o : BootstrapOutcome) (e : Option String) (r : ℕ × W) (p : Progress W)
      → IsReport (status_of host runtime policy namespace peer_id o e r)
      → Counts p
      → Tells (report host runtime policy namespace peer_id o e r p)
  report-Tells o e (n, w) p it c =
      let s = status_of host runtime policy namespace peer_id o e (n, w) in
      publish_status-Tells s (after_status host runtime policy namespace peer_id o.state)
        (record p { world = w }) it c.1
        (λ v.
          after_status-Tells o.state (record p { published = s ∷ p.published; world = v })
            (ap (λ m. backoffs_after o.state m) (sym c.0)) (it, c.1))

  cycled-Tells :
      (r : Result BootstrapOutcome BootstrapError × W) (p : Progress W)
      → Ends host policy.bootstrap r
      → Counts p
      → Tells (cycled host runtime policy namespace peer_id r p)
  unfolding cycled
  cycled-Tells (err e, w) p ends c =
      report-Tells (failed_outcome host runtime policy namespace peer_id) _ (host.connected_peers w)
        p (inr (refl, refl, inl refl)) c
  cycled-Tells (ok o, w) p ends c =
      report-Tells o none (host.connected_peers w)
        (record p {
          last_connected_via =
              or_before host runtime policy namespace peer_id o.connected_via p.last_connected_via;
        })
        (elim ends [
          | inl on ↦ elim on.via [
            | inl (via, path, seen) ↦ inl (on.state, inr (none, path))
            | inr (s, source, via, path, reached) ↦ inl (on.state, inr (some s, path))
          ]
          | inr off ↦ inr (off.state, off.connected_via, inr off.path)
        ])
        c

  round-Tells : (p : Progress W) → Counts p → Tells (round host runtime policy namespace peer_id p)
  unfolding round
  round-Tells p c =
      let (n, w) = host.connected_peers p.world in
      let q = record p { world = w } in
      elim (Bool-cases (leb (connection_target policy.bootstrap) n)) [
        | inl enough ↦ rw enough (healthy_round-Tells n q c)
        | inr few ↦ rw few (cycled-Tells _ q (run_cycle-Ends host policy.bootstrap namespace w) c)
      ]

  rounds_from-Tells :
      (fuel : ℕ) (p : Progress W)
      → Counts p
      → Tells (rounds host runtime policy namespace peer_id fuel p)
  unfolding rounds
  rounds_from-Tells zero p c = c
  rounds_from-Tells (suc fuel) p c =
      let told = round-Tells p c in
      elim (Next-cases (round host runtime policy namespace peer_id p)) [
        | inl (q, on) ↦ rw (on, rounds) (rounds_from-Tells fuel q (rw on at told))
        | inr (r, q, ended) ↦ rw (ended, rounds) (rw ended at told)
      ]

  -- After any number of rounds, every status that was handed to `publish_status`, with a status file
  -- or without, is that of a healthy round, of a cycle that connected or backed off along the steps
  -- that `transitions` records, or of a failed cycle; one that backs off names no source. While the
  -- rounds go on, the attempts are the backoffs since the last connected status, counted up to
  -- u32::MAX.
  pub rounds-Tells :
      (fuel : ℕ) (w : W) → Tells (rounds host runtime policy namespace peer_id fuel (begin w))
  rounds-Tells fuel w = rounds_from-Tells fuel (begin w) (refl, tt)
