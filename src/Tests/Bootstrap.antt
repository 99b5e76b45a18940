-- ===== src/Tests/Bootstrap.antt =====
-- The theorems about crates/resurrect-bootstrap at concrete inputs.
use rbp.Prelude.{◌≡◌, refl, [], ◌∷◌, false}
use rbp.Bootstrap.{start, resurrect_scan, default_policy}
use rbp.Bootstrap.Cycle.{fill, dial_loop, dial_candidates, run_cycle}
use rbp.Bootstrap.Dialing.{dial_candidates-dialled}
use rbp.Bootstrap.Transitions.{Ends, run_cycle-Ends}
use rbp.Bootstrap.Outcomes.{forgiving, run_cycle-forgiving}
use rbp.Tests.{host, many_wanted, peer_a, peer_b}

run_cycle-Ends_example : Ends host default_policy (run_cycle host default_policy 5 [])
run_cycle-Ends_example = run_cycle-Ends host default_policy 5 []

run_cycle-forgiving_example :
    run_cycle (forgiving host) default_policy 5 [] ≡ run_cycle host default_policy 5 []
run_cycle-forgiving_example = run_cycle-forgiving host default_policy 5 []

missed :
    (dial_candidates host many_wanted (peer_a ∷ peer_b ∷ []) (start ∷ []) resurrect_scan []).0
    ≡ false
unfolding dial_candidates dial_loop fill
missed = refl

dial_candidates-dialled_example :
    (dial_candidates host many_wanted (peer_a ∷ peer_b ∷ []) (start ∷ []) resurrect_scan []).1.1
    ≡ peer_a ∷ peer_b ∷ []
dial_candidates-dialled_example =
    dial_candidates-dialled host many_wanted (λ w. w) (λ p w. refl) (λ l w. refl) (λ w. refl)
      (peer_a ∷ peer_b ∷ []) (start ∷ []) resurrect_scan [] missed
