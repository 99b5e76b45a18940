-- ===== src/Tests/Supervisor.antt =====
-- The theorems about crates/resurrect-node/src/supervisor.rs at concrete inputs.
use rbp.Prelude.{◌/◌, ◌≤◌, some, true, List, [], length, ltb, ok, arith}
use rbp.Core.PeerRecord.{PeerCandidate}
use rbp.Node.Supervisor.{
  Runtime, default_policy, exponential_backoff, backoff_with_jitter, rounds, begin,
  SupervisorPolicy,
}
use rbp.Node.Supervisor.Backoff.{backoff_with_jitter-bounds}
use rbp.Node.Supervisor.Rounds.{Tells, rounds-Tells}
use rbp.Tests.{host, many_wanted}

backoff_with_jitter-bounds_example :
    (exponential_backoff 1000 300_000 9 / 2 ≤ backoff_with_jitter 1000 300_000 9 5)
    × (backoff_with_jitter 1000 300_000 9 5 ≤ exponential_backoff 1000 300_000 9)
    × (backoff_with_jitter 1000 300_000 9 5 ≤ 300_000)
unfolding exponential_backoff
backoff_with_jitter-bounds_example = backoff_with_jitter-bounds 1000 300_000 9 5 (omega arith)

-- a runtime whose state is the list of the dials, that shuts down after some of them
abbrev runtime : Runtime (List PeerCandidate)
runtime = record {
  renewal_due = λ w. true;
  snapshot = λ w. record {
    scans = 0;
    scan_failures = 0;
    logs_processed = 0;
    rejected_records = 0;
    reorgs = 0;
    announcements = 0;
  };
  since_epoch = λ w. some 7;
  random_range = λ n w. (0, w);
  wait_or_shutdown = λ delay w. (ltb 7 (length w), w);
  status_file = some (λ status w. (ok tt, w));
  describe = λ e. "error";
}

abbrev impatient : SupervisorPolicy
impatient = record default_policy { bootstrap = many_wanted }

rounds-Tells_example : Tells (rounds host runtime impatient 5 "peer" 3 (begin []))
rounds-Tells_example = rounds-Tells host runtime impatient 5 "peer" 3 []
