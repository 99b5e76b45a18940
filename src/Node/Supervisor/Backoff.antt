-- ===== src/Node/Supervisor/Backoff.antt =====
-- crates/resurrect-node/src/supervisor.rs: the delays between isolated cycles.
use native.Mathlib.Nat.{pow-succ'}
use rbp.Prelude.{ℕ, ◌+◌, ◌*◌, ◌/◌, ◌^◌, ◌≤◌, ◌<◌, ◌≡◌, min, refl, ap, ◌∙◌, arith}
use rbp.Node.Supervisor.{duration_max, exponential_backoff, jitter_window, backoff_with_jitter}

-- For every number that may be drawn, the delay is at least half of the exponential backoff (rounded
-- down), at most the whole of it, and at most the policy's maximum.
pub backoff_with_jitter-bounds :
    (initial maximum attempt drawn : ℕ)
    → drawn ≤ jitter_window (exponential_backoff initial maximum attempt)
    → (exponential_backoff initial maximum attempt / 2
        ≤ backoff_with_jitter initial maximum attempt drawn)
      × (backoff_with_jitter initial maximum attempt drawn
          ≤ exponential_backoff initial maximum attempt)
      × (backoff_with_jitter initial maximum attempt drawn ≤ maximum)
unfolding backoff_with_jitter exponential_backoff
backoff_with_jitter-bounds initial maximum attempt drawn h = omega arith

factor-suc :
    (initial attempt : ℕ)
    → attempt < 20
    → initial * 2 ^ min (attempt + 1) 20 ≡ 2 * (initial * 2 ^ min attempt 20)
factor-suc initial attempt h =
    let here : min attempt 20 ≡ attempt = omega arith in
    let next : min (attempt + 1) 20 ≡ attempt + 1 = omega arith in
    let doubled : 2 ^ (attempt + 1) ≡ 2 * 2 ^ attempt =
      ap (λ n. 2 ^ n) (omega arith) ∙ pow-succ' 2 attempt in
    rw (here, next, doubled) (grind arith)

-- The first delay is the initial one, and each of the next twenty twice the one before, all of them
-- cut off at the maximum; from then on it stays.
pub exponential_backoff-doubles :
    (initial maximum attempt : ℕ)
    → maximum ≤ duration_max
    → (exponential_backoff initial maximum 0 ≡ min initial maximum)
      × (attempt < 20
          → exponential_backoff initial maximum (attempt + 1)
            ≡ min (2 * exponential_backoff initial maximum attempt) maximum)
      × (20 ≤ attempt
          → exponential_backoff initial maximum attempt ≡ exponential_backoff initial maximum 20)
unfolding exponential_backoff
exponential_backoff-doubles initial maximum attempt h = (
  omega arith,
  λ few. omega (arith, factor-suc initial attempt few),
  λ many. let all : min attempt 20 ≡ 20 = omega arith in rw all refl,
)
