-- ===== src/Health/Backoff.antt =====
-- crates/core/src/health.rs, `mark_cooldown`: the length of the cooldown windows.
use native.Mathlib.Nat.{pow-le-pow_right}
use chenni_x_api.Prelude.Tests.{ltb, if◌then◌else◌}
use chenni_x_api.Prelude.{ℕ, ◌+◌, ◌^◌, ◌≤◌, min, ◌≡◌, ap, arith}
use chenni_x_api.Health.{backoff_secs, max_cooldown_secs}

two_to-le : (i j : ℕ) → i ≤ j → 2 ^ i ≤ 2 ^ j
two_to-le i j h = pow-le-pow_right {n = 2} (omega arith) {i = i} {j = j} h

-- The window doubles with every failure in a row, from two seconds, until the eleventh failure,
-- and from then on it is the cap of 1800 seconds.
backoff_secs-eq : (n : ℕ) → backoff_secs n ≡ (if ltb n 11 then 2 ^ n else max_cooldown_secs)
unfolding backoff_secs
backoff_secs-eq n =
    ground (arith, two_to-le (min n 31) 10, two_to-le 11 (min n 31), ap (λ k. 2 ^ k) capped)
  where
    capped : min (min n 31) 31 ≡ min n 31
    capped = omega arith

-- A longer streak never gives a shorter window; no window is longer than the cap, and none after a
-- failure is shorter than two seconds.
pub backoff_secs_mono :
    (m n : ℕ)
    → m ≤ n
    → (backoff_secs m ≤ backoff_secs n)
      × (backoff_secs n ≤ max_cooldown_secs)
      × (2 ≤ backoff_secs (m + 1))
unfolding backoff_secs
backoff_secs_mono m n h = (
  omega (arith, two_to-le (min m 31) (min n 31) (omega arith)),
  omega arith,
  omega (arith, two_to-le 1 (min (m + 1) 31) (omega arith)),
)
