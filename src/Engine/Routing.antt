-- ===== src/Engine/Routing.antt =====
-- The routing of symbols to workers, the idle counter and the cooldown's subtraction of
-- crates/trading-engine/src/main.rs.
use dummy_benchmark.Base.{ℕ, zero, suc, ◌+◌, ◌-◌, ◌≤◌, ◌<◌, ◌^◌, ◌≡◌, refl, false, arith, min}
use dummy_benchmark.Base.Bytes.{Bytes}
use dummy_benchmark.Engine.{route, idle_backoff, spin_loop, yield_now, sleep, cools_down}

-- The hash is a `u64`, and the worker that it picks exists.
pub route-lt : (s : Bytes) (n : ℕ) → 0 < n → route s n < n
unfolding route
route-lt s n some_worker = omega arith

-- The calls of `idle_backoff` since the counter was reset.
unfoldable pub idle_after : ℕ → ℕ
idle_after zero = 0
idle_after (suc k) = (idle_backoff (idle_after k)).0

-- After `k` idle rounds the counter is `k`, stopped at the largest `u32`: it does not wrap around
-- and start spinning again, and the next round spins below 64 rounds, yields below 1024 and sleeps
-- from there on.
pub idle_backoff-stage :
    (k : ℕ)
    → (idle_after k ≡ min k (2 ^ 32 - 1))
      × (k + 1 < 64 → (idle_backoff (idle_after k)).1 ≡ spin_loop)
      × (64 ≤ k + 1 → k + 1 < 1024 → (idle_backoff (idle_after k)).1 ≡ yield_now)
      × (1024 ≤ k + 1 → (idle_backoff (idle_after k)).1 ≡ sleep)
unfolding idle_after idle_backoff
idle_backoff-stage zero = (refl, λ h. refl, λ h k. ground arith, λ h. ground arith)
idle_backoff-stage (suc k) =
    let so_far = (idle_backoff-stage k).0 in
    (
      ground (arith, so_far),
      λ h. ground (arith, so_far),
      λ h k. ground (arith, so_far),
      λ h. ground (arith, so_far),
    )

-- A clock that stands behind the last order's time stamp by `back` nanoseconds makes the
-- subtraction wrap around: the order is not kept back, unless the cooldown is longer than 2 ^ 64 -
-- `back`.
pub cools_down_backwards :
    (now back cooldown : ℕ)
    → 0 < back
    → now + back < 2 ^ 64
    → cooldown + back ≤ 2 ^ 64
    → cools_down now (now + back) cooldown ≡ false
unfolding cools_down
cools_down_backwards now back cooldown some_back fits short = ground arith
