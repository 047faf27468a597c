-- ===== src/Latency.antt =====
-- crates/shmbus/src/latency.rs: the latency histogram.
pub mod Tally
pub mod Samples
pub mod Quantile
pub mod Report
pub mod Display
pub mod Printed
mod Tests
use dummy_benchmark.Base.{
  ℕ, zero, suc, ◌+◌, ◌-◌, ◌/◌, ◌%◌, ◌^◌, max, Bool, true, false, Option, none, some, List, [], ◌∷◌,
  length, get_or, set, replicate, ltb, leb, ◌==◌, if◌then◌else◌, u64_max, add64,
}
use dummy_benchmark.Base.Float.{Float}
use mathlib.Core.Option

-- `BUCKET_BOUNDS_NS`
abbrev pub bucket_bounds : List ℕ
bucket_bounds =
    500 ∷ 1_000 ∷ 2_000 ∷ 5_000 ∷ 10_000 ∷ 20_000 ∷ 50_000 ∷ 100_000 ∷ 200_000 ∷ 500_000 ∷ 1_000_000
    ∷ 2_000_000 ∷ 5_000_000 ∷ 10_000_000 ∷ 20_000_000 ∷ 50_000_000 ∷ 100_000_000 ∷ 200_000_000
    ∷ 500_000_000 ∷ 1_000_000_000 ∷ u64_max ∷ []

pub record LatencyHistogram : Type 0 where
  pub buckets : List ℕ
  pub min_ns : ℕ
  pub max_ns : ℕ
  pub sum_ns : ℕ
  pub count : ℕ

abbrev pub new : LatencyHistogram
new = record { buckets = replicate 21 0; min_ns = u64_max; max_ns = 0; sum_ns = 0; count = 0 }

-- `.iter().position(|&b| latency_ns <= b)`
pub position : ℕ → List ℕ → Option ℕ
position x [] = none
position x (b ∷ bounds) = if leb x b then some 0 else Option.map suc (position x bounds)

-- `.unwrap_or(BUCKET_BOUNDS_NS.len() - 1)`
pub bucket_index : ℕ → ℕ
bucket_index x = Option.get_or (position x bucket_bounds) (length bucket_bounds - 1)

-- `buckets[idx] += 1`
pub bump : List ℕ → ℕ → List ℕ
bump buckets i = set buckets i (add64 (get_or buckets i 0) 1)

unfoldable pub record_sample : LatencyHistogram → ℕ → LatencyHistogram
record_sample h x = record {
  buckets = bump h.buckets (bucket_index x);
  min_ns = if ltb x h.min_ns then x else h.min_ns;
  max_ns = if ltb h.max_ns x then x else h.max_ns;
  sum_ns = (h.sum_ns + x) % 2 ^ 128;
  count = add64 h.count 1;
}

unfoldable pub reset : LatencyHistogram → LatencyHistogram
reset h = new

-- The loop of `quantile`: bounds and buckets side by side, with the running count `cum`.
pub walk : List ℕ → List ℕ → ℕ → ℕ → ℕ → ℕ
walk (bound ∷ bounds) (b ∷ buckets) cum target otherwise =
    let rest = walk bounds buckets (add64 cum b) target otherwise in
    if leb target (add64 cum b) then bound else rest
walk _ _ cum target otherwise = otherwise

pub record Summary : Type 0 where
  pub count : ℕ
  pub min_ns : ℕ
  pub max_ns : ℕ
  pub mean_ns : ℕ
  pub p50_ns : ℕ
  pub p90_ns : ℕ
  pub p99_ns : ℕ
  pub p999_ns : ℕ

module _ (fl : Float) where
  open fl use {F, lit, of_u64, mul, ceil, to_u64}

  -- `(((count as f64) * q).ceil() as u64).max(1)`
  unfoldable pub quantile_target : ℕ → F → ℕ
  quantile_target count q = max (to_u64 (ceil (mul (of_u64 count) q))) 1

  unfoldable pub quantile : LatencyHistogram → F → ℕ
  quantile h q =
      if h.count == 0
      then 0
      else walk bucket_bounds h.buckets 0 (quantile_target h.count q) h.max_ns

  unfoldable pub summary : LatencyHistogram → Summary
  summary h = record {
    count = h.count;
    min_ns = if h.count == 0 then 0 else h.min_ns;
    max_ns = h.max_ns;
    mean_ns = if h.count == 0 then 0 else h.sum_ns / h.count % 2 ^ 64;
    p50_ns = quantile h (lit 50 100);
    p90_ns = quantile h (lit 90 100);
    p99_ns = quantile h (lit 99 100);
    p999_ns = quantile h (lit 999 1000);
  }
