-- ===== src/Latency/Tests.antt =====
-- The tests of crates/shmbus/src/latency.rs, and the theorems at concrete samples.
use dummy_benchmark.Base.{ℕ, ◌≤◌, ◌<◌, ◌≡◌, refl, List, [], ◌∷◌, arith, replicate, ◌++◌, map, some}
use dummy_benchmark.Base.Fixed.{fixed}
use dummy_benchmark.Samples.{fixed_text, fixed_text-HasNo}
use dummy_benchmark.Text.{codes, split, to_string}
use dummy_benchmark.Latency.Display.{fmt_ns, display_summary}
use dummy_benchmark.Latency.Printed.{read_pairs, summary_pairs, read_pairs-display_summary}
use dummy_benchmark.Latency.{
  Summary, record_sample, position, bucket_index, bump, walk, quantile_target, quantile, summary,
  bucket_bounds,
}
use dummy_benchmark.Latency.Samples.{record_all, highest, Summarises, record_all-Summarises}
use dummy_benchmark.Latency.Quantile.{IsLeastBound, quantile_least}

-- `records_min_max_count`, newest first
abbrev three : List ℕ
three = 800 ∷ 2_000 ∷ 100 ∷ []

records_min_max_count : summary fixed (record_all three) ≡ record {
  count = 3;
  min_ns = 100;
  max_ns = 2_000;
  mean_ns = 966;
  p50_ns = 1_000;
  p90_ns = 2_000;
  p99_ns = 2_000;
  p999_ns = 2_000;
}
unfolding record_all record_sample bucket_index position bump summary quantile quantile_target walk
records_min_max_count = refl

-- `quantiles_land_in_correct_bucket`
quantiles_land_in_correct_bucket :
    let r = summary fixed (record_all (40_000 ∷ replicate 99 900)) in
    (r.p50_ns ≡ 1_000) × (r.p90_ns ≡ 1_000) × (r.p99_ns ≡ 1_000) × (r.p999_ns ≡ 50_000)
unfolding record_all record_sample bucket_index position bump summary quantile quantile_target walk
quantiles_land_in_correct_bucket = (refl, refl, refl, refl)

record_all-Summarises_example : Summarises (record_all three) three
record_all-Summarises_example = record_all-Summarises three (omega arith) (omega arith)

quantile_least_example :
    let t = quantile_target fixed 3 (fixed.lit 50 100) in
    (t ≤ 3
      → IsLeastBound t three bucket_bounds (quantile fixed (record_all three) (fixed.lit 50 100)))
    × (3 < t → quantile fixed (record_all three) (fixed.lit 50 100) ≡ highest three)
quantile_least_example =
    quantile_least fixed (fixed.lit 50 100) three (omega arith) (omega arith) (omega arith)

printed_durations :
    (fmt_ns fixed fixed_text 999 ≡ codes "999ns")
    × (fmt_ns fixed fixed_text 1_500 ≡ codes "1.50" ++ 0xc2 ∷ 0xb5 ∷ codes "s")
    × (fmt_ns fixed fixed_text 20_000_000 ≡ codes "20.00ms")
unfolding fmt_ns to_string
printed_durations = (refl, refl, refl)

abbrev three_samples : Summary
three_samples = record {
  count = 3;
  min_ns = 100;
  max_ns = 2_000;
  mean_ns = 966;
  p50_ns = 1_000;
  p90_ns = 2_000;
  p99_ns = 2_000;
  p999_ns = 2_000;
}

read_pairs-display_summary_example :
    read_pairs (split b' ' (display_summary fixed fixed_text three_samples))
    ≡ map some (summary_pairs fixed fixed_text three_samples)
read_pairs-display_summary_example =
    read_pairs-display_summary fixed fixed_text (λ x. (fixed_text-HasNo x).1) three_samples
