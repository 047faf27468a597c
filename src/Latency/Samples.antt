-- ===== src/Latency/Samples.antt =====
-- The histogram of crates/shmbus/src/latency.rs against the samples that went into it.
use dummy_benchmark.Base.{
  some, ℕ, ◌+◌, ◌*◌, ◌^◌, ◌≤◌, ◌<◌, ◌≡◌, refl, min, max, List, [], ◌∷◌, length, arith, u64_max,
}
use dummy_benchmark.Latency.{
  LatencyHistogram, new, record_sample, bucket_bounds, bucket_index, position,
}
use dummy_benchmark.Latency.Tally.{Tallied, Tallied-bump, position-found, count_le}

-- Samples are listed newest first.
unfoldable pub record_all : List ℕ → LatencyHistogram
record_all [] = new
record_all (x ∷ xs) = record_sample (record_all xs) x

-- Every sample is a `u64`.
abbrev pub AreWords : List ℕ → Type 0
AreWords [] = Unit
AreWords (x ∷ xs) = (x ≤ u64_max) × AreWords xs

unfoldable pub lowest : List ℕ → ℕ
lowest [] = u64_max
lowest (x ∷ xs) = min x (lowest xs)

unfoldable pub highest : List ℕ → ℕ
highest [] = 0
highest (x ∷ xs) = max x (highest xs)

unfoldable pub total : List ℕ → ℕ
total [] = 0
total (x ∷ xs) = x + total xs

pub total-le : (xs : List ℕ) → AreWords xs → total xs ≤ length xs * u64_max
unfolding total
total-le [] w = omega arith
total-le (x ∷ xs) w = omega (arith, total-le xs w.1)

pub record Summarises (h : LatencyHistogram) (xs : List ℕ) : Type 0 where
  pub counted : h.count ≡ length xs
  pub summed : h.sum_ns ≡ total xs
  pub min_at : h.min_ns ≡ lowest xs
  pub max_at : h.max_ns ≡ highest xs
  pub tallied : Tallied xs 0 bucket_bounds h.buckets

new-Summarises : Summarises new []
unfolding lowest highest total count_le
new-Summarises = record {
  counted = refl;
  summed = refl;
  min_at = refl;
  max_at = refl;
  tallied = omega arith;
}

bucket_index-position : (x : ℕ) → x ≤ u64_max → position x bucket_bounds ≡ some (bucket_index x)
unfolding bucket_index
bucket_index-position x h = let (i, e) = position-found x bucket_bounds (λ q. cc) h in rw e

record_sample-Summarises :
    {h : LatencyHistogram} (x : ℕ) (xs : List ℕ)
    → x ≤ u64_max
    → AreWords xs
    → length xs + 1 < 2 ^ 64
    → Summarises h xs
    → Summarises (record_sample h x) (x ∷ xs)
unfolding record_sample lowest highest total
record_sample-Summarises {h} x xs word words room s = record {
  counted = omega (arith, s.counted);
  summed = omega (arith, s.summed, total-le xs words);
  min_at = ground (arith, s.min_at);
  max_at = ground (arith, s.max_at);
  tallied =
      Tallied-bump x xs 0 (bucket_index x) bucket_bounds h.buckets (omega arith) room
        (bucket_index-position x word) s.tallied;
}

-- After any samples, fewer than 2 ^ 64, the fields are their number, sum, minimum and maximum, and
-- the buckets up to each bound count the samples that do not exceed it.
pub record_all-Summarises :
    (xs : List ℕ) → AreWords xs → length xs < 2 ^ 64 → Summarises (record_all xs) xs
unfolding record_all
record_all-Summarises [] words room = new-Summarises
record_all-Summarises (x ∷ xs) words room =
    record_sample-Summarises x xs words.0 words.1 (omega arith)
      (record_all-Summarises xs words.1 (omega arith))
