-- ===== src/Latency/Report.antt =====
-- The summary of crates/shmbus/src/latency.rs in terms of the samples.
use dummy_benchmark.Base.{ℕ, ◌*◌, ◌/◌, ◌^◌, ◌≤◌, ◌<◌, ◌≡◌, List, [], ◌∷◌, length, arith}
use native.Mathlib.Nat.{mod-eq_of_lt, div-le_of_le-mul, le-div_iff_mul-le}
use dummy_benchmark.Base.Float.{Float}
use dummy_benchmark.Latency.{summary}
use dummy_benchmark.Latency.Samples.{
  AreWords, record_all, record_all-Summarises, lowest, highest, total,
}

total-lowest : (xs : List ℕ) → lowest xs * length xs ≤ total xs
unfolding lowest total
total-lowest [] = omega arith
total-lowest (x ∷ xs) = grind (arith, total-lowest xs)

total-highest : (xs : List ℕ) → total xs ≤ length xs * highest xs
unfolding highest total
total-highest [] = omega arith
total-highest (x ∷ xs) = grind (arith, total-highest xs)

highest-le : (xs : List ℕ) → AreWords xs → highest xs < 2 ^ 64
unfolding highest
highest-le [] w = omega arith
highest-le (x ∷ xs) w = omega (arith, highest-le xs w.1)

mean_lowest : (xs : List ℕ) → 0 < length xs → lowest xs ≤ total xs / length xs
mean_lowest xs h = (le-div_iff_mul-le h).1 (total-lowest xs)

mean_highest : (xs : List ℕ) → total xs / length xs ≤ highest xs
mean_highest xs = div-le_of_le-mul (length xs) (total-highest xs)

-- The summary of at least one sample gives their number, the smallest, the largest and the rounded
-- mean, and the mean lies between the two.
pub summary_samples :
    (fl : Float) (xs : List ℕ)
    → AreWords xs
    → length xs < 2 ^ 64
    → 0 < length xs
    → let r = summary fl (record_all xs) in
      (r.count ≡ length xs)
      × (r.min_ns ≡ lowest xs)
      × (r.max_ns ≡ highest xs)
      × (r.mean_ns ≡ total xs / length xs)
      × (r.min_ns ≤ r.mean_ns)
      × (r.mean_ns ≤ r.max_ns)
unfolding summary
summary_samples fl xs words room ne =
    let s = record_all-Summarises xs words room in
    ground (
      arith,
      s.counted,
      s.summed,
      s.min_at,
      s.max_at,
      mean_lowest xs ne,
      mean_highest xs,
      highest-le xs words,
      mod-eq_of_lt {n = total xs / length xs} {m = 2 ^ 64},
    )
