-- ===== src/Latency/Printed.antt =====
-- What a printed summary of crates/shmbus/src/latency.rs says.
use mathlib.Core.List.{append_assoc}
use dummy_benchmark.Base.{
  ℕ, map, ◌≡◌, Option, some, List, [], ◌∷◌, ◌++◌, All, arith, inl, leb, if_elim,
}
use dummy_benchmark.Base.Float.{Float, FloatText}
use dummy_benchmark.Text.{Text, codes, split, split_once, to_string}
use dummy_benchmark.Text.Words.{
  HasNo, HasNo-append, to_string-HasNo, joined, split-eq-joined, split_once-word,
}
use dummy_benchmark.Latency.{Summary}
use dummy_benchmark.Latency.Display.{fmt_ns, display_summary}

-- A word of the line: the key up to `=`, and the value.
pub read_pairs : List Text → List (Option (Text × Text))
read_pairs [] = []
read_pairs (w ∷ ws) = split_once b'=' w ∷ read_pairs ws

module _ (fl : Float) (show : FloatText fl.F) where
  -- The keys of a summary's line with their values.
  pub summary_pairs : Summary → List (Text × Text)
  summary_pairs s =
      (codes "n", to_string s.count)
      ∷ (codes "min", fmt_ns fl show s.min_ns)
      ∷ (codes "p50", fmt_ns fl show s.p50_ns)
      ∷ (codes "p90", fmt_ns fl show s.p90_ns)
      ∷ (codes "p99", fmt_ns fl show s.p99_ns)
      ∷ (codes "p99.9", fmt_ns fl show s.p999_ns)
      ∷ (codes "max", fmt_ns fl show s.max_ns)
      ∷ (codes "mean", fmt_ns fl show s.mean_ns)
      ∷ []

module _ (fl : Float) (show : FloatText fl.F)
    (prints : (x : fl.F) → HasNo b' ' (show.two_digits x)) where
  fmt_ns-HasNo : (ns : ℕ) → HasNo b' ' (fmt_ns fl show ns)
  unfolding fmt_ns
  fmt_ns-HasNo ns =
      if_elim (HasNo b' ') (leb 1_000_000_000 ns)
        (λ _. HasNo-append b' ' _ (codes "s") (prints _) (omega arith))
        (λ _.
          if_elim (HasNo b' ') (leb 1_000_000 ns)
            (λ _. HasNo-append b' ' _ (codes "ms") (prints _) (omega arith))
            (λ _.
              if_elim (HasNo b' ') (leb 1_000 ns)
                (λ _. HasNo-append b' ' _ (0xc2 ∷ 0xb5 ∷ codes "s") (prints _) (omega arith))
                (λ _.
                  HasNo-append b' ' (to_string ns) (codes "ns")
                    (to_string-HasNo b' ' ns (inl (omega arith))) (omega arith))))

  keyed : Text → ℕ → Text
  keyed key ns = key ++ b'=' ∷ fmt_ns fl show ns

  keyed-HasNo : (key : Text) (ns : ℕ) → HasNo b' ' key → HasNo b' ' (keyed key ns)
  unfolding keyed
  keyed-HasNo key ns h = HasNo-append b' ' key _ h (omega arith, fmt_ns-HasNo ns)

  summary_words : Summary → List Text
  unfolding keyed
  summary_words s =
      keyed (codes "min") s.min_ns
      ∷ keyed (codes "p50") s.p50_ns
      ∷ keyed (codes "p90") s.p90_ns
      ∷ keyed (codes "p99") s.p99_ns
      ∷ keyed (codes "p99.9") s.p999_ns
      ∷ keyed (codes "max") s.max_ns
      ∷ keyed (codes "mean") s.mean_ns
      ∷ []

  summary_words-HasNo : (s : Summary) → All (HasNo b' ') (summary_words s)
  unfolding summary_words
  summary_words-HasNo s = (
    keyed-HasNo (codes "min") s.min_ns (omega arith),
    (
      keyed-HasNo (codes "p50") s.p50_ns (omega arith),
      (
        keyed-HasNo (codes "p90") s.p90_ns (omega arith),
        (
          keyed-HasNo (codes "p99") s.p99_ns (omega arith),
          (
            keyed-HasNo (codes "p99.9") s.p999_ns (omega arith),
            (
              keyed-HasNo (codes "max") s.max_ns (omega arith),
              (keyed-HasNo (codes "mean") s.mean_ns (omega arith), tt),
            ),
          ),
        ),
      ),
    ),
  )

  split-display_summary :
      (s : Summary)
      → split b' ' (display_summary fl show s) ≡ (codes "n=" ++ to_string s.count) ∷ summary_words s
  unfolding display_summary summary_words joined
  split-display_summary s =
      split-eq-joined b' ' _ _ _ (simp append_assoc)
        (HasNo-append b' ' (codes "n=") _ (omega arith)
          (to_string-HasNo b' ' s.count (inl (omega arith))))
        (summary_words-HasNo s)

  split_once-keyed :
      (key : Text) (ns : ℕ)
      → HasNo b'=' key
      → split_once b'=' (keyed key ns) ≡ some (key, fmt_ns fl show ns)
  unfolding keyed
  split_once-keyed key ns h = split_once-word b'=' key (fmt_ns fl show ns) h

  -- The line that is printed for a summary is eight words at single spaces, each a key and a value
  -- around its first `=`: the count in full, then each duration as `fmt_ns` prints it, in this order.
  -- The numbers with two digits that `f64` prints have no space.
  pub read_pairs-display_summary :
      (s : Summary)
      → read_pairs (split b' ' (display_summary fl show s)) ≡ map some (summary_pairs fl show s)
  unfolding read_pairs summary_words summary_pairs
  read_pairs-display_summary s = rw (
    split-display_summary s,
    split_once-word b'=' (codes "n") (to_string s.count) (omega arith),
    split_once-keyed (codes "min") s.min_ns (omega arith),
    split_once-keyed (codes "p50") s.p50_ns (omega arith),
    split_once-keyed (codes "p90") s.p90_ns (omega arith),
    split_once-keyed (codes "p99") s.p99_ns (omega arith),
    split_once-keyed (codes "p99.9") s.p999_ns (omega arith),
    split_once-keyed (codes "max") s.max_ns (omega arith),
    split_once-keyed (codes "mean") s.mean_ns (omega arith),
  )
