-- ===== src/Latency/Display.antt =====
-- How crates/shmbus/src/latency.rs prints durations and summaries, as the bytes of the text.
use dummy_benchmark.Base.{ℕ, ◌∷◌, ◌++◌, leb, if◌then◌else◌}
use dummy_benchmark.Base.Float.{Float, FloatText}
use dummy_benchmark.Text.{Text, codes, to_string}
use dummy_benchmark.Latency.{Summary}

module _ (fl : Float) (show : FloatText fl.F) where
  open fl use {lit, of_u64, div}

  -- `fmt_ns`; the sign of the micro takes two bytes.
  unfoldable pub fmt_ns : ℕ → Text
  fmt_ns ns =
      if leb 1_000_000_000 ns
      then show.two_digits (div (of_u64 ns) (lit 1_000_000_000 1)) ++ codes "s"
      else if leb 1_000_000 ns
      then show.two_digits (div (of_u64 ns) (lit 1_000_000 1)) ++ codes "ms"
      else if leb 1_000 ns
      then show.two_digits (div (of_u64 ns) (lit 1_000 1)) ++ 0xc2 ∷ 0xb5 ∷ codes "s"
      else to_string ns ++ codes "ns"

  -- `fmt` of a summary.
  unfoldable pub display_summary : Summary → Text
  display_summary s =
      codes "n="
      ++ (to_string s.count
          ++ (codes " min="
              ++ (fmt_ns s.min_ns
                  ++ (codes " p50="
                      ++ (fmt_ns s.p50_ns
                          ++ (codes " p90="
                              ++ (fmt_ns s.p90_ns
                                  ++ (codes " p99="
                                      ++ (fmt_ns s.p99_ns
                                          ++ (codes " p99.9="
                                              ++ (fmt_ns s.p999_ns
                                                  ++ (codes " max="
                                                      ++ (fmt_ns s.max_ns
                                                          ++ (codes " mean="
                                                            ++ fmt_ns s.mean_ns))))))))))))))
