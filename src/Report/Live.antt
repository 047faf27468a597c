-- ===== src/Report/Live.antt =====
-- What the loops of crates/trading-engine/src/main.rs and crates/feedhandler/src/main.rs print every two
-- seconds, a text for each line.
use dummy_benchmark.Base.{
  ℕ, ◌≡◌, Bool, Option, none, some, List, [], ◌∷◌, ◌++◌, ltb, leb, ◌==◌, if◌then◌else◌, length,
  arith,
}
use dummy_benchmark.Base.Float.{Float, FloatText}
use dummy_benchmark.Text.{Text, codes, to_string}
use dummy_benchmark.Latency.{LatencyHistogram, summary}
use dummy_benchmark.Latency.Display.{display_summary}
use dummy_benchmark.Engine.Dispatch.{Totals}
use dummy_benchmark.Engine.Rounds.{IsCounted}
use dummy_benchmark.Feedhandler.{Counters}

-- `last_report.elapsed() >= Duration::from_secs(2)`, in nanoseconds
unfoldable pub report_due : ℕ → Bool
report_due elapsed = leb 2_000_000_000 elapsed

module _ (fl : Float) (show : FloatText fl.F) where
  -- The line of a histogram that has a sample.
  unfoldable pub histogram_line : Text → Option LatencyHistogram → List Text
  histogram_line title none = []
  histogram_line title (some h) =
      if ltb 0 h.count then (title ++ display_summary fl show (summary fl h)) ∷ [] else []

  unfoldable pub report_live :
      ℕ → ℕ → ℕ → Option LatencyHistogram → Option LatencyHistogram → List Text
  unfolding histogram_line
  report_live ticks orders pending shm_transit end_to_end =
      (codes "trading-engine: stats ticks="
        ++ (to_string ticks
            ++ (codes " orders="
                ++ (to_string orders ++ (codes " pending=" ++ to_string pending)))))
      ∷ (histogram_line (codes "trading-engine: shm-transit  ") shm_transit
          ++ histogram_line (codes "trading-engine: end-to-end   ") end_to_end)

  -- The feed handler's lines.
  unfoldable pub feed_stats : Counters → ℕ → List Text
  unfolding histogram_line
  feed_stats s order_count =
      (codes "feedhandler: stats ticks_published="
        ++ (to_string s.recv_count
            ++ (codes " drops="
                ++ (to_string s.publish_drops
                    ++ (codes " bad="
                        ++ (to_string s.bad_packets
                            ++ (codes " orders_seen=" ++ to_string order_count)))))))
      ∷ histogram_line (codes "feedhandler: wire-latency ") (some s.wire_lat)

  -- What both loops of the engine pass on.
  abbrev pub report_totals : Totals → ℕ → List Text
  report_totals s pending =
      report_live s.ticks_seen s.orders_sent pending (some s.shm_transit) (some s.end_to_end)

  -- The engine's live report has its first line alone as long as no tick has been seen, and then the
  -- lines of both histograms.
  pub report_totals-lines :
      (s : Totals) (pending : ℕ)
      → IsCounted s
      → length (report_totals s pending) ≡ (if s.ticks_seen == 0 then 1 else 3)
  unfolding report_live
  report_totals-lines s pending h = rw (histogram_line, h.transit_count, h.end_count) (ground arith)
