-- ===== src/Report/Balance.antt =====
-- The numbers of the report of a run with workers, crates/trading-engine/src/main.rs.
use dummy_benchmark.Base.{ℕ, ◌+◌, ◌<◌, ◌^◌, ◌≡◌, sym, ap, ◌∙◌, List, length, arith}
use dummy_benchmark.Base.Float.{Float}
use dummy_benchmark.Message.{OrderMsg}
use dummy_benchmark.Ring.{SpscRing}
use dummy_benchmark.Latency.{Summary, summary}
use dummy_benchmark.Engine.Dispatch.{
  Outlet, no_totals, Turn, Dispatcher, dispatch_loop, final_drain,
}
use dummy_benchmark.Engine.Kept.{drain-SameTicks}
use dummy_benchmark.Engine.Accounts.{lost_ticks, dispatch_loop-Accounts}
use dummy_benchmark.Engine.Offered.{
  offered, orders_taken, waiting_orders, orders_taken-le, dispatch_loop-offered, offered-drain,
}
use dummy_benchmark.Report.Engine.{EngineMetrics, engine_metrics}

-- The numbers of a report agree with what the run did: `items` were handed to the workers, `lost` ticks
-- met a closed channel, and `orders` orders were taken from the channel of the workers.
pub record Balances (fl : Float) (r : EngineMetrics fl) (items lost orders : ℕ) : Type 0 where
  pub ticks : r.ticks_consumed ≡ r.ticks_dropped_dispatch + items + lost
  pub transit_samples : r.shm_transit.count ≡ r.ticks_consumed
  pub end_samples : r.end_to_end.count ≡ r.ticks_consumed
  pub orders_are : r.orders_emitted + r.orders_dropped_ring_full ≡ orders

module _ (fl : Float) (n : ℕ) (d : Dispatcher) (ts : List Turn) (ring : SpscRing)
    (left_over : List OrderMsg) (elapsed : fl.F) (workers : List Summary) where
  abbrev pub reported : EngineMetrics fl
  reported = engine_metrics fl (final_drain (dispatch_loop n d ts).1 ring left_over) elapsed workers

  -- The report of a run that starts with empty counters balances: each tick consumed was handed to a
  -- worker, counted as dropped, or is the one at which the loop ended on a closed channel; both latency
  -- summaries have a sample for each; and each order that came from the workers, in the loop or in the
  -- final drain, was emitted or counted as dropped. Neither the rounds nor the orders number 2 ^ 64.
  pub reported-Balances :
      d.totals ≡ no_totals
      → length ts < 2 ^ 64
      → waiting_orders ts + length left_over < 2 ^ 64
      → Balances fl reported
          (length (dispatch_loop n d ts).0)
          (lost_ticks n d ts)
          (orders_taken n d ts + length left_over)
  unfolding engine_metrics final_drain summary
  reported-Balances starts rounds few =
      let d' = (dispatch_loop n d ts).1 in
      let zero_seen : d.totals.ticks_seen ≡ 0 = ap (λ s. s.ticks_seen) starts in
      let zero_dropped : d.totals.ticks_dropped ≡ 0 = ap (λ s. s.ticks_dropped) starts in
      let zero_offered : offered d.totals ≡ 0 = ap (λ s. offered s) starts in
      let a = dispatch_loop-Accounts n d ts (omega arith) (omega arith) (record {
        transit_count = ap (λ s. s.shm_transit.count) starts ∙ sym zero_seen;
        end_count = ap (λ s. s.end_to_end.count) starts ∙ sym zero_seen;
      }) in
      let taken = dispatch_loop-offered n d ts (omega (arith, orders_taken-le n d ts)) in
      let out : Outlet = record { ring = ring; producer = d'.producer } in
      let kept = drain-SameTicks d'.totals out left_over in
      let drained =
        offered-drain d'.totals out left_over (omega (arith, taken, orders_taken-le n d ts)) in
      record {
        ticks = omega (arith, a.balance, kept.seen, kept.dropped);
        transit_samples = ap (λ h. h.count) kept.transit ∙ a.counted.transit_count ∙ sym kept.seen;
        end_samples = ap (λ h. h.count) kept.end_lat ∙ a.counted.end_count ∙ sym kept.seen;
        orders_are = omega (arith, drained, taken);
      }
