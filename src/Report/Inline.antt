-- ===== src/Report/Inline.antt =====
-- The report of a run without workers: `run_inline` of crates/trading-engine/src/main.rs calls
-- `finalise_report` with no drops at the dispatch and no workers.
use dummy_benchmark.Base.{
  ℕ, ◌<◌, ◌^◌, ◌≡◌, refl, ap, sym, ◌∙◌, Option, none, some, List, [], ◌∷◌, length, arith, if_elim,
  Option-cases, inl, inr,
}
use dummy_benchmark.Base.Float.{Float}
use dummy_benchmark.Message.{MarketTick, OrderMsg}
use dummy_benchmark.Latency.{summary}
use dummy_benchmark.Engine.{Params, try_publish_order}
use dummy_benchmark.Engine.Dispatch.{
  Totals, no_totals, Outlet, Inlet, offer_order, see_tick, take_tick,
}
use dummy_benchmark.Engine.Rounds.{IsCounted, see_tick-IsCounted}
use dummy_benchmark.Engine.Inline.{offer_any, Inline, inline_tick, inline_round}
use dummy_benchmark.Engine.InlineRun.{
  InlineTurn, attach, inline_turn, inline_loop, events_read, inline_loop-HasRun,
}
use dummy_benchmark.Engine.Offered.{offered}
use dummy_benchmark.Engine.Orders.{run_strategy}
use dummy_benchmark.Report.Engine.{EngineMetrics, engine_metrics}
use dummy_benchmark.Report.Balance.{Balances}

offer_order-IsCounted :
    (s : Totals) (out : Outlet) (o : OrderMsg) → IsCounted s → IsCounted (offer_order s out o).0
unfolding offer_order
offer_order-IsCounted s out o h =
    if_elim IsCounted (try_publish_order out.ring out.producer o).0
      (λ _. record { transit_count = h.transit_count; end_count = h.end_count })
      (λ _. record { transit_count = h.transit_count; end_count = h.end_count })

offer_any-IsCounted :
    (s : Totals) (out : Outlet) (o : Option OrderMsg)
    → IsCounted s
    → IsCounted (offer_any s out o).0
unfolding offer_any
offer_any-IsCounted s out none h = h
offer_any-IsCounted s out (some o) h = offer_order-IsCounted s out o h

module _ (fl : Float) (p : Params fl) where
  inline_tick-IsCounted :
      (e : Inline fl p) (i : Inlet) (tick : MarketTick) (consume_ts now : ℕ)
      → IsCounted e.totals
      → IsCounted (inline_tick fl p e i tick consume_ts now).totals
  unfolding inline_tick
  inline_tick-IsCounted e i tick consume_ts now h =
      offer_any-IsCounted (see_tick e.totals tick consume_ts) e.outlet _
        (see_tick-IsCounted e.totals tick consume_ts h)

  inline_turn-IsCounted :
      (e : Inline fl p) (t : InlineTurn)
      → IsCounted e.totals
      → IsCounted (inline_turn fl p e t).totals
  unfolding inline_turn attach inline_round
  inline_turn-IsCounted e t h = elim (Option-cases (take_tick (attach fl p e t).inlet).0) [
    | inl empty ↦ rw (inline_round, empty) h
    | inr (tick, got) ↦
        rw (inline_round, got) (inline_tick-IsCounted (attach fl p e t) _ tick t.consume_ts t.now h)
  ]

  inline_loop-IsCounted :
      (e : Inline fl p) (ts : List InlineTurn)
      → IsCounted e.totals
      → IsCounted (inline_loop fl p e ts).totals
  unfolding inline_loop
  inline_loop-IsCounted e [] h = h
  inline_loop-IsCounted e (t ∷ ts) h =
      if_elim (λ (e' : Inline fl p). IsCounted e'.totals) t.stopped (λ _. h)
        (λ _. inline_loop-IsCounted (inline_turn fl p e t) ts (inline_turn-IsCounted e t h))

  -- What `run_inline` gives to `finalise_report` when its loop has left `e`.
  unfoldable pub inline_metrics : Inline fl p → fl.F → EngineMetrics fl
  inline_metrics e elapsed = engine_metrics fl (record e.totals { ticks_dropped = 0 }) elapsed []

  -- The report of an inline run that starts with empty counters agrees with the strategy's run over the
  -- ticks that were read: it has that many ticks and latency samples, no drop at the dispatch, and each
  -- order of the run is in it once, as emitted or as dropped. The rounds do not number 2 ^ 64.
  pub inline_metrics-Balances :
      (e : Inline fl p) (ts : List InlineTurn) (elapsed : fl.F)
      → e.totals ≡ no_totals
      → length ts < 2 ^ 64
      → let es = events_read fl p e ts in
        let r = inline_metrics (inline_loop fl p e ts) elapsed in
        (r.ticks_dropped_dispatch ≡ 0)
        × Balances fl r (length es) 0 (length (run_strategy fl p e.state e.next_order_id es).0)
  unfolding inline_metrics engine_metrics summary
  inline_metrics-Balances e ts elapsed starts rounds =
      let zero_seen : e.totals.ticks_seen ≡ 0 = ap (λ s. s.ticks_seen) starts in
      let zero_offered : offered e.totals ≡ 0 = ap (λ s. offered s) starts in
      let h = inline_loop-HasRun fl p e ts (omega arith) (omega arith) in
      let c = inline_loop-IsCounted e ts (record {
        transit_count = ap (λ s. s.shm_transit.count) starts ∙ sym zero_seen;
        end_count = ap (λ s. s.end_to_end.count) starts ∙ sym zero_seen;
      }) in
      (
        refl,
        record {
          ticks = omega (arith, h.seen);
          transit_samples = c.transit_count;
          end_samples = c.end_count;
          orders_are = omega (arith, h.all_offered);
        },
      )
