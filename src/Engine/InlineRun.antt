-- ===== src/Engine/InlineRun.antt =====
-- crates/trading-engine/src/main.rs: the whole loop of `run_inline`.
use mathlib.Core.Option
use dummy_benchmark.Base.{
  ℕ, ◌+◌, ◌≤◌, ◌<◌, ◌^◌, ◌≡◌, refl, ap, ◌∙◌, Bool, true, false, Option, none, some, List, [], ◌∷◌,
  ap₂, arith, length, if◌then◌else◌, Option-cases, inl, inr,
}
use dummy_benchmark.Base.Float.{Float}
use dummy_benchmark.Message.{MarketTick}
use dummy_benchmark.Ring.{SpscRing}
use dummy_benchmark.Engine.{Params, idle_backoff, strategy_step}
use dummy_benchmark.Engine.Dispatch.{Totals, take_tick}
use dummy_benchmark.Engine.Inline.{
  Inline, inline_tick, inline_round, inline_round-none, inline_round-some,
}
use dummy_benchmark.Engine.Orders.{Event, keep_order, run_strategy}
use dummy_benchmark.Engine.Offered.{
  length-keep_order, length-keep_none, offered, inline_tick-offered, inline_tick-seen,
}

-- What the loop finds at the start of a round: whether the stop flag or the deadline ends it, the rings
-- as the other process has left them, and the clock at its two reads.
pub record InlineTurn : Type 0 where
  pub stopped : Bool
  pub tick_ring : SpscRing
  pub order_ring : SpscRing
  pub consume_ts : ℕ
  pub now : ℕ

unfoldable pub keep_event : Option Event → List Event → List Event
keep_event none es = es
keep_event (some e) es = e ∷ es

module _ (fl : Float) (p : Params fl) where
  -- The loop's state with the rings as the other process has left them.
  unfoldable pub attach : Inline fl p → InlineTurn → Inline fl p
  attach e t = record e {
    inlet = record e.inlet { ring = t.tick_ring };
    outlet = record e.outlet { ring = t.order_ring };
  }

  unfoldable pub inline_turn : Inline fl p → InlineTurn → Inline fl p
  unfolding attach
  inline_turn e t = inline_round fl p (attach e t) t.consume_ts t.now

  -- The loop of `run_inline`.
  unfoldable pub inline_loop : Inline fl p → List InlineTurn → Inline fl p
  unfolding inline_turn
  inline_loop e [] = e
  inline_loop e (t ∷ ts) =
      let rest = inline_loop (inline_turn e t) ts in if t.stopped then e else rest

  -- The tick that a round reads, with the clock of its step.
  event_at : Inline fl p → InlineTurn → Option Event
  event_at e t =
      Option.map (λ tick. record { tick = tick; now = t.now }) (take_tick (attach e t).inlet).0

  -- The ticks that the loop reads, the oldest first.
  pub events_read : Inline fl p → List InlineTurn → List Event
  events_read e [] = []
  events_read e (t ∷ ts) =
      let rest = events_read (inline_turn e t) ts in
      if t.stopped then [] else keep_event (event_at e t) rest

  -- The loop has gone from `e` to `e'` as the strategy goes over the ticks `es`.
  pub record HasRun (e : Inline fl p) (es : List Event) (e' : Inline fl p) : Type 0 where
    pub state_is : e'.state ≡ (run_strategy fl p e.state e.next_order_id es).1
    pub id_is : e'.next_order_id ≡ (run_strategy fl p e.state e.next_order_id es).2
    pub seen : e'.totals.ticks_seen ≡ e.totals.ticks_seen + length es
    pub all_offered :
        offered e'.totals
        ≡ offered e.totals + length (run_strategy fl p e.state e.next_order_id es).0

  stays-HasRun : (e : Inline fl p) → HasRun e [] e
  unfolding run_strategy
  stays-HasRun e = record {
    state_is = refl;
    id_is = refl;
    seen = omega arith;
    all_offered = omega arith;
  }

  module _ (e e1 e' : Inline fl p) (es : List Event) (h : HasRun e1 es e') where
    HasRun-quiet :
        e1.state ≡ e.state
        → e1.next_order_id ≡ e.next_order_id
        → e1.totals ≡ e.totals
        → HasRun e es e'
    HasRun-quiet hs hi ht =
        let run = ap₂ (λ s i. run_strategy fl p s i es) hs hi in
        record {
          state_is = h.state_is ∙ ap (λ r. r.1) run;
          id_is = h.id_is ∙ ap (λ r. r.2) run;
          seen = omega (arith, h.seen, ap (λ (s : Totals). s.ticks_seen) ht);
          all_offered =
              omega
                (arith, h.all_offered, ap (λ (s : Totals). offered s) ht, ap (λ r. length r.0) run);
        }

    HasRun-step :
        (v : Event)
        → let (r, state') = strategy_step fl p v.tick e.state e.next_order_id v.now in
          e1.state ≡ state'
          → e1.next_order_id ≡ r.next_order_id
          → e1.totals.ticks_seen ≡ e.totals.ticks_seen + 1
          → offered e1.totals ≡ offered e.totals + length (keep_order r.order [])
          → HasRun e (v ∷ es) e'
    unfolding run_strategy
    HasRun-step v hs hi ht ho =
        let run = ap₂ (λ s i. run_strategy fl p s i es) hs hi in
        record {
          state_is = h.state_is ∙ ap (λ r. r.1) run;
          id_is = h.id_is ∙ ap (λ r. r.2) run;
          seen = omega (arith, h.seen, ht);
          all_offered = omega (
            arith,
            h.all_offered,
            ho,
            ap (λ r. length r.0) run,
            length-keep_order (strategy_step fl p v.tick e.state e.next_order_id v.now).0.order _,
          );
        }

  module _ (e : Inline fl p) (t : InlineTurn) where
    turn_empty :
        (take_tick (attach e t).inlet).0 ≡ none
        → inline_turn e t ≡ record (attach e t) {
          inlet = (take_tick (attach e t).inlet).1;
          idle_spin = (idle_backoff e.idle_spin).0;
        }
    unfolding inline_turn attach
    turn_empty empty = inline_round-none fl p (attach e t) t.consume_ts t.now empty

    turn_ready :
        (tick : MarketTick)
        → (take_tick (attach e t).inlet).0 ≡ some tick
        → inline_turn e t
          ≡ inline_tick fl p (attach e t) (take_tick (attach e t).inlet).1 tick t.consume_ts t.now
    unfolding inline_turn
    turn_ready tick got = inline_round-some fl p (attach e t) t.consume_ts t.now tick got

    turn-HasRun :
        (es : List Event) (e' : Inline fl p)
        → e.totals.ticks_seen + 1 < 2 ^ 64
        → offered e.totals + 1 < 2 ^ 64
        → HasRun (inline_turn e t) es e'
        → HasRun e (keep_event (event_at e t) es) e'
    unfolding event_at keep_event inline_tick attach
    turn-HasRun es e' seen_room offer_room h =
        elim (Option-cases (take_tick (attach e t).inlet).0) [
          | inl empty ↦
              let same = turn_empty empty in
              rw (event_at, empty)
                (HasRun-quiet e (inline_turn e t) e' es h (ap (λ i. i.state) same)
                  (ap (λ i. i.next_order_id) same) (ap (λ i. i.totals) same))
          | inr (tick, got) ↦
              let same = turn_ready tick got in
              let i = (take_tick (attach e t).inlet).1 in
              rw (event_at, got)
                (HasRun-step e (inline_turn e t) e' es h (record { tick = tick; now = t.now })
                  (ap (λ (j : Inline fl p). j.state) same)
                  (ap (λ (j : Inline fl p). j.next_order_id) same)
                  (ap (λ (j : Inline fl p). j.totals.ticks_seen) same
                    ∙ inline_tick-seen fl p (attach e t) i tick t.consume_ts t.now seen_room)
                  (ap (λ (j : Inline fl p). offered j.totals) same
                    ∙ inline_tick-offered fl p (attach e t) i tick t.consume_ts t.now offer_room))
        ]

    turn-bounds :
        e.totals.ticks_seen + 1 < 2 ^ 64
        → offered e.totals + 1 < 2 ^ 64
        → ((inline_turn e t).totals.ticks_seen ≤ e.totals.ticks_seen + 1)
          × (offered (inline_turn e t).totals ≤ offered e.totals + 1)
    unfolding attach
    turn-bounds seen_room offer_room = elim (Option-cases (take_tick (attach e t).inlet).0) [
      | inl empty ↦ rw (turn_empty empty) (omega arith)
      | inr (tick, got) ↦
          let i = (take_tick (attach e t).inlet).1 in
          rw (turn_ready tick got) (
            omega (
              arith,
              inline_tick-seen fl p (attach e t) i tick t.consume_ts t.now seen_room,
              inline_tick-offered fl p (attach e t) i tick t.consume_ts t.now offer_room,
              length-keep_none (strategy_step fl p tick e.state e.next_order_id t.now).0.order,
            ))
    ]

  -- The loop of the inline engine does, whatever the other process does to the rings, what the strategy
  -- does on the ticks that it reads: it leaves the map and the last id of the strategy's run, it counts
  -- each tick, and each order of the run is sent or dropped. Neither count of the rounds runs past
  -- 2 ^ 64.
  pub inline_loop-HasRun :
      (e : Inline fl p) (ts : List InlineTurn)
      → e.totals.ticks_seen + length ts < 2 ^ 64
      → offered e.totals + length ts < 2 ^ 64
      → HasRun e (events_read e ts) (inline_loop e ts)
  unfolding inline_loop events_read
  inline_loop-HasRun e [] seen_room offer_room = stays-HasRun e
  inline_loop-HasRun e (t ∷ ts) seen_room offer_room =
      let (few, few') = turn-bounds e t (omega arith) (omega arith) in
      let next = inline_turn e t in
      let more = events_read next ts in
      let rest = inline_loop next ts in
      elim t.stopped
        as (λ b.
          HasRun e (if b then [] else keep_event (event_at e t) more) (if b then e else rest)) [
            | true ↦ stays-HasRun e
            | false ↦
                turn-HasRun e t more rest (omega arith) (omega arith)
                  (inline_loop-HasRun next ts (omega arith) (omega arith))
          ]
