-- ===== src/Engine/Inline.antt =====
-- crates/trading-engine/src/main.rs: a round of `run_inline`.
use dummy_benchmark.Base.{ℕ, ◌+◌, ◌<◌, ◌≡◌, refl, ap, Option, none, some, List}
use dummy_benchmark.Base.Bytes.{Bytes}
use dummy_benchmark.Base.Float.{Float}
use dummy_benchmark.Message.{MarketTick, OrderMsg, tick_bytes}
use dummy_benchmark.Message.Layout.{IsTick}
use dummy_benchmark.Ring.Holds.{pad}
use dummy_benchmark.Engine.{SymbolState, Params, idle_backoff, strategy_step}
use dummy_benchmark.Engine.Dispatch.{Totals, Inlet, Outlet, see_tick, offer_order, take_tick}
use dummy_benchmark.Engine.Rounds.{Reads, take_tick-ready, take_tick-empty}

-- The order of a step, if it has one, is sent or dropped.
unfoldable pub offer_any : Totals → Outlet → Option OrderMsg → Totals × Outlet
offer_any s out none = (s, out)
offer_any s out (some o) = offer_order s out o

module _ (fl : Float) (p : Params fl) where
  -- The local variables of `run_inline`, and its ends of the two rings.
  pub record Inline : Type 0 where
    pub state : List (Bytes × SymbolState fl)
    pub totals : Totals
    pub next_order_id : ℕ
    pub idle_spin : ℕ
    pub inlet : Inlet
    pub outlet : Outlet

  -- The part of a round below a successful `try_consume`.
  unfoldable pub inline_tick : Inline → Inlet → MarketTick → ℕ → ℕ → Inline
  inline_tick e inlet tick consume_ts now =
      let (r, state) = strategy_step fl p tick e.state e.next_order_id now in
      let (totals, outlet) = offer_any (see_tick e.totals tick consume_ts) e.outlet r.order in
      record {
        state = state;
        totals = totals;
        next_order_id = r.next_order_id;
        idle_spin = 0;
        inlet = inlet;
        outlet = outlet;
      }

  -- A round of the loop; `consume_ts` and `now` are the clock at its two reads.
  unfoldable pub inline_round : Inline → ℕ → ℕ → Inline
  inline_round e consume_ts now =
      let (got, inlet) = take_tick e.inlet in
      elim got [
        | none ↦ record e { inlet = inlet; idle_spin = (idle_backoff e.idle_spin).0 }
        | some tick ↦ inline_tick e inlet tick consume_ts now
      ]

  pub inline_round-none :
      (e : Inline) (consume_ts now : ℕ)
      → (take_tick e.inlet).0 ≡ none
      → inline_round e consume_ts now
        ≡ record e { inlet = (take_tick e.inlet).1; idle_spin = (idle_backoff e.idle_spin).0 }
  unfolding inline_round
  inline_round-none e consume_ts now h = rw (inline_round, h)

  pub inline_round-some :
      (e : Inline) (consume_ts now : ℕ) (tick : MarketTick)
      → (take_tick e.inlet).0 ≡ some tick
      → inline_round e consume_ts now ≡ inline_tick e (take_tick e.inlet).1 tick consume_ts now
  unfolding inline_round
  inline_round-some e consume_ts now tick h = rw (inline_round, h)

  -- On an empty tick ring a round only counts itself as idle.
  inline_round-empty :
      (e : Inline) (consume_ts now : ℕ) (sent : ℕ → Bytes) (c : ℕ)
      → Reads e.inlet sent c c
      → inline_round e consume_ts now ≡ record e { idle_spin = (idle_backoff e.idle_spin).0 }
  unfolding inline_round
  inline_round-empty e consume_ts now sent c r =
      let none_read = take_tick-empty e.inlet sent c r in
      rw (inline_round, ap (λ g. g.0) none_read, ap (λ g. g.1) none_read)

  -- On a ring with a waiting well-formed tick a round takes it off the ring, and does with the
  -- tick as it was published what the strategy says.
  inline_round-ready :
      (e : Inline) (consume_ts now : ℕ) (sent : ℕ → Bytes) (c q : ℕ) (t : MarketTick)
      (padding : Bytes)
      → Reads e.inlet sent c q
      → c < q
      → sent c ≡ pad (tick_bytes t padding)
      → IsTick t
      → let e' = inline_round e consume_ts now in
        Reads e'.inlet sent (c + 1) q × (e' ≡ inline_tick e e'.inlet t consume_ts now)
  unfolding inline_round inline_tick
  inline_round-ready e consume_ts now sent c q t padding r ready at fits =
      let (got, reads) = take_tick-ready e.inlet sent c q t padding r ready at fits in
      rw (inline_round, got) (reads, refl)
