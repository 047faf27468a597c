-- ===== src/Engine/Cases.antt =====
-- One step of the strategy of crates/trading-engine/src/main.rs: when it orders, and what it leaves.
use dummy_benchmark.Base.{
  ℕ, ◌≡◌, refl, ◌⊎◌, inl, inr, true, false, none, some, arith, add64, Bool-cases,
}
use dummy_benchmark.Base.Float.{Float}
use dummy_benchmark.Message.{MarketTick, OrderMsg, buy, sell, from_u8, side_byte}
use dummy_benchmark.Engine.{
  cools_down, SymbolState, Params, Step, mid_price, next_ema, deviation, make_order, entry_step,
}

module _ (fl : Float) where
  open fl use {F, lit, abs, lt}

  module _ (p : Params fl) (tick : MarketTick) (entry : SymbolState fl) (id now : ℕ) where
    -- The deviation that the step tests.
    abbrev pub seen_dev : F
    seen_dev = deviation fl (mid_price fl tick) (next_ema fl p entry (mid_price fl tick))

    -- The step's result when it orders.
    pub record Ordered (r : Step fl) (o : OrderMsg) : Type 0 where
      pub is_order : r.order ≡ some o
      pub was_initialised : entry.initialised ≡ true
      pub beyond : lt (abs seen_dev) p.threshold_bps ≡ false
      pub rested : cools_down now entry.last_order_ns p.cooldown_ns ≡ false
      pub id_taken : r.next_order_id ≡ add64 id 1
      pub order_id : o.order_id ≡ add64 id 1
      pub submitted : o.submit_ts_ns ≡ now
      pub symbol : o.symbol ≡ tick.symbol
      pub qty : o.qty ≡ p.qty
      pub marked : r.entry.last_order_ns ≡ now
      pub averages : r.entry.ema_px ≡ next_ema fl p entry (mid_price fl tick)
      pub stays_initialised : r.entry.initialised ≡ true
      -- it sells at the bid above the average, and buys at the ask otherwise
      pub sells : lt (lit 0 1) seen_dev ≡ true → (from_u8 o.side ≡ some sell) × (o.px ≡ tick.bid_px)
      pub buys : lt (lit 0 1) seen_dev ≡ false → (from_u8 o.side ≡ some buy) × (o.px ≡ tick.ask_px)

    pub record Quiet (r : Step fl) : Type 0 where
      pub no_order : r.order ≡ none
      pub id_kept : r.next_order_id ≡ id
      pub not_marked : r.entry.last_order_ns ≡ entry.last_order_ns
      -- the average starts at the first price
      pub starts : entry.initialised ≡ false → r.entry.ema_px ≡ mid_price fl tick
      pub averages :
          entry.initialised ≡ true → r.entry.ema_px ≡ next_ema fl p entry (mid_price fl tick)
      pub is_initialised : r.entry.initialised ≡ true
      pub reason :
          (entry.initialised ≡ false)
          ⊎ (lt (abs seen_dev) p.threshold_bps ≡ true)
          ⊎ (cools_down now entry.last_order_ns p.cooldown_ns ≡ true)

    abbrev pub step_order : OrderMsg
    step_order = make_order fl p tick seen_dev now (add64 id 1)

    ordered :
        entry.initialised ≡ true
        → lt (abs seen_dev) p.threshold_bps ≡ false
        → cools_down now entry.last_order_ns p.cooldown_ns ≡ false
        → Ordered (entry_step fl p tick entry id now) step_order
    unfolding entry_step make_order from_u8 side_byte
    ordered old far rested = record {
      is_order = rw (rested, far, old) refl;
      was_initialised = old;
      beyond = far;
      rested = rested;
      id_taken = ground arith;
      order_id = refl;
      submitted = refl;
      symbol = refl;
      qty = refl;
      marked = ground arith;
      averages = ground arith;
      stays_initialised = ground arith;
      sells = λ above. ground arith;
      buys = λ below. ground arith;
    }

    -- A step either orders or does not. It orders only for an initialised entry, a deviation not
    -- below the threshold and a cooldown that is over; the order has the next id, the clock, the
    -- tick's symbol and the quantity, sells at the bid above the average and buys at the ask
    -- otherwise, and the entry is stamped with the clock. A step that does not order has one of
    -- the three reasons, and takes no id and no stamp. Either way the entry is initialised
    -- afterwards, with the first price or with the moving average of the price and its last value.
    pub entry_step_cases :
        let r = entry_step fl p tick entry id now in ((o : OrderMsg) × Ordered r o) ⊎ Quiet r
    unfolding entry_step
    entry_step_cases = elim (Bool-cases entry.initialised) [
      | inr fresh ↦ inr (ground arith)
      | inl old ↦ elim (Bool-cases (lt (abs seen_dev) p.threshold_bps)) [
        | inl near ↦ inr (ground arith)
        | inr far ↦ elim (Bool-cases (cools_down now entry.last_order_ns p.cooldown_ns)) [
          | inl early ↦ inr (ground arith)
          | inr rested ↦ inl (step_order, ordered old far rested)
        ]
      ]
    ]
