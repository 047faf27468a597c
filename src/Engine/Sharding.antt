-- ===== src/Engine/Sharding.antt =====
-- The routing of symbols to workers in crates/trading-engine/src/main.rs: what the strategy does for a
-- set of symbols does not depend on the ticks of the others.
use mathlib.Core.Option
use mathlib.Core.Option.{some_inj}
use dummy_benchmark.Base.{
  ℕ, ◌≡◌, refl, sym, ap, ap₂, ◌∙◌, Bool, true, false, Option, none, some, List, [], ◌∷◌, ◌++◌,
  arith, map, if◌then◌else◌, ◌==◌, inl, inr, Bool-cases,
}
use dummy_benchmark.Base.Bytes.{Bytes}
use dummy_benchmark.Base.Float.{Float}
use dummy_benchmark.Message.{MarketTick, OrderMsg}
use dummy_benchmark.SymbolMap.{bytes_eq, bytes_eq→eq}
use dummy_benchmark.Engine.{
  SymbolState, Params, first_order_id, route, entry_of, entry_step, make_order, strategy_step,
}
use dummy_benchmark.Engine.Worker.{
  Listen, start_worker, worker_loop, worker_main, ticks_of, IsFront, worker_loop-IsFront,
}
use dummy_benchmark.Engine.Orders.{
  Event, keep_order, run_strategy, stepped, after, order-Ordered, entry_of-insert,
}

-- An order without its id.
abbrev pub unnumbered : OrderMsg → OrderMsg
unnumbered o = record o { order_id = 0 }

-- The orders for the symbols that `pick` takes.
abbrev pub orders_for : (Bytes → Bool) → List OrderMsg → List OrderMsg
orders_for pick [] = []
orders_for pick (o ∷ os) = let rest = orders_for pick os in if pick o.symbol then o ∷ rest else rest

-- The ticks of the symbols that `pick` takes.
abbrev pub events_for : (Bytes → Bool) → List Event → List Event
events_for pick [] = []
events_for pick (e ∷ es) =
    let rest = events_for pick es in if pick e.tick.symbol then e ∷ rest else rest

module _ (fl : Float) (p : Params fl) where
  module _ (tick : MarketTick) (entry : SymbolState fl) (id id' now : ℕ) where
    entry_step-entry :
        (entry_step fl p tick entry id now).entry ≡ (entry_step fl p tick entry id' now).entry
    unfolding entry_step
    entry_step-entry = ground arith

    entry_step-order :
        Option.map unnumbered (entry_step fl p tick entry id now).order
        ≡ Option.map unnumbered (entry_step fl p tick entry id' now).order
    unfolding entry_step make_order
    entry_step-order = ground arith

module _ (pick : Bytes → Bool) where
  joined :
      (o o' : Option OrderMsg) (os os' : List OrderMsg)
      → Option.map unnumbered o' ≡ Option.map unnumbered o
      → ((x : OrderMsg) → o ≡ some x → pick x.symbol ≡ true)
      → map unnumbered os' ≡ orders_for pick (map unnumbered os)
      → map unnumbered (keep_order o' os') ≡ orders_for pick (map unnumbered (keep_order o os))
  unfolding keep_order
  joined none none os os' e mine rest = rest
  joined none (some x') os os' e mine rest = absurd (cc)
  joined (some x) none os os' e mine rest = absurd (cc)
  joined (some x) (some x') os os' e mine rest =
      rw (mine x refl) (ap₂ (λ y ys. y ∷ ys) (some_inj.0 e) rest)

  left_out :
      (o : Option OrderMsg) (os : List OrderMsg)
      → ((x : OrderMsg) → o ≡ some x → pick x.symbol ≡ false)
      → orders_for pick (map unnumbered (keep_order o os)) ≡ orders_for pick (map unnumbered os)
  unfolding keep_order
  left_out none os other = refl
  left_out (some x) os other = rw (other x refl)

  module _ (fl : Float) (p : Params fl) where
    -- The two maps hold the same entries for the symbols that `pick` takes.
    abbrev pub Agree : List (Bytes × SymbolState fl) → List (Bytes × SymbolState fl) → Type 0
    Agree m m' = (s : Bytes) → pick s ≡ true → entry_of fl m s ≡ entry_of fl m' s

    module _ (tick : MarketTick) (m m' : List (Bytes × SymbolState fl)) (agree : Agree m m')
        (id id' now : ℕ) where
      picked-entry :
          pick tick.symbol ≡ true
          → (stepped fl p tick m id now).entry ≡ (stepped fl p tick m' id' now).entry
      unfolding strategy_step
      picked-entry mine =
          rw (agree tick.symbol mine)
            (entry_step-entry fl p tick (entry_of fl m' tick.symbol) id id' now)

      picked-order :
          pick tick.symbol ≡ true
          → Option.map unnumbered (stepped fl p tick m' id' now).order
            ≡ Option.map unnumbered (stepped fl p tick m id now).order
      unfolding strategy_step
      picked-order mine =
          rw (agree tick.symbol mine)
            (entry_step-order fl p tick (entry_of fl m' tick.symbol) id' id now)

      picked-Agree :
          pick tick.symbol ≡ true → Agree (after fl p tick m id now) (after fl p tick m' id' now)
      picked-Agree mine s h = ground (
        arith,
        entry_of-insert fl p tick m id now s,
        entry_of-insert fl p tick m' id' now s,
        agree s,
        picked-entry mine,
      )

      skipped-Agree : pick tick.symbol ≡ false → Agree (after fl p tick m id now) m'
      skipped-Agree other s h = elim (Bool-cases (bytes_eq tick.symbol s)) [
        | inl same ↦ absurd (cc (ap pick (bytes_eq→eq tick.symbol s same)))
        | inr differs ↦ entry_of-insert fl p tick m id now s ∙ (rw (differs) (agree s h))
      ]

      picks_order :
          (x : OrderMsg)
          → (stepped fl p tick m id now).order ≡ some x
          → pick x.symbol ≡ pick tick.symbol
      picks_order x h = ap pick (order-Ordered fl p tick m id now x h).symbol

    -- The orders for a set of symbols are those of a run over their ticks alone, whatever ids the
    -- two runs give, when the maps agree on these symbols at the start.
    pub run_strategy-events_for :
        (m m' : List (Bytes × SymbolState fl)) (id id' : ℕ) (es : List Event)
        → Agree m m'
        → map unnumbered (run_strategy fl p m' id' (events_for pick es)).0
          ≡ orders_for pick (map unnumbered (run_strategy fl p m id es).0)
    unfolding run_strategy
    run_strategy-events_for m m' id id' [] agree = refl
    run_strategy-events_for m m' id id' (e ∷ es) agree =
        let next = after fl p e.tick m id e.now in
        let next' = after fl p e.tick m' id' e.now in
        let r = stepped fl p e.tick m id e.now in
        let r' = stepped fl p e.tick m' id' e.now in
        elim (Bool-cases (pick e.tick.symbol)) [
          | inl mine ↦ rw (mine) (
              joined r.order r'.order _ _ (picked-order e.tick m m' agree id id' e.now mine)
                (λ x h. picks_order e.tick m m' agree id id' e.now x h ∙ mine)
                (run_strategy-events_for next next' r.next_order_id r'.next_order_id es
                  (picked-Agree e.tick m m' agree id id' e.now mine)))
          | inr other ↦ rw (other) (
              run_strategy-events_for next m' r.next_order_id id' es
                (skipped-Agree e.tick m m' agree id id' e.now other)
              ∙ sym (
                  left_out r.order _
                    (λ x h. picks_order e.tick m m' agree id id' e.now x h ∙ other)))
        ]

-- Whether the symbol goes to worker `w` of `n`.
abbrev pub goes_to : ℕ → ℕ → Bytes → Bool
goes_to n w s = route s n == w

-- Worker `w` of `n`, which gets the ticks routed to it in their order and at the same clock, makes the
-- orders that the inline engine makes for its symbols, in the same order and alike but for the ids.
pub sharded_orders :
    (fl : Float) (p : Params fl) (n w : ℕ) (es : List Event)
    → map unnumbered (run_strategy fl p [] (first_order_id w) (events_for (goes_to n w) es)).0
      ≡ orders_for (goes_to n w) (map unnumbered (run_strategy fl p [] 1 es).0)
sharded_orders fl p n w es =
    run_strategy-events_for (goes_to n w) fl p [] [] 1 (first_order_id w) es (λ s h. refl)

map-append_front :
    (xs ys : List OrderMsg) → map unnumbered (xs ++ ys) ≡ map unnumbered xs ++ map unnumbered ys
map-append_front [] ys = refl
map-append_front (x ∷ xs) ys = ap (λ l. unnumbered x ∷ l) (map-append_front xs ys)

-- When the rounds of worker `w` of `n` receive the ticks of a run that are routed to it, at the clocks
-- of that run, the orders that it hands over are, but for the ids, the first of those that the inline
-- engine makes in that run for the worker's symbols.
pub worker_main-inline :
    (fl : Float) (p : Params fl) (n w : ℕ) (es : List Event) (ls : List Listen)
    → ticks_of fl p ls ≡ events_for (goes_to n w) es
    → IsFront
        (map unnumbered (worker_main fl p w ls).0)
        (orders_for (goes_to n w) (map unnumbered (run_strategy fl p [] 1 es).0))
unfolding worker_main start_worker
worker_main-inline fl p n w es ls received =
    let (rest, front) = worker_loop-IsFront fl p (start_worker fl p w) ls in
    (
      map unnumbered rest,
      sym (map-append_front (worker_loop fl p (start_worker fl p w) ls).0 rest)
          ∙ ap (map unnumbered)
              (front ∙ ap (λ l. (run_strategy fl p [] (first_order_id w) l).0) received)
          ∙ sharded_orders fl p n w es,
    )
