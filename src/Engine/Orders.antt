-- ===== src/Engine/Orders.antt =====
-- `strategy_step` of crates/trading-engine/src/main.rs over a sequence of ticks: how far apart the
-- orders of a symbol are.
use dummy_benchmark.Base.{
  ℕ, ◌+◌, ◌≤◌, ◌<◌, ◌^◌, ◌≡◌, refl, subst, inl, inr, Option, none, some, List, [], ◌∷◌, arith,
  if◌then◌else◌, All, All-map,
}
use dummy_benchmark.Base.Bytes.{Bytes}
use dummy_benchmark.Base.Float.{Float}
use dummy_benchmark.Message.{MarketTick, OrderMsg}
use dummy_benchmark.SymbolMap.{bytes_eq, bytes_eq→eq, bytes_eq_refl, lookup-insert}
use dummy_benchmark.Engine.{cools_down, SymbolState, Params, Step, entry_of, strategy_step}
use dummy_benchmark.Engine.Cases.{Ordered, entry_step_cases}

-- A tick, and the clock that its step reads.
pub record Event : Type 0 where
  pub tick : MarketTick
  pub now : ℕ

-- The clock does not run backwards and has not run out.
unfoldable pub IsClock : ℕ → List Event → Type 0
IsClock t [] = Unit
IsClock t (e ∷ es) = (t ≤ e.now) × (e.now < 2 ^ 64) × IsClock e.now es

-- Orders of one symbol lie at least a cooldown apart.
unfoldable pub IsSpaced : ℕ → List OrderMsg → Type 0
IsSpaced cooldown [] = Unit
IsSpaced cooldown (o ∷ os) =
    All (λ o'. o.symbol ≡ o'.symbol → o.submit_ts_ns + cooldown ≤ o'.submit_ts_ns) os
    × IsSpaced cooldown os

unfoldable pub keep_order : Option OrderMsg → List OrderMsg → List OrderMsg
keep_order none os = os
keep_order (some o) os = o ∷ os

All-keep_order {ℓ} :
    {P : OrderMsg → Type ℓ} (r : Option OrderMsg) (os : List OrderMsg)
    → ((o : OrderMsg) → r ≡ some o → P o)
    → All P os
    → All P (keep_order r os)
unfolding keep_order
All-keep_order none os first rest = rest
All-keep_order (some o) os first rest = (first o refl, rest)

module _ (fl : Float) (p : Params fl) where
  -- The orders of a sequence of ticks, the oldest first, and the map and the id that they leave.
  unfoldable pub run_strategy :
      List (Bytes × SymbolState fl)
      → ℕ
      → List Event
      → List OrderMsg × List (Bytes × SymbolState fl) × ℕ
  run_strategy state id [] = ([], state, id)
  run_strategy state id (e ∷ es) =
      let (r, state') = strategy_step fl p e.tick state id e.now in
      let (orders, final, last_id) = run_strategy state' r.next_order_id es in
      (keep_order r.order orders, final, last_id)

  abbrev pub last_of : List (Bytes × SymbolState fl) → Bytes → ℕ
  last_of state s = (entry_of fl state s).last_order_ns

  module _ (tick : MarketTick) (state : List (Bytes × SymbolState fl)) (id now : ℕ) where
    abbrev pub stepped : Step fl
    stepped = (strategy_step fl p tick state id now).0

    abbrev pub after : List (Bytes × SymbolState fl)
    after = (strategy_step fl p tick state id now).1

    pub entry_of-insert :
        (s : Bytes)
        → entry_of fl after s
          ≡ (if bytes_eq tick.symbol s then stepped.entry else entry_of fl state s)
    unfolding strategy_step entry_of
    entry_of-insert s = ground (arith, lookup-insert tick.symbol s stepped.entry state)

    -- A step takes no symbol's time stamp back, and none beyond the clock.
    pub last_of_step :
        ((s : Bytes) → last_of state s ≤ now)
        → (s : Bytes) → (last_of state s ≤ last_of after s) × (last_of after s ≤ now)
    unfolding strategy_step
    last_of_step h s = elim (entry_step_cases fl p tick (entry_of fl state tick.symbol) id now) [
      | inl (o, ord) ↦
          ground
            (arith, entry_of-insert s, h s, h tick.symbol, ord.marked, bytes_eq→eq tick.symbol s)
      | inr quiet ↦ ground (
        arith,
        entry_of-insert s,
        h s,
        h tick.symbol,
        quiet.not_marked,
        bytes_eq→eq tick.symbol s,
      )
    ]

  module _ (tick : MarketTick) (state : List (Bytes × SymbolState fl)) (id now : ℕ)
      (o : OrderMsg) where
    pub order-Ordered :
        (stepped tick state id now).order ≡ some o
        → Ordered fl p tick (entry_of fl state tick.symbol) id now (stepped tick state id now) o
    unfolding strategy_step
    order-Ordered h = elim (entry_step_cases fl p tick (entry_of fl state tick.symbol) id now) [
      | inl (o', ord) ↦
          let same : o' ≡ o = cc in
          subst (Ordered fl p tick (entry_of fl state tick.symbol) id now _) same ord
      | inr quiet ↦ let no = quiet.no_order in ground arith
    ]

    -- An order carries the clock, the symbol and a fresh time stamp of its entry.
    order_marks :
        (stepped tick state id now).order ≡ some o
        → (o.submit_ts_ns ≡ now) × (last_of (after tick state id now) o.symbol ≡ now)
    unfolding strategy_step
    order_marks h =
        let ord = order-Ordered h in
        ground (
          arith,
          entry_of-insert tick state id now o.symbol,
          ord.submitted,
          ord.symbol,
          ord.marked,
          bytes_eq_refl tick.symbol,
        )

    order_rested :
        ((s : Bytes) → last_of state s ≤ now)
        → now < 2 ^ 64
        → (stepped tick state id now).order ≡ some o
        → last_of state o.symbol + p.cooldown_ns ≤ o.submit_ts_ns
    unfolding cools_down
    order_rested marked fits h =
        let ord = order-Ordered h in
        ground (arith, marked o.symbol, ord.rested, ord.symbol, ord.submitted)

  -- No order comes before the cooldown of the entry of its symbol is over.
  later_than_entry :
      (state : List (Bytes × SymbolState fl)) (id t : ℕ) (es : List Event)
      → IsClock t es
      → ((s : Bytes) → last_of state s ≤ t)
      → All
          (λ o. last_of state o.symbol + p.cooldown_ns ≤ o.submit_ts_ns)
          (run_strategy state id es).0
  unfolding run_strategy IsClock
  later_than_entry state id t [] clock marked = tt
  later_than_entry state id t (e ∷ es) (forward, fits, clock) marked =
      let before : (s : Bytes) → last_of state s ≤ e.now = λ s. omega (arith, marked s) in
      let steps = last_of_step e.tick state id e.now before in
      let next = stepped e.tick state id e.now in
      let state' = after e.tick state id e.now in
      let rest = later_than_entry state' next.next_order_id e.now es clock (λ s. (steps s).1) in
      All-keep_order next.order _ (λ o. order_rested e.tick state id e.now o before fits)
        (All-map _ (λ o h. omega (arith, (steps o.symbol).0)) rest)

  IsSpaced-keep_order :
      (r : Option OrderMsg) (os : List OrderMsg)
      → ((o : OrderMsg)
          → r ≡ some o
          → All (λ o'. o.symbol ≡ o'.symbol → o.submit_ts_ns + p.cooldown_ns ≤ o'.submit_ts_ns) os)
      → IsSpaced p.cooldown_ns os
      → IsSpaced p.cooldown_ns (keep_order r os)
  unfolding IsSpaced keep_order
  IsSpaced-keep_order none os first rest = rest
  IsSpaced-keep_order (some o) os first rest = (first o refl, rest)

  -- Orders of one symbol are submitted at least a cooldown apart, when the clock stays below 2 ^
  -- 64 and does not run backwards, and no entry of the map is newer than its start.
  pub run_strategy-IsSpaced :
      (state : List (Bytes × SymbolState fl)) (id t : ℕ) (es : List Event)
      → IsClock t es
      → ((s : Bytes) → last_of state s ≤ t)
      → IsSpaced p.cooldown_ns (run_strategy state id es).0
  unfolding run_strategy IsClock IsSpaced keep_order
  run_strategy-IsSpaced state id t [] clock marked = tt
  run_strategy-IsSpaced state id t (e ∷ es) (forward, fits, clock) marked =
      let before : (s : Bytes) → last_of state s ≤ e.now = λ s. omega (arith, marked s) in
      let steps = last_of_step e.tick state id e.now before in
      let next = stepped e.tick state id e.now in
      let state' = after e.tick state id e.now in
      let now_marked : (s : Bytes) → last_of state' s ≤ e.now = λ s. (steps s).1 in
      let rest = later_than_entry state' next.next_order_id e.now es clock now_marked in
      IsSpaced-keep_order next.order _
        (λ o h.
          All-map _
            (λ o' later same. ground (arith, order_marks e.tick state id e.now o h, later, same))
            rest)
        (run_strategy-IsSpaced state' next.next_order_id e.now es clock now_marked)
