-- ===== src/Engine/Affinity.antt =====
-- Which worker gets a tick in `run_with_workers` of crates/trading-engine/src/main.rs, and what the
-- workers of a run do together.
use native.Mathlib.Nat.{mod-lt}
use dummy_benchmark.Base.{
  ℕ, ◌<◌, ◌≡◌, refl, ap, ap₂, ◌∙◌, List, [], ◌∷◌, map, if◌then◌else◌, ◌==◌, if_elim, Bool-cases,
  Option-cases, inl, inr, All,
}
use dummy_benchmark.Base.Float.{Float}
use dummy_benchmark.Message.{MarketTick}
use dummy_benchmark.Engine.{Params, symbol_hash, route}
use dummy_benchmark.Engine.Dispatch.{
  Totals, Inlet, Outlet, take_tick, WorkItem, Sent, ok, full, disconnected, Meets, delivered,
  breaks, after_tick, on_tick, dispatch_round, Turn, Dispatcher, turn_round, after_round, keep_item,
  dispatch_loop,
}
use dummy_benchmark.Engine.Orders.{Event, run_strategy}
use dummy_benchmark.Engine.Worker.{Listen, worker_main, ticks_of, IsFront}
use dummy_benchmark.Engine.Sharding.{
  unnumbered, orders_for, events_for, goes_to, worker_main-inline,
}

-- The item goes to a worker that exists, the one of its symbol.
abbrev pub IsRouted : ℕ → ℕ × WorkItem → Type 0
IsRouted n (w, item) = (w ≡ route item.tick.symbol n) × (w < n)

delivered-IsRouted :
    (n : ℕ) (a : Sent) (item : ℕ × WorkItem) (items : List (ℕ × WorkItem))
    → IsRouted n item
    → All (IsRouted n) items
    → All (IsRouted n) (keep_item (delivered a item) items)
unfolding delivered keep_item
delivered-IsRouted n ok item items h rest = (h, rest)
delivered-IsRouted n full item items h rest = rest
delivered-IsRouted n disconnected item items h rest = rest

module _ (n : ℕ) (some_worker : 0 < n) where
  route-IsRouted :
      (t : MarketTick) (ns : ℕ)
      → IsRouted n (route t.symbol n, record { tick = t; enqueued_ns = ns })
  unfolding route
  route-IsRouted t ns = (refl, mod-lt (symbol_hash t.symbol) some_worker)

  round-IsRouted :
      (s : Totals) (i : Inlet) (out : Outlet) (idle : ℕ) (m : Meets) (items : List (ℕ × WorkItem))
      → All (IsRouted n) items
      → All (IsRouted n) (keep_item (dispatch_round n s i out idle m).item items)
  unfolding dispatch_round on_tick after_tick keep_item
  round-IsRouted s i out idle m items rest = elim (Option-cases (take_tick i).0) [
    | inl none_read ↦ rw (dispatch_round, none_read) rest
    | inr (t, e) ↦ elim (Bool-cases (breaks m.answer)) [
      | inl closed ↦
          rw (dispatch_round, e, on_tick, closed)
            (delivered-IsRouted n m.answer _ items (route-IsRouted t m.enqueued_ns) rest)
      | inr still_open ↦
          rw (dispatch_round, e, on_tick, still_open)
            (delivered-IsRouted n m.answer _ items (route-IsRouted t m.enqueued_ns) rest)
    ]
  ]

  -- Every item that the dispatcher hands over goes to the worker that the hash of its symbol picks, which
  -- exists: all ticks of a symbol go to one worker, in the order in which they were read.
  pub dispatch_loop-IsRouted :
      (d : Dispatcher) (ts : List Turn) → All (IsRouted n) (dispatch_loop n d ts).0
  unfolding dispatch_loop after_round turn_round
  dispatch_loop-IsRouted d [] = tt
  dispatch_loop-IsRouted d (t ∷ ts) =
      let r = turn_round n d t in
      let rest = dispatch_loop n (after_round r) ts in
      let i : Inlet = record { ring = t.tick_ring; consumer = d.consumer; buf = d.buf } in
      let out : Outlet = record { ring = t.order_ring; producer = d.producer } in
      let Routed = λ (x : List (ℕ × WorkItem) × Dispatcher). All (IsRouted n) x.0 in
      let left_now : List (ℕ × WorkItem) × Dispatcher = (keep_item r.item [], after_round r) in
      let went_on : List (ℕ × WorkItem) × Dispatcher = (keep_item r.item rest.0, rest.1) in
      if_elim Routed t.stopped {x = ([], d)} {y = if r.left then left_now else went_on} (λ _. tt)
        (λ _.
          if_elim Routed r.left {x = left_now} {y = went_on}
            (λ _. round-IsRouted d.totals i out d.idle_spin t.meets [] tt)
            (λ _.
              round-IsRouted d.totals i out d.idle_spin t.meets rest.0
                (dispatch_loop-IsRouted (after_round r) ts)))

-- The steps `es` of the items that were handed to worker `w`, one step for each item.
unfoldable pub events_at : ℕ → List (ℕ × WorkItem) → List Event → List Event
events_at w [] es = []
events_at w (i ∷ items) [] = []
events_at w (i ∷ items) (e ∷ es) =
    let rest = events_at w items es in if i.0 == w then e ∷ rest else rest

-- The steps take the ticks of the items, in their order.
abbrev pub SameOrder : List (ℕ × WorkItem) → List Event → Type 0
SameOrder [] [] = Unit
SameOrder [] (e ∷ es) = ⊥
SameOrder (i ∷ items) [] = ⊥
SameOrder (i ∷ items) (e ∷ es) = (i.1.tick ≡ e.tick) × SameOrder items es

events_at-events_for :
    (n w : ℕ) (items : List (ℕ × WorkItem)) (es : List Event)
    → All (IsRouted n) items
    → SameOrder items es
    → events_at w items es ≡ events_for (goes_to n w) es
unfolding events_at
events_at-events_for n w [] [] h same = refl
events_at-events_for n w [] (e ∷ es) h same = absurd same
events_at-events_for n w (i ∷ items) [] h same = absurd same
events_at-events_for n w (i ∷ items) (e ∷ es) h same =
    ap₂ (λ target rest. if target == w then e ∷ rest else rest)
      (h.0.0 ∙ ap (λ (t : MarketTick). route t.symbol n) same.0)
      (events_at-events_for n w items es h.1 same.1)

-- A run with `n` workers does what the inline engine would do, a worker at a time: `es` are the steps of
-- the items that the dispatcher handed over, in that order. When worker `w` receives its items, the
-- orders that it hands over are, but for their ids, the first of those that the inline engine makes over
-- `es` for the worker's symbols.
pub dispatch_loop-inline :
    (fl : Float) (p : Params fl) (n w : ℕ) (d : Dispatcher) (ts : List Turn) (es : List Event)
    (ls : List Listen)
    → 0 < n
    → SameOrder (dispatch_loop n d ts).0 es
    → ticks_of fl p ls ≡ events_at w (dispatch_loop n d ts).0 es
    → IsFront
        (map unnumbered (worker_main fl p w ls).0)
        (orders_for (goes_to n w) (map unnumbered (run_strategy fl p [] 1 es).0))
dispatch_loop-inline fl p n w d ts es ls some_worker same received =
    worker_main-inline fl p n w es ls (
      received
      ∙ events_at-events_for n w (dispatch_loop n d ts).0 es
          (dispatch_loop-IsRouted n some_worker d ts) same)
