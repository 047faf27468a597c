-- ===== src/Engine/Offered.antt =====
-- The counters of crates/trading-engine/src/main.rs: each order that is offered to the ring is counted,
-- as sent or as dropped.
use dummy_benchmark.Base.{
  ℕ, ◌+◌, ◌≤◌, ◌<◌, ◌^◌, ◌≡◌, refl, Bool, true, Option, none, some, List, [], ◌∷◌, arith, length,
  if◌then◌else◌, Bool-cases, Option-cases, inl, inr,
}
use dummy_benchmark.Base.Float.{Float}
use dummy_benchmark.Message.{MarketTick, OrderMsg}
use dummy_benchmark.Engine.{Params, strategy_step}
use dummy_benchmark.Engine.Dispatch.{
  Totals, Inlet, Outlet, see_tick, offer_order, take_tick, drain, Sent, ok, full, disconnected,
  Meets, count_answer, breaks, after_tick, on_tick, dispatch_round, Turn, Dispatcher, turn_round,
  after_round, dispatch_loop,
}
use dummy_benchmark.Engine.Inline.{offer_any, Inline, inline_tick}
use dummy_benchmark.Engine.Orders.{keep_order}

pub length-keep_order :
    (o : Option OrderMsg) (os : List OrderMsg)
    → length (keep_order o os) ≡ length (keep_order o []) + length os
unfolding keep_order
length-keep_order none os = omega arith
length-keep_order (some o) os = omega arith

pub length-keep_none : (o : Option OrderMsg) → length (keep_order o []) ≤ 1
unfolding keep_order
length-keep_none none = omega arith
length-keep_none (some o) = omega arith

-- The orders that were sent or dropped.
abbrev pub offered : Totals → ℕ
offered s = s.orders_sent + s.orders_dropped

pub offered-offer_order :
    (s : Totals) (out : Outlet) (o : OrderMsg)
    → offered s + 1 < 2 ^ 64
    → offered (offer_order s out o).0 ≡ offered s + 1
unfolding offer_order
offered-offer_order s out o room = ground arith

pub seen-offer_order :
    (s : Totals) (out : Outlet) (o : OrderMsg) → (offer_order s out o).0.ticks_seen ≡ s.ticks_seen
unfolding offer_order
seen-offer_order s out o = ground arith

pub offered-offer_any :
    (s : Totals) (out : Outlet) (o : Option OrderMsg)
    → offered s + 1 < 2 ^ 64
    → offered (offer_any s out o).0 ≡ offered s + length (keep_order o [])
unfolding offer_any keep_order
offered-offer_any s out none room = omega arith
offered-offer_any s out (some o) room = offered-offer_order s out o room

pub seen-offer_any :
    (s : Totals) (out : Outlet) (o : Option OrderMsg)
    → (offer_any s out o).0.ticks_seen ≡ s.ticks_seen
unfolding offer_any
seen-offer_any s out none = refl
seen-offer_any s out (some o) = seen-offer_order s out o

module _ (fl : Float) (p : Params fl) where
  module _ (e : Inline fl p) where
    -- The counters after the tick and its order.
    pub inline_tick-offered :
        (i : Inlet) (tick : MarketTick) (consume_ts now : ℕ)
        → offered e.totals + 1 < 2 ^ 64
        → let r = (strategy_step fl p tick e.state e.next_order_id now).0 in
          offered (inline_tick fl p e i tick consume_ts now).totals
          ≡ offered e.totals + length (keep_order r.order [])
    unfolding inline_tick see_tick
    inline_tick-offered i tick consume_ts now room =
        offered-offer_any (see_tick e.totals tick consume_ts) e.outlet
          (strategy_step fl p tick e.state e.next_order_id now).0.order room

    pub inline_tick-seen :
        (i : Inlet) (tick : MarketTick) (consume_ts now : ℕ)
        → e.totals.ticks_seen + 1 < 2 ^ 64
        → (inline_tick fl p e i tick consume_ts now).totals.ticks_seen ≡ e.totals.ticks_seen + 1
    unfolding inline_tick see_tick
    inline_tick-seen i tick consume_ts now room = omega (
      arith,
      seen-offer_any (see_tick e.totals tick consume_ts) e.outlet
          (strategy_step fl p tick e.state e.next_order_id now).0.order,
    )

pub offered-drain :
    (s : Totals) (out : Outlet) (os : List OrderMsg)
    → offered s + length os < 2 ^ 64
    → offered (drain s out os).0 ≡ offered s + length os
unfolding drain
offered-drain s out [] room = omega arith
offered-drain s out (o ∷ os) room =
    let one = offered-offer_order s out o (omega arith) in
    let (s', out') = offer_order s out o in
    omega (arith, one, offered-drain s' out' os (omega (arith, one)))

offered-count_answer :
    (s : Totals) (t : MarketTick) (ts : ℕ) (a : Sent)
    → offered (count_answer (see_tick s t ts) a) ≡ offered s
unfolding count_answer see_tick
offered-count_answer s t ts ok = refl
offered-count_answer s t ts full = refl
offered-count_answer s t ts disconnected = refl

-- The orders that a round takes from the channel: none if it breaks.
abbrev pub taken : Bool → Meets → ℕ
taken left m = if left then 0 else length m.orders

on_tick-offered :
    (n : ℕ) (s : Totals) (i : Inlet) (out : Outlet) (idle : ℕ) (m : Meets) (t : MarketTick)
    → offered s + taken (on_tick n s i out idle m t).left m < 2 ^ 64
    → let r = on_tick n s i out idle m t in offered r.totals ≡ offered s + taken r.left m
unfolding on_tick after_tick
on_tick-offered n s i out idle m t room =
    let seen = count_answer (see_tick s t m.consume_ts) m.answer in
    let same : offered seen ≡ offered s = offered-count_answer s t m.consume_ts m.answer in
    elim (Bool-cases (breaks m.answer)) [
      | inl closed ↦ rw (on_tick, closed) (omega (arith, same))
      | inr still_open ↦
          let fits : offered s + length m.orders < 2 ^ 64 = rw (on_tick, still_open) at room in
          rw (on_tick, still_open)
            (omega (arith, same, offered-drain seen out m.orders (omega (arith, same))))
    ]

dispatch_round-offered :
    (n : ℕ) (s : Totals) (i : Inlet) (out : Outlet) (idle : ℕ) (m : Meets)
    → offered s + taken (dispatch_round n s i out idle m).left m < 2 ^ 64
    → let r = dispatch_round n s i out idle m in offered r.totals ≡ offered s + taken r.left m
unfolding dispatch_round after_tick
dispatch_round-offered n s i out idle m room = elim (Option-cases (take_tick i).0) [
  | inl none_read ↦
      rw (dispatch_round, none_read)
        (offered-drain s out m.orders (rw (dispatch_round, none_read) at room))
  | inr (t, e) ↦
      rw (dispatch_round, e)
        (on_tick-offered n s (take_tick i).1 out idle m t (rw (dispatch_round, e) at room))
]

turn_round-offered :
    (n : ℕ) (d : Dispatcher) (t : Turn)
    → let r = turn_round n d t in
      offered d.totals + taken r.left t.meets < 2 ^ 64
      → offered r.totals ≡ offered d.totals + taken r.left t.meets
unfolding turn_round
turn_round-offered n d t room = dispatch_round-offered n d.totals _ _ d.idle_spin t.meets room

-- The orders that the loop takes from the channel.
pub orders_taken : ℕ → Dispatcher → List Turn → ℕ
orders_taken n d [] = 0
orders_taken n d (t ∷ ts) =
    let r = turn_round n d t in
    let rest = orders_taken n (after_round r) ts in
    if t.stopped then 0 else if r.left then taken true t.meets else length t.meets.orders + rest

pub dispatch_loop-offered :
    (n : ℕ) (d : Dispatcher) (ts : List Turn)
    → offered d.totals + orders_taken n d ts < 2 ^ 64
    → offered (dispatch_loop n d ts).1.totals ≡ offered d.totals + orders_taken n d ts
unfolding dispatch_loop orders_taken after_round
dispatch_loop-offered n d [] room = omega arith
dispatch_loop-offered n d (t ∷ ts) room =
    ground
      (arith, turn_round-offered n d t, dispatch_loop-offered n (after_round (turn_round n d t)) ts)

-- The orders that wait in the channel, over all rounds.
abbrev pub waiting_orders : List Turn → ℕ
waiting_orders [] = 0
waiting_orders (t ∷ ts) = length t.meets.orders + waiting_orders ts

pub orders_taken-le :
    (n : ℕ) (d : Dispatcher) (ts : List Turn) → orders_taken n d ts ≤ waiting_orders ts
unfolding orders_taken
orders_taken-le n d [] = omega arith
orders_taken-le n d (t ∷ ts) = ground (arith, orders_taken-le n (after_round (turn_round n d t)) ts)
