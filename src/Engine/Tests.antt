-- ===== src/Engine/Tests.antt =====
-- The trading engine of crates/trading-engine/src/main.rs at concrete ticks, with `f64` as millionths.
use dummy_benchmark.Base.{
  ◌+◌, ◌≤◌, ◌≡◌, ◌≢◌, ◌↔◌, ◌⊎◌, refl, true, false, List, [], ◌∷◌, arith, All, map,
}
use dummy_benchmark.Base.Bytes.{Bytes}
use dummy_benchmark.Base.Fixed.{fixed}
use dummy_benchmark.Message.{OrderMsg, side_byte}
use dummy_benchmark.SymbolMap.{lookup, insert, bytes_eq}
use dummy_benchmark.Samples.{
  tick_at, order_with, empty_ring, zeros, first_producer, first_consumer, ring_with_tick, tick_sent,
  ring_with_tick-Holds,
}
use dummy_benchmark.Engine.{
  Params, first_order_id, cools_down, default_state, mid_price, next_ema, deviation, make_order,
  entry_step, entry_of, strategy_step,
}
use dummy_benchmark.Engine.Cases.{Ordered, Quiet, entry_step_cases}
use dummy_benchmark.Engine.Orders.{
  Event, IsClock, IsSpaced, keep_order, run_strategy, last_of, run_strategy-IsSpaced,
}
use dummy_benchmark.Engine.Ids.{run_strategy_disjoint}
use dummy_benchmark.Engine.Routing.{cools_down_backwards}
use dummy_benchmark.Engine.Dispatch.{no_totals, Inlet, Outlet, ok, Meets, Turn, Dispatcher}
use dummy_benchmark.Engine.Rounds.{Reads}
use dummy_benchmark.Engine.Worker.{
  item, timeout, Listen, start_worker, worker_loop, ticks_of, IsFront, worker_loop-IsFront,
}
use dummy_benchmark.Engine.Shutdown.{
  Joining, sending, looping, Reach, HasReturned, total, Reach-finished,
}
use dummy_benchmark.Engine.Inline.{Inline}

abbrev pub params : Params fixed
params = record {
  alpha = fixed.lit 1 2;
  threshold_bps = fixed.lit 2 1;
  cooldown_ns = 1_000;
  qty = 100;
}

-- The average starts at the first price; the second tick sells, the third falls into the cooldown.
abbrev pub events : List Event
events =
    record { tick = tick_at 150_000_000; now = 500 }
    ∷ record { tick = tick_at 160_000_000; now = 10_000 }
    ∷ record { tick = tick_at 170_000_000; now = 10_500 }
    ∷ record { tick = tick_at 120_000_000; now = 12_000 }
    ∷ []

events-IsClock : IsClock 500 events
unfolding IsClock
events-IsClock = (
  omega arith,
  omega arith,
  (omega arith, omega arith, (omega arith, omega arith, (omega arith, omega arith, tt))),
)

run_strategy-sides :
    let orders = (run_strategy fixed params [] 1 events).0 in
    (map (λ o. o.order_id) orders ≡ 2 ∷ 3 ∷ [])
    × (map (λ o. o.submit_ts_ns) orders ≡ 10_000 ∷ 12_000 ∷ [])
    × (map (λ o. o.side) orders ≡ 2 ∷ 1 ∷ [])
unfolding run_strategy strategy_step entry_step entry_of make_order keep_order mid_price next_ema
    deviation cools_down lookup insert bytes_eq side_byte
run_strategy-sides = (refl, refl, refl)

entry_step_cases_example :
    let r = entry_step fixed params (tick_at 7) (default_state fixed) 1 500 in
    ((o : OrderMsg) × Ordered fixed params (tick_at 7) (default_state fixed) 1 500 r o)
    ⊎ Quiet fixed params (tick_at 7) (default_state fixed) 1 500 r
entry_step_cases_example = entry_step_cases fixed params (tick_at 7) (default_state fixed) 1 500

no_entry : (s : Bytes) → last_of fixed params [] s ≤ 500
unfolding entry_of lookup
no_entry s = omega arith

run_strategy-IsSpaced_example : IsSpaced 1_000 (run_strategy fixed params [] 1 events).0
run_strategy-IsSpaced_example =
    run_strategy-IsSpaced fixed params [] 1 500 events events-IsClock no_entry

run_strategy_disjoint_example :
    All
      (λ o.
        All
          (λ o'. o.order_id ≢ o'.order_id)
          (run_strategy fixed params [] (first_order_id 1) events).0)
      (run_strategy fixed params [] (first_order_id 0) events).0
run_strategy_disjoint_example =
    run_strategy_disjoint fixed params 0 1 events events (omega arith) (omega arith) (omega arith)
      (omega arith) (omega arith)

cools_down_backwards_example : cools_down 9_000 (9_000 + 500) 1_000 ≡ false
cools_down_backwards_example =
    cools_down_backwards 9_000 500 1_000 (omega arith) (omega arith) (omega arith)

abbrev pub outlet : Outlet
outlet = record { ring = empty_ring; producer = first_producer }

abbrev pub inlet : Inlet
inlet = record { ring = ring_with_tick; consumer = first_consumer; buf = zeros }

pub inlet-Reads : Reads inlet tick_sent 0 1
inlet-Reads = record { holds = ring_with_tick-Holds; consumer_at = refl; buf_len = refl }

abbrev two_orders : List OrderMsg
two_orders = order_with 2 ∷ order_with 3 ∷ []

abbrev meets : Meets
meets = record { consume_ts = 3_000; enqueued_ns = 3_100; answer = ok; orders = two_orders }

abbrev pub dispatcher : Dispatcher
dispatcher = record {
  totals = no_totals;
  consumer = first_consumer;
  buf = zeros;
  producer = first_producer;
  idle_spin = 0;
}

abbrev pub turns : List Turn
turns =
    record { stopped = false; tick_ring = ring_with_tick; order_ring = empty_ring; meets = meets }
    ∷ record { stopped = true; tick_ring = empty_ring; order_ring = empty_ring; meets = meets }
    ∷ []

abbrev pub listens : List Listen
listens =
    record {
      stopped = false;
      received = item (record { tick = tick_at 150_000_000; enqueued_ns = 400 }) 450 500 true;
    }
    ∷ record { stopped = false; received = timeout }
    ∷ record {
      stopped = false;
      received = item (record { tick = tick_at 160_000_000; enqueued_ns = 900 }) 950 10_000 false;
    }
    ∷ []

worker_loop-IsFront_example :
    let w = start_worker fixed params 2 in
    IsFront
      (worker_loop fixed params w listens).0
      (run_strategy fixed params w.state w.next_order_id (ticks_of fixed params listens)).0
worker_loop-IsFront_example = worker_loop-IsFront fixed params (start_worker fixed params 2) listens

abbrev pub inline : Inline fixed params
inline = record {
  state = [];
  totals = no_totals;
  next_order_id = 1;
  idle_spin = 5;
  inlet = inlet;
  outlet = outlet;
}

-- Three workers: two in `send`, the third with a tick in its channel.
abbrev joining : Joining fixed params
joining =
    let w = start_worker fixed params 2 in
    record {
      waiting = 8_190;
      stop = false;
      workers =
          sending w (order_with 2) []
          ∷ sending w (order_with 3) []
          ∷ looping w (
              record {
                item = record { tick = tick_at 150_000_000; enqueued_ns = 400 };
                handled_ns = 450;
                now = 500;
              }
              ∷ [])
          ∷ [];
    }

Reach-finished_example :
    ((t : Joining fixed params) × Reach fixed params joining t
      × (t.stop ≡ false)
      × All (HasReturned fixed params) t.workers)
    ↔ (8_190 + total fixed params joining.workers ≤ 8_192)
Reach-finished_example = Reach-finished fixed params joining refl (omega arith)
