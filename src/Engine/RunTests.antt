-- ===== src/Engine/RunTests.antt =====
-- The whole runs of crates/trading-engine/src/main.rs at concrete ticks, and the theorems there.
use dummy_benchmark.Base.{◌≡◌, refl, List, [], ◌∷◌, map, false, true, arith}
use dummy_benchmark.Base.Fixed.{fixed}
use dummy_benchmark.Samples.{
  aapl, tick_at, ring_with_tick, empty_ring, four_zeros, tick_sent, tick_sent-first, tick_at-IsTick,
}
use dummy_benchmark.Engine.{route, symbol_hash, hash_from, first_order_id}
use dummy_benchmark.Engine.Dispatch.{
  no_totals, ok, Meets, Turn, dispatch_loop, turn_round, delivered, keep_item, breaks,
}
use dummy_benchmark.Engine.Rounds.{dispatch_round-ready}
use dummy_benchmark.Engine.Affinity.{SameOrder, events_at, dispatch_loop-inline}
use dummy_benchmark.Engine.Orders.{Event, run_strategy}
use dummy_benchmark.Engine.Worker.{item, timeout, Listen, worker_main, event_of, ticks_of, IsFront}
use dummy_benchmark.Engine.Sharding.{
  unnumbered, orders_for, events_for, goes_to, sharded_orders, worker_main-inline,
}
use dummy_benchmark.Engine.InlineRun.{
  InlineTurn, events_read, inline_loop, HasRun, inline_loop-HasRun,
}
use dummy_benchmark.Engine.Tests.{params, events, inline, dispatcher, inlet, outlet, inlet-Reads}

-- AAPL goes to the second of two workers.
aapl-route : route aapl 2 ≡ 1
unfolding route symbol_hash hash_from
aapl-route = refl

sharded_orders_example :
    map unnumbered
      (run_strategy fixed params [] (first_order_id 1) (events_for (goes_to 2 1) events)).0
    ≡ orders_for (goes_to 2 1) (map unnumbered (run_strategy fixed params [] 1 events).0)
sharded_orders_example = sharded_orders fixed params 2 1 events

-- The rounds of the second worker.
abbrev received : List Listen
received =
    record {
      stopped = false;
      received = item (record { tick = tick_at 150_000_000; enqueued_ns = 400 }) 450 500 true;
    }
    ∷ record { stopped = false; received = timeout }
    ∷ record {
      stopped = false;
      received = item (record { tick = tick_at 160_000_000; enqueued_ns = 900 }) 950 10_000 true;
    }
    ∷ []

abbrev run_events : List Event
run_events =
    record { tick = tick_at 150_000_000; now = 500 }
    ∷ record { tick = tick_at 160_000_000; now = 10_000 }
    ∷ []

received_all : ticks_of fixed params received ≡ events_for (goes_to 2 1) run_events
unfolding ticks_of event_of route symbol_hash hash_from
received_all = refl

worker_main-inline_example :
    IsFront
      (map unnumbered (worker_main fixed params 1 received).0)
      (orders_for (goes_to 2 1) (map unnumbered (run_strategy fixed params [] 1 run_events).0))
worker_main-inline_example = worker_main-inline fixed params 2 1 run_events received received_all

abbrev pub inline_turns : List InlineTurn
inline_turns =
    record {
      stopped = false;
      tick_ring = ring_with_tick;
      order_ring = empty_ring;
      consume_ts = 3_000;
      now = 3_100;
    }
    ∷ record {
      stopped = true;
      tick_ring = ring_with_tick;
      order_ring = empty_ring;
      consume_ts = 4_000;
      now = 4_100;
    }
    ∷ []

inline_loop-HasRun_example :
    HasRun fixed params inline
      (events_read fixed params inline inline_turns)
      (inline_loop fixed params inline inline_turns)
inline_loop-HasRun_example =
    inline_loop-HasRun fixed params inline inline_turns (omega arith) (omega arith)

-- A round that hands one tick to the second of two workers.
abbrev dispatch_turns : List Turn
dispatch_turns =
    record {
      stopped = false;
      tick_ring = ring_with_tick;
      order_ring = empty_ring;
      meets = record { consume_ts = 3_000; enqueued_ns = 3_100; answer = ok; orders = [] };
    }
    ∷ []

abbrev handed_events : List Event
handed_events = record { tick = tick_at 150_000_000; now = 3_500 } ∷ []

abbrev listened : List Listen
listened =
    record {
      stopped = false;
      received = item (record { tick = tick_at 150_000_000; enqueued_ns = 3_100 }) 3_400 3_500 true;
    }
    ∷ []

handed_one :
    (dispatch_loop 2 dispatcher dispatch_turns).0
    ≡ (1, record { tick = tick_at 150_000_000; enqueued_ns = 3_100 }) ∷ []
unfolding dispatch_loop turn_round keep_item delivered breaks route symbol_hash hash_from
handed_one =
    let meets : Meets = record {
      consume_ts = 3_000;
      enqueued_ns = 3_100;
      answer = ok;
      orders = [];
    } in
    let h =
      (dispatch_round-ready 2 no_totals inlet outlet 0 meets tick_sent 0 1 (tick_at 150_000_000)
        four_zeros inlet-Reads (omega arith) tick_sent-first
        (tick_at-IsTick 150_000_000 (omega arith))).1 in
    rw (h.left_is, h.item_is) refl

same_order : SameOrder (dispatch_loop 2 dispatcher dispatch_turns).0 handed_events
same_order = rw handed_one (refl, tt)

listened_all :
    ticks_of fixed params listened
    ≡ events_at 1 (dispatch_loop 2 dispatcher dispatch_turns).0 handed_events
unfolding ticks_of event_of events_at
listened_all = rw handed_one refl

dispatch_loop-inline_example :
    IsFront
      (map unnumbered (worker_main fixed params 1 listened).0)
      (orders_for (goes_to 2 1) (map unnumbered (run_strategy fixed params [] 1 handed_events).0))
dispatch_loop-inline_example =
    dispatch_loop-inline fixed params 2 1 dispatcher dispatch_turns handed_events listened
      (omega arith) same_order listened_all
