-- ===== src/Pipeline/Tests.antt =====
-- The two programs joined, at a concrete packet and concrete orders.
use dummy_benchmark.Base.{◌+◌, ◌≡◌, refl, some, List, [], ◌∷◌, arith, take}
use dummy_benchmark.Base.Int.{pos}
use dummy_benchmark.Message.{OrderMsg, tick_size, read_tick}
use dummy_benchmark.Ring.{ring_capacity}
use dummy_benchmark.Samples.{
  aapl, empty_ring, empty_ring-Holds, nothing_sent, zeros, four_zeros, first_producer,
  first_consumer, order_with, order_with-IsOrder, packet, packet-AreBytes,
}
use dummy_benchmark.Engine.Dispatch.{no_totals, Inlet, Outlet, take_tick, drain}
use dummy_benchmark.Feedhandler.{
  no_counters, TickOutlet, Completion, on_result, OrderInlet, read_orders,
}
use dummy_benchmark.Base.Fixed.{fixed}
use dummy_benchmark.Exchange.{SymState, Draw, Sending, send_symbol, make_tick, next_mid}
use dummy_benchmark.Feedhandler.Forward.{AreBytes}
use dummy_benchmark.Pipeline.Market.{Sendable, InStep, received, sent_tick_reaches_engine}
use dummy_benchmark.Pipeline.{packet_reaches_engine, orders_reach_feedhandler}

abbrev completion : Completion
completion = record { res = pos 68; buffer = packet; now = 10; padding = four_zeros }

abbrev tick_outlet : TickOutlet
tick_outlet = record { ring = empty_ring; producer = first_producer }

abbrev inlet : Inlet
inlet = record { ring = empty_ring; consumer = first_consumer; buf = zeros }

packet_reaches_engine_example :
    let ring = (on_result no_counters tick_outlet completion (pos 68)).1.ring in
    (take_tick (record inlet { ring = ring })).0
    ≡ some (record (read_tick (take tick_size (take 68 packet))) { recv_ts_ns = 10 })
packet_reaches_engine_example =
    packet_reaches_engine no_counters tick_outlet completion 68 inlet nothing_sent 0
      (empty_ring-Holds nothing_sent) refl refl refl (omega arith) (omega arith) packet-AreBytes
      refl (omega arith)

abbrev outlet : Outlet
outlet = record { ring = empty_ring; producer = first_producer }

abbrev order_inlet : OrderInlet
order_inlet = record { ring = empty_ring; consumer = first_consumer; buf = zeros }

abbrev two_orders : List OrderMsg
two_orders = order_with 2 ∷ order_with 3 ∷ []

orders_reach_feedhandler_example :
    let ring = (drain no_totals outlet two_orders).1.ring in
    (i' : OrderInlet) × (read_orders (ring_capacity + 1) (record order_inlet { ring = ring })
      ≡ some (take ring_capacity two_orders, i'))
orders_reach_feedhandler_example =
    orders_reach_feedhandler no_totals outlet order_inlet two_orders nothing_sent 0
      (ring_capacity + 1) (empty_ring-Holds nothing_sent) refl refl refl
      (order_with-IsOrder 2 (omega arith), (order_with-IsOrder 3 (omega arith), tt)) (omega arith)
      (omega arith) (omega arith)

abbrev stock : SymState fixed
stock = record { name = aapl; anchor = fixed.lit 100 1; mid = fixed.lit 100 1 }

abbrev draw : Draw fixed
draw = record { ts = 5; unit = fixed.lit 1 4; bid_extra = 7; ask_extra = 8 }

abbrev sending : Sending
sending = record { seq = 6; sent_total = 6 }

stock-Sendable :
    let (_, _, tick) = send_symbol fixed sending stock draw in Sendable fixed stock draw tick
unfolding make_tick next_mid send_symbol
stock-Sendable = record {
  name_len = refl;
  name_bytes = omega arith;
  ts_fits = omega arith;
  bid_drawn = omega arith;
  ask_drawn = omega arith;
  bid_fits = omega arith;
  ask_fits = omega arith;
}

handles-InStep : InStep tick_outlet inlet nothing_sent 0
handles-InStep = record {
  holds = empty_ring-Holds nothing_sent;
  producer_at = refl;
  consumer_at = refl;
  buf_len = refl;
}

four-AreBytes : AreBytes four_zeros
four-AreBytes = ground arith

sent_tick_reaches_engine_example :
    let (_, _, tick) = send_symbol fixed sending stock draw in
    let ring =
      (on_result no_counters tick_outlet
        (received tick four_zeros four_zeros 10 four_zeros)
        (pos tick_size)).1.ring in
    (take_tick (record inlet { ring = ring })).0 ≡ some (record tick { recv_ts_ns = 10 })
sent_tick_reaches_engine_example =
    sent_tick_reaches_engine fixed sending stock draw no_counters tick_outlet inlet nothing_sent 0
      four_zeros four_zeros 10 four_zeros stock-Sendable handles-InStep refl four-AreBytes
      four-AreBytes refl (omega arith)
