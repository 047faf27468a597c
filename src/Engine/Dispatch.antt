-- ===== src/Engine/Dispatch.antt =====
-- crates/trading-engine/src/main.rs: the counters of a run, and a round of the loop of
-- `run_with_workers`.
use mathlib.Core.Option
use dummy_benchmark.Base.{
  ℕ, Bool, true, false, Option, none, some, List, [], ◌∷◌, length, if◌then◌else◌, add64,
  saturating_sub, ◌||◌, not, ◌==◌,
}
use dummy_benchmark.Base.Bytes.{Bytes}
use dummy_benchmark.Latency.{LatencyHistogram, record_sample}
use dummy_benchmark.Latency
use dummy_benchmark.Message.{MarketTick, OrderMsg, read_tick}
use dummy_benchmark.Ring.{SpscRing, RingProducer, RingConsumer, consume}
use dummy_benchmark.Engine.{route, idle_backoff, try_publish_order}

-- The counters that `run_inline` and `run_with_workers` keep as local variables.
pub record Totals : Type 0 where
  pub ticks_seen : ℕ
  pub ticks_dropped : ℕ
  pub orders_sent : ℕ
  pub orders_dropped : ℕ
  pub shm_transit : LatencyHistogram
  pub end_to_end : LatencyHistogram

abbrev pub no_totals : Totals
no_totals = record {
  ticks_seen = 0;
  ticks_dropped = 0;
  orders_sent = 0;
  orders_dropped = 0;
  shm_transit = Latency.new;
  end_to_end = Latency.new;
}

-- A tick that was read at `consume_ts`.
unfoldable pub see_tick : Totals → MarketTick → ℕ → Totals
see_tick s tick consume_ts = record s {
  ticks_seen = add64 s.ticks_seen 1;
  shm_transit = record_sample s.shm_transit (saturating_sub consume_ts tick.recv_ts_ns);
  end_to_end = record_sample s.end_to_end (saturating_sub consume_ts tick.exch_ts_ns);
}

-- The engine's end of the order ring.
pub record Outlet : Type 0 where
  pub ring : SpscRing
  pub producer : RingProducer

-- An order is sent to the ring or dropped.
unfoldable pub offer_order : Totals → Outlet → OrderMsg → Totals × Outlet
offer_order s out order =
    let (done, ring, producer) = try_publish_order out.ring out.producer order in
    (
      if done
          then record s { orders_sent = add64 s.orders_sent 1 }
          else record s { orders_dropped = add64 s.orders_dropped 1 },
      record { ring = ring; producer = producer },
    )

-- `while let Ok((order, _)) = order_rx.try_recv()`, on the orders that the channel then gives.
unfoldable pub drain : Totals → Outlet → List OrderMsg → Totals × Outlet
drain s out [] = (s, out)
drain s out (o ∷ os) = let (s', out') = offer_order s out o in drain s' out' os

-- The engine's end of the tick ring, with the buffer that it reads into.
pub record Inlet : Type 0 where
  pub ring : SpscRing
  pub consumer : RingConsumer
  pub buf : Bytes

-- `try_consume` into a buffer of `SLOT_PAYLOAD` bytes, which passes its `assert!`, and the tick.
unfoldable pub take_tick : Inlet → Option MarketTick × Inlet
take_tick i =
    let (got, buf, ring, consumer) = consume i.ring i.consumer i.buf in
    (Option.map (λ _. read_tick buf) got, record { ring = ring; consumer = consumer; buf = buf })

-- `WorkItem`
pub record WorkItem : Type 0 where
  pub tick : MarketTick
  pub enqueued_ns : ℕ

-- What `try_send` to a worker's bounded channel answers.
pub data Sent : Type 0 where
  ok full disconnected : Sent

-- What a round meets outside: the clock at its two reads, the channel's answer, and the orders that
-- wait in the other channel.
pub record Meets : Type 0 where
  pub consume_ts : ℕ
  pub enqueued_ns : ℕ
  pub answer : Sent
  pub orders : List OrderMsg

-- What a round leaves: `left` when the loop breaks, `item` with its worker when one was handed over.
pub record Round : Type 0 where
  pub left : Bool
  pub item : Option (ℕ × WorkItem)
  pub totals : Totals
  pub inlet : Inlet
  pub outlet : Outlet
  pub idle_spin : ℕ

unfoldable pub count_answer : Totals → Sent → Totals
count_answer s ok = s
count_answer s full = record s { ticks_dropped = add64 s.ticks_dropped 1 }
count_answer s disconnected = s

unfoldable pub delivered : Sent → ℕ × WorkItem → Option (ℕ × WorkItem)
delivered ok item = some item
delivered full item = none
delivered disconnected item = none

unfoldable pub breaks : Sent → Bool
breaks ok = false
breaks full = false
breaks disconnected = true

-- The orders of the round, then the idle counter: `did_work` is that a tick or an order came.
unfoldable pub after_tick :
    Totals → Inlet → Outlet → ℕ → List OrderMsg → Option (ℕ × WorkItem) → Bool → Round
after_tick s inlet outlet idle orders item worked =
    let (s', outlet') = drain s outlet orders in
    let worked' = worked || not (length orders == 0) in
    record {
      left = false;
      item = item;
      totals = s';
      inlet = inlet;
      outlet = outlet';
      idle_spin = if worked' then 0 else (idle_backoff idle).0;
    }

-- A round that has read `tick`: the channel's answer, then the rest of the round unless it breaks.
unfoldable pub on_tick : ℕ → Totals → Inlet → Outlet → ℕ → Meets → MarketTick → Round
on_tick n s inlet outlet idle m tick =
    let s' = count_answer (see_tick s tick m.consume_ts) m.answer in
    let to : ℕ × WorkItem =
      (route tick.symbol n, record { tick = tick; enqueued_ns = m.enqueued_ns }) in
    if breaks m.answer
    then record {
      left = true;
      item = delivered m.answer to;
      totals = s';
      inlet = inlet;
      outlet = outlet;
      idle_spin = idle;
    }
    else after_tick s' inlet outlet idle m.orders (delivered m.answer to) true

-- A round of `run_with_workers` with `n` workers, from the read of the tick ring to the idle counter.
unfoldable pub dispatch_round : ℕ → Totals → Inlet → Outlet → ℕ → Meets → Round
dispatch_round n s inlet outlet idle m =
    let (got, inlet') = take_tick inlet in
    elim got [
      | none ↦ after_tick s inlet' outlet idle m.orders none false
      | some tick ↦ on_tick n s inlet' outlet idle m tick
    ]

-- What the loop finds at the start of a round: whether the stop flag or the deadline ends it, and the
-- rings as the other process has left them.
pub record Turn : Type 0 where
  pub stopped : Bool
  pub tick_ring : SpscRing
  pub order_ring : SpscRing
  pub meets : Meets

-- What the dispatcher keeps from one round to the next.
pub record Dispatcher : Type 0 where
  pub totals : Totals
  pub consumer : RingConsumer
  pub buf : Bytes
  pub producer : RingProducer
  pub idle_spin : ℕ

unfoldable pub turn_round : ℕ → Dispatcher → Turn → Round
turn_round n d t =
    dispatch_round n d.totals (record { ring = t.tick_ring; consumer = d.consumer; buf = d.buf })
      (record { ring = t.order_ring; producer = d.producer }) d.idle_spin t.meets

unfoldable pub after_round : Round → Dispatcher
after_round r = record {
  totals = r.totals;
  consumer = r.inlet.consumer;
  buf = r.inlet.buf;
  producer = r.outlet.producer;
  idle_spin = r.idle_spin;
}

unfoldable pub keep_item : Option (ℕ × WorkItem) → List (ℕ × WorkItem) → List (ℕ × WorkItem)
keep_item none items = items
keep_item (some item) items = item ∷ items

-- The loop of `run_with_workers`: the items that the workers' channels took, the oldest first, and
-- what the dispatcher keeps.
unfoldable pub dispatch_loop : ℕ → Dispatcher → List Turn → List (ℕ × WorkItem) × Dispatcher
dispatch_loop n d [] = ([], d)
dispatch_loop n d (t ∷ ts) =
    let r = turn_round n d t in
    let (items, d') = dispatch_loop n (after_round r) ts in
    if t.stopped
    then ([], d)
    else if r.left
    then (keep_item r.item [], after_round r)
    else (keep_item r.item items, d')

-- The drain after the workers have been joined, on the orders left in the channel.
unfoldable pub final_drain : Dispatcher → SpscRing → List OrderMsg → Totals
final_drain d order_ring orders =
    (drain d.totals (record { ring = order_ring; producer = d.producer }) orders).0
