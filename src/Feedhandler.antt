-- ===== src/Feedhandler.antt =====
-- crates/feedhandler/src/main.rs: received packets go to the tick ring, and orders come off the order
-- ring.
pub mod Forward
pub mod Counts
pub mod Orders
pub mod Loop
pub mod Posting
pub mod Serving
pub mod Served
pub mod Tests
pub mod LoopTests
use mathlib.Core.Option
use dummy_benchmark.Base.{
  ℕ, zero, suc, ◌+◌, ◌-◌, Bool, true, false, Option, none, some, List, [], ◌∷◌, length, take, drop,
  ltb, if◌then◌else◌, add64, saturating_sub,
}
use dummy_benchmark.Base.Bytes.{Bytes}
use dummy_benchmark.Base.Int.{ℤ, pos, negsuc}
use dummy_benchmark.Latency.{LatencyHistogram, record_sample}
use dummy_benchmark.Latency
use dummy_benchmark.Message.{MarketTick, OrderMsg, tick_size, tick_bytes, read_tick, read_order}
use dummy_benchmark.Ring.{SpscRing, RingProducer, RingConsumer, publish, consume}

-- `parse_tick`: the bytes of a tick copied to a tick. Padding bytes come along in memory and are no
-- field.
unfoldable pub parse_tick : Bytes → Option MarketTick
parse_tick bytes =
    if ltb (length bytes) tick_size then none else some (read_tick (take tick_size bytes))

-- The local variables of the loop of `main` that the completions change.
pub record Counters : Type 0 where
  pub recv_count : ℕ
  pub publish_drops : ℕ
  pub bad_packets : ℕ
  pub wire_lat : LatencyHistogram

abbrev pub no_counters : Counters
no_counters = record { recv_count = 0; publish_drops = 0; bad_packets = 0; wire_lat = Latency.new }

-- The feed handler's end of the tick ring.
pub record TickOutlet : Type 0 where
  pub ring : SpscRing
  pub producer : RingProducer

-- A tick stamped with the clock `now`, recorded and published. `padding` is what the four bytes of
-- padding of the tick hold in memory; 64 bytes pass the `assert!` of `try_publish`.
unfoldable pub publish_tick : Counters → TickOutlet → MarketTick → ℕ → Bytes → Counters × TickOutlet
publish_tick s out tick now padding =
    let t = record tick { recv_ts_ns = now } in
    let lat = record_sample s.wire_lat (saturating_sub now t.exch_ts_ns) in
    let (done, ring, producer) = publish out.ring out.producer (tick_bytes t padding) in
    (
      if done
          then record s { wire_lat = lat; recv_count = add64 s.recv_count 1 }
          else record s { wire_lat = lat; publish_drops = add64 s.publish_drops 1 },
      record { ring = ring; producer = producer },
    )

-- A completion of a receive: the result `res`, an `i32`, the buffer that it filled, the clock and the
-- padding of the tick.
pub record Completion : Type 0 where
  pub res : ℤ
  pub buffer : Bytes
  pub now : ℕ
  pub padding : Bytes

-- The bytes that were received: `&buffers[idx][..res as usize]`.
unfoldable pub on_packet : Counters → TickOutlet → ℕ → Completion → Counters × TickOutlet
on_packet s out n c =
    if ltb n tick_size
    then (record s { bad_packets = add64 s.bad_packets 1 }, out)
    else elim (parse_tick (take n c.buffer)) [
      | some tick ↦ publish_tick s out tick c.now c.padding
      | none ↦ (record s { bad_packets = add64 s.bad_packets 1 }, out)
    ]

unfoldable pub on_result : Counters → TickOutlet → Completion → ℤ → Counters × TickOutlet
on_result s out c (negsuc _) = (s, out)
on_result s out c (pos n) = on_packet s out n c

-- A step of `for (idx, res) in done.drain(..)`, before the buffer is posted again.
unfoldable pub on_completion : Counters → TickOutlet → Completion → Counters × TickOutlet
on_completion s out c = on_result s out c c.res

unfoldable pub on_completions : Counters → TickOutlet → List Completion → Counters × TickOutlet
on_completions s out [] = (s, out)
on_completions s out (c ∷ cs) = let (s', out') = on_completion s out c in on_completions s' out' cs

-- The feed handler's end of the order ring, with the buffer that it reads into.
pub record OrderInlet : Type 0 where
  pub ring : SpscRing
  pub consumer : RingConsumer
  pub buf : Bytes

-- `while order_cons.try_consume(&mut order_buf).is_some()`: the orders that are read, the oldest
-- first, and the inlet; `none` when the fuel does not reach the empty ring.
unfoldable pub read_orders : ℕ → OrderInlet → Option (List OrderMsg × OrderInlet)
read_orders zero i = none
read_orders (suc fuel) i =
    let (got, buf, ring, consumer) = consume i.ring i.consumer i.buf in
    let i' : OrderInlet = record { ring = ring; consumer = consumer; buf = buf } in
    let rest = read_orders fuel i' in
    elim got [ none ↦ some ([], i') | some _ ↦ Option.map (λ r. (read_order buf ∷ r.0, r.1)) rest ]
