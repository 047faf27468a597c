-- ===== src/Feedhandler/Tests.antt =====
-- The feed handler of crates/feedhandler/src/main.rs at concrete packets.
use dummy_benchmark.Base.{ℕ, refl, List, [], ◌∷◌, arith, ℕ_discrete}
use dummy_benchmark.Base.Bytes.{Bytes, update}
use dummy_benchmark.Base.Int.{pos, negsuc}
use dummy_benchmark.Message.{order_bytes}
use dummy_benchmark.Message.Layout.{length-order_bytes}
use dummy_benchmark.Ring.{publish}
use dummy_benchmark.Ring.Holds.{pad}
use dummy_benchmark.Ring.Calls.{publish-room}
use dummy_benchmark.Samples.{
  empty_ring, empty_ring-Holds, nothing_sent, zeros, four_zeros, first_producer, first_consumer,
  order_with, order_with-IsOrder, packet,
}
use dummy_benchmark.Feedhandler.{TickOutlet, Completion, OrderInlet}
use dummy_benchmark.Feedhandler.Orders.{Reads, Sends}

abbrev outlet : TickOutlet
outlet = record { ring = empty_ring; producer = first_producer }

abbrev completions : List Completion
completions =
    record { res = pos 68; buffer = packet; now = 10; padding = four_zeros }
    ∷ record { res = negsuc 10; buffer = packet; now = 11; padding = four_zeros }
    ∷ record { res = pos 5; buffer = packet; now = 12; padding = four_zeros }
    ∷ []

abbrev pub order_sent : ℕ → Bytes
order_sent = update nothing_sent 0 (pad (order_bytes (order_with 2)))

abbrev pub inlet : OrderInlet
inlet = record {
  ring = (publish empty_ring first_producer (order_bytes (order_with 2))).1;
  consumer = first_consumer;
  buf = zeros;
}

pub inlet-Reads : Reads inlet order_sent 0 1
inlet-Reads =
    let (_, holds, _) =
      publish-room (empty_ring-Holds nothing_sent) first_producer (order_bytes (order_with 2)) refl
        (omega arith)
        (omega (arith, length-order_bytes (order_with 2) (order_with-IsOrder 2 (omega arith)))) in
    record { holds = holds; consumer_at = refl; buf_len = refl }

pub order_sent-Sends : Sends order_sent 0 (order_with 2 ∷ [])
unfolding Sends ℕ_discrete
order_sent-Sends = (refl, order_with-IsOrder 2 (omega arith), tt)
