-- ===== src/Report/Tests.antt =====
-- The reports of crates/trading-engine/src/main.rs at a concrete run, and the theorem there.
use dummy_benchmark.Base.{ℕ, ◌≡◌, refl, true, false, none, some, List, [], ◌∷◌}
use dummy_benchmark.Text.{codes}
use dummy_benchmark.Engine.Dispatch.{ok, Turn, Dispatcher, no_totals}
use dummy_benchmark.Samples.{
  empty_ring, ring_with_tick, order_with, first_consumer, first_producer, zeros,
}
use dummy_benchmark.Report.{deliver, write_report, written, silent}

-- A run that was not asked for a report and is no benchmark writes none.
no_report :
    (deliver (λ (n : ℕ). some (codes "{}")) (λ path. true) none 0 7 ≡ silent)
    × (deliver (λ (n : ℕ). some (codes "{}")) (λ path. true) (some (codes "out")) 0 7
        ≡ written (codes "out") (codes "{}"))
unfolding deliver write_report
no_report = (refl, refl)

abbrev dispatcher : Dispatcher
dispatcher = record {
  totals = no_totals;
  consumer = first_consumer;
  buf = zeros;
  producer = first_producer;
  idle_spin = 0;
}

-- A round that reads a tick and an order.
abbrev turns : List Turn
turns =
    record {
      stopped = false;
      tick_ring = ring_with_tick;
      order_ring = empty_ring;
      meets = record {
        consume_ts = 3_000;
        enqueued_ns = 3_100;
        answer = ok;
        orders = order_with 2 ∷ [];
      };
    }
    ∷ []
