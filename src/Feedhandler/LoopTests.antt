-- ===== src/Feedhandler/LoopTests.antt =====
-- The loop of crates/feedhandler/src/main.rs over concrete rounds, and the theorem there.
use mathlib.Core.List.{append-nil}
use dummy_benchmark.Base.{◌≡◌, refl, sym, length, true, false, List, [], ◌∷◌, arith}
use dummy_benchmark.Base.Int.{pos}
use dummy_benchmark.Samples.{
  empty_ring, zeros, four_zeros, first_producer, first_consumer, order_with, packet,
}
use dummy_benchmark.Feedhandler.{no_counters}
use dummy_benchmark.Feedhandler.Loop.{
  timeout_ud, submit_recv, posted, Cqe, done_of, Feed, goes_on, woken, interrupted, Turn, feed_loop,
}
use dummy_benchmark.Feedhandler.Posting.{AllSubmit}
use dummy_benchmark.Feedhandler.Serving.{Serves}
use dummy_benchmark.Feedhandler.Served.{
  ReadAll, Rounds, stopping, skipping, serving, feed_loop-Serves,
}
use dummy_benchmark.Feedhandler.Tests.{inlet, inlet-Reads, order_sent, order_sent-Sends}

-- A full queue is handed over before the receive is pushed.
crowded :
    submit_recv (record { depth = 1; queue = 7 ∷ []; submitted = [] }) 3 (true ∷ true ∷ [])
    ≡ posted (record { depth = 1; queue = []; submitted = 7 ∷ 3 ∷ [] })
unfolding submit_recv
crowded = refl

abbrev pub cqes : List Cqe
cqes =
    record {
      user_data = 5;
      completion = record { res = pos 68; buffer = packet; now = 10; padding = four_zeros };
      submits = true ∷ true ∷ [];
    }
    ∷ record {
      user_data = timeout_ud;
      completion = record { res = pos 0; buffer = packet; now = 11; padding = four_zeros };
      submits = [];
    }
    ∷ []

-- An interrupted wait, a packet with an order waiting, and the stop.
abbrev pub feed_turns : List Turn
feed_turns =
    record { stopped = false; tick_ring = empty_ring; order_ring = empty_ring; wait = interrupted }
    ∷ record { stopped = false; tick_ring = empty_ring; order_ring = inlet.ring; wait = woken cqes }
    ∷ record { stopped = true; tick_ring = empty_ring; order_ring = empty_ring; wait = interrupted }
    ∷ []

abbrev feed : Feed
feed = record {
  counters = no_counters;
  order_count = 0;
  producer = first_producer;
  consumer = first_consumer;
  order_buf = zeros;
  uring = record { depth = 256; queue = []; submitted = 0 ∷ 1 ∷ [] };
}

submits : AllSubmit (done_of cqes)
unfolding done_of
submits = (([], refl), tt)

pub one_receive : length (done_of cqes) ≡ 1
unfolding done_of
one_receive = refl

pub feed_turns-Rounds : Rounds order_sent 0 feed_turns (done_of cqes) (order_with 2 ∷ [])
feed_turns-Rounds = skipping refl refl (
    serving (order_with 2 ∷ []) refl refl submits inlet-Reads.holds refl order_sent-Sends
      (omega arith) (stopping {c = 1} refl) (sym (append-nil (done_of cqes))) refl)

feed_loop-Serves_example :
    (f' : Feed) × (feed_loop feed feed_turns ≡ goes_on f')
    × Serves feed (done_of cqes) (order_with 2 ∷ []) f'
    × ReadAll 0 feed feed_turns (order_with 2 ∷ []) f'
feed_loop-Serves_example =
    feed_loop-Serves order_sent 0 feed feed_turns (done_of cqes) (order_with 2 ∷ [])
      feed_turns-Rounds
      (record {
        consumer_at = refl;
        buf_len = refl;
        timed = refl;
        deep = omega arith;
        count_fits = omega arith;
      })
      (omega (arith, one_receive))
