-- ===== src/FeedhandlerMain/Tests.antt =====
-- A whole run of crates/feedhandler/src/main.rs at concrete arguments, and the theorem there.
use dummy_benchmark.Base.{◌≡◌, refl, true, false, ◌⊎◌, Option, none, some, [], ◌∷◌, arith}
use dummy_benchmark.Base.Fixed.{fixed}
use dummy_benchmark.Text.{Text, codes, to_string, ok, split, trim, split_once, parse_usize}
use dummy_benchmark.CpuList.{parse_cpu_list, parse_part}
use dummy_benchmark.Samples.{willing, empty_ring, order_with}
use dummy_benchmark.Bus.{bus_size, bus_magic, bus_version}
use dummy_benchmark.Startup.{
  start_feedhandler, continue, act, parse, pin_main, join_main, start_noise,
}
use dummy_benchmark.Ring.{init_in_place}
use dummy_benchmark.Report.{deliver}
use dummy_benchmark.Report.Feed.{FeedhandlerArgs, FeedhandlerReport, recv_batch}
use dummy_benchmark.Feedhandler.Loop.{
  done_of, woken, interrupted, Uring, Feed, posted, goes_on, feed_loop,
}
use dummy_benchmark.Feedhandler.Tests.{inlet, order_sent}
use dummy_benchmark.Feedhandler.LoopTests.{cqes, feed_turns-Rounds, one_receive}
use dummy_benchmark.TradingEngine.{ends_at, overflows, loop_ends}
use dummy_benchmark.FeedhandlerMain.{
  turn_of, post_from, begin_feed, turns, new_uring, reports, panicked, start_args, Run, feed_main,
}
use dummy_benchmark.FeedhandlerMain.Outcomes.{Reports, Works, report_of, feed_main-Reports}

abbrev quiet_args : FeedhandlerArgs fixed
quiet_args = record {
  pin_cpu = none;
  noise_threads = 0;
  noise_cpus = [];
  resctrl_group = [];
  noise_resctrl_group = [];
  bench_secs = 2;
  bench_report = some (codes "out");
  quiet = true;
  bind = codes "0.0.0.0:9000";
  bus = codes "bus";
  ring_depth = 256;
}

-- The last round comes after the deadline.
abbrev feed_run : Run fixed
feed_run = record {
  bus = record {
    len = bus_size;
    layout = record {
      magic = bus_magic;
      version = bus_version;
      ready = 1;
      ticks = empty_ring;
      orders = empty_ring;
    };
  };
  depth = some 256;
  answers = λ i. true ∷ true ∷ [];
  started = 7;
  looks =
      record {
        stop = false;
        instant = 8;
        tick_ring = empty_ring;
        order_ring = empty_ring;
        wait = interrupted;
      }
      ∷ record {
        stop = false;
        instant = 9;
        tick_ring = empty_ring;
        order_ring = inlet.ring;
        wait = woken cqes;
      }
      ∷ record {
        stop = false;
        instant = 2_000_000_007;
        tick_ring = empty_ring;
        order_ring = empty_ring;
        wait = interrupted;
      }
      ∷ [];
  elapsed = fixed.lit 2 1;
}

feed_run-Works : Works fixed quiet_args feed_run order_sent 0 (done_of cqes) (order_with 2 ∷ []) 256
unfolding turn_of loop_ends ends_at init_in_place
feed_run-Works = record {
  built = refl;
  deep = omega arith;
  succeed = λ i. ([], refl);
  rounds = feed_turns-Rounds;
  bus_at = refl;
  few = omega (arith, one_receive);
}

feed_started :
    (start_feedhandler willing (start_args fixed quiet_args) (codes "bus") (codes "0.0.0.0:9000")).1
    ≡ ok []
unfolding start_feedhandler parse_cpu_list parse_part split trim split_once parse_usize join_main
    continue pin_main act parse start_noise start_args
feed_started = refl

abbrev count_json : FeedhandlerReport fixed → Option Text
count_json report = some (to_string report.metrics.orders_received)

feed_main-Reports_example :
    let ends =
      (feed_main fixed (λ s. none) count_json (λ path. true) willing quiet_args feed_run).1 in
    let report =
      report_of fixed quiet_args feed_run order_sent 0
        (done_of cqes)
        (order_with 2 ∷ [])
        (λ s. none)
        count_json
        (λ path. true)
        willing
        [] in
    ((overflows 2 7 ≡ true) × (ends ≡ ok panicked))
    ⊎ ((overflows 2 7 ≡ false)
        × (u : Uring) × (f : Feed) × (post_from recv_batch 0 (new_uring fixed 256) feed_run.answers
            ≡ posted u)
        × (feed_loop (begin_feed feed_run.bus u) (turns fixed quiet_args feed_run) ≡ goes_on f)
        × (ends
            ≡ ok (reports (deliver count_json (λ path. true) (some (codes "out")) 2 (report f))))
        × Reports fixed (report f).metrics (done_of cqes) (order_with 2 ∷ []))
feed_main-Reports_example =
    feed_main-Reports fixed quiet_args feed_run order_sent 0 (done_of cqes) (order_with 2 ∷ [])
      (λ s. none) count_json (λ path. true) willing 256 [] feed_run-Works feed_started
