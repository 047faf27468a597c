-- ===== src/FeedhandlerMain.antt =====
-- `main` of crates/feedhandler/src/main.rs as a whole: the start, the receives that are posted first, the
-- loop up to its deadline, and the report.
pub mod Outcomes
mod Tests
use dummy_benchmark.Base.{
  ℕ, zero, suc, ◌+◌, replicate, Bool, Option, none, some, List, [], ◌∷◌, map,
}
use dummy_benchmark.Base.Float.{Float}
use dummy_benchmark.Text.{Text, ok}
use dummy_benchmark.Ring.{SpscRing, slot_payload}
use dummy_benchmark.Bus.{BusFile, ticks_producer, orders_consumer}
use dummy_benchmark.Feedhandler.{no_counters}
use dummy_benchmark.Feedhandler.Loop.{
  Uring, Posted, posted, refused, posting, submit_recv, Feed, Flow, goes_on, fails, hangs, Wait,
  Turn, feed_loop,
}
use dummy_benchmark.Startup.{Machine, Args, Start, start_feedhandler, continue, ◌>>=◌}
use dummy_benchmark.Report.{host_info, Outcome, deliver}
use dummy_benchmark.Report.Feed.{FeedhandlerArgs, FeedhandlerReport, recv_batch, feedhandler_report}
use dummy_benchmark.TradingEngine.{ends_at, deadline_of, loop_ends}

-- `for idx in 0..RECV_BATCH { submit_recv(..)?; }` from `idx` on, for `k` buffers: `answers` has what the
-- submits for each buffer answer.
unfoldable pub post_from : ℕ → ℕ → Uring → (ℕ → List Bool) → Posted
post_from zero idx u answers = posted u
post_from (suc k) idx u answers = elim (submit_recv u idx (answers idx)) [
  | posted u' ↦ post_from k (idx + 1) u' answers
  | refused u' ↦ refused u'
  | posting u' ↦ posting u'
]

-- What a round of the loop meets: the stop flag, the instant, the rings as the engine has left them, and
-- what the wait brings.
pub record Look : Type 0 where
  pub stop : Bool
  pub instant : ℕ
  pub tick_ring : SpscRing
  pub order_ring : SpscRing
  pub wait : Wait

unfoldable pub turn_of : Option ℕ → Look → Turn
unfolding loop_ends
turn_of deadline l = record {
  stopped = loop_ends deadline l.stop l.instant;
  tick_ring = l.tick_ring;
  order_ring = l.order_ring;
  wait = l.wait;
}

-- The local variables before the loop, on an open bus and with the receives posted.
unfoldable pub begin_feed : BusFile → Uring → Feed
begin_feed bus u = record {
  counters = no_counters;
  order_count = 0;
  producer = ticks_producer bus;
  consumer = orders_consumer bus;
  order_buf = replicate slot_payload 0;
  uring = u;
}

-- What `main` comes to after its start: a report, an error of io_uring, the panic of its deadline, or a
-- wait in a loop that has not ended.
pub data Ended : Type 0 where
  reports : Outcome → Ended
  uring_error : Ended
  panicked : Ended
  unended : Ended

module _ (fl : Float) where
  unfoldable pub start_args : FeedhandlerArgs fl → Args
  start_args args = record {
    pin_cpu = args.pin_cpu;
    noise_threads = args.noise_threads;
    noise_cpus = args.noise_cpus;
    resctrl_group = args.resctrl_group;
    noise_resctrl_group = args.noise_resctrl_group;
  }

  -- What a run meets: the bus as it is opened, the depth of the submission queue that
  -- the kernel gives or none at an error, the answers of the first submits, the instant of the
  -- start, the rounds, and the elapsed seconds.
  pub record Run : Type 0 where
    pub bus : BusFile
    pub depth : Option ℕ
    pub answers : ℕ → List Bool
    pub started : ℕ
    pub looks : List Look
    pub elapsed : fl.F

  abbrev pub turns : FeedhandlerArgs fl → Run → List Turn
  turns args r = map (turn_of (ends_at args.bench_secs r.started)) r.looks

  abbrev pub new_uring : ℕ → Uring
  new_uring depth = record { depth = depth; queue = []; submitted = [] }

  module _ (parse_f64 : Text → Option fl.F) (to_json : FeedhandlerReport fl → Option Text)
      (writes : Text → Bool) where
    -- The report, when the loop has ended.
    unfoldable pub conclude : Machine → FeedhandlerArgs fl → Run → List ℕ → Flow Feed → Ended
    conclude m args r cpus (goes_on f) = reports (
        deliver to_json writes args.bench_report args.bench_secs (
          feedhandler_report fl m args (host_info fl parse_f64 m.files) cpus f.counters
            f.order_count r.elapsed))
    conclude m args r cpus (fails f) = uring_error
    conclude m args r cpus (hangs f) = unended

    -- The deadline and the loop, once the first receives are posted.
    unfoldable pub after_posting : Machine → FeedhandlerArgs fl → Run → List ℕ → Posted → Ended
    unfolding conclude begin_feed turn_of
    after_posting m args r cpus (posted u) = elim (deadline_of args.bench_secs r.started) [
      | none ↦ panicked
      | some deadline ↦ conclude m args r cpus (feed_loop (begin_feed r.bus u) (turns args r))
    ]
    after_posting m args r cpus (refused u) = uring_error
    after_posting m args r cpus (posting u) = unended

    -- `main` below its start.
    unfoldable pub run_feed : Machine → FeedhandlerArgs fl → Run → List ℕ → Ended
    unfolding after_posting
    run_feed m args r cpus = elim r.depth [
      | none ↦ uring_error
      | some depth ↦
          after_posting m args r cpus (post_from recv_batch 0 (new_uring depth) r.answers)
    ]

    unfoldable pub feed_main : Machine → FeedhandlerArgs fl → Run → Start Ended
    unfolding start_args run_feed
    feed_main m args r = start_feedhandler m (start_args args) args.bus args.bind >>= λ cpus.
        ([], ok (run_feed m args r cpus))
