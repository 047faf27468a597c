-- ===== src/FeedhandlerMain/Outcomes.antt =====
-- What `main` of crates/feedhandler/src/main.rs reports.
use mathlib.Core.List.{append_assoc, append-nil}
use dummy_benchmark.TradingEngine.{overflows}
use dummy_benchmark.TradingEngine.Deadline.{deadline_of-late, deadline_of-ends_at}
use dummy_benchmark.Base.{
  ◌⊎◌, inl, inr, true, false, none, Bool-cases, ℕ, zero, suc, ◌+◌, ◌%◌, ◌^◌, ◌<◌, ◌≡◌, refl, sym,
  ap, ◌∙◌, Bool, Option, List, [], ◌∷◌, ◌++◌, length, arith, some, length-replicate,
}
use dummy_benchmark.Base.Bytes.{Bytes}
use dummy_benchmark.Base.Float.{Float}
use dummy_benchmark.Text.{Text, ok}
use dummy_benchmark.Message.{OrderMsg}
use dummy_benchmark.Ring.{slot_payload, new_consumer}
use dummy_benchmark.Bus.{orders_consumer}
use dummy_benchmark.Latency.{summary}
use dummy_benchmark.Startup.{Machine, start_feedhandler, continue}
use dummy_benchmark.Report.{deliver, host_info}
use dummy_benchmark.Report.Feed.{
  FeedhandlerArgs, FeedhandlerReport, FeedhandlerMetrics, recv_batch, feedhandler_report,
  feedhandler_metrics,
}
use dummy_benchmark.Feedhandler.Counts.{packet_count}
use dummy_benchmark.Feedhandler.Loop.{Uring, posted, Cqe, Feed, goes_on, feed_loop}
use dummy_benchmark.Feedhandler.Posting.{
  posts, Succeed, submit_recv-posted, completions_of, user_data_of,
}
use dummy_benchmark.Feedhandler.Serving.{receives, Serves}
use dummy_benchmark.Feedhandler.Served.{Rounds, feed_loop-Serves}
use dummy_benchmark.FeedhandlerMain.{
  post_from, begin_feed, Ended, reports, panicked, start_args, Run, turns, new_uring, after_posting,
  conclude, run_feed, feed_main,
}

-- The indices of `k` buffers from `idx` on.
abbrev pub count_from : ℕ → ℕ → List ℕ
count_from zero idx = []
count_from (suc k) idx = idx ∷ count_from k (idx + 1)

-- When the submits succeed, each of the buffers is posted once, in order.
pub post_from-posts :
    (k idx : ℕ) (u : Uring) (answers : ℕ → List Bool)
    → 0 < u.depth
    → ((i : ℕ) → Succeed (answers i))
    → (u' : Uring) × (post_from k idx u answers ≡ posted u')
      × (posts u' ≡ posts u ++ count_from k idx)
      × (u'.depth ≡ u.depth)
unfolding post_from
post_from-posts zero idx u answers deep good = (u, refl, sym (append-nil (posts u)), refl)
post_from-posts (suc k) idx u answers deep good =
    let next : Uring = record u { queue = []; submitted = posts u ++ idx ∷ [] } in
    let (u', done, all, same) = post_from-posts k (idx + 1) next answers deep good in
    (
      u',
      rw (post_from, submit_recv-posted u idx (answers idx) deep (good idx)) done,
      all
          ∙ ap (λ l. l ++ count_from k (idx + 1)) (append-nil (posts u ++ idx ∷ []))
          ∙ append_assoc (posts u) (idx ∷ []) (count_from k (idx + 1)),
      same,
    )

-- What a report says of the receives `qs` that completed and the orders `os` that were read.
pub record Reports (fl : Float) (m : FeedhandlerMetrics fl) (qs : List Cqe) (os : List OrderMsg)
    : Type 0 where
  pub each_once :
      m.ticks_published + m.publish_drops + m.bad_packets ≡ packet_count (completions_of qs)
  pub samples : m.wire_latency.count ≡ m.ticks_published + m.publish_drops
  pub orders_are : m.orders_received ≡ length os % 2 ^ 64

module _ (fl : Float) (args : FeedhandlerArgs fl) (r : Run fl) (sent : ℕ → Bytes) (c : ℕ)
    (qs : List Cqe) (os : List OrderMsg) where
  -- The world of a run: io_uring is built, its submits succeed and its waits bring no error; the bus
  -- stands before position `c` of the order ring, on which the engine puts `os`; no counter runs over.
  pub record Works (depth : ℕ) : Type 0 where
    pub built : r.depth ≡ some depth
    pub deep : 0 < depth
    pub succeed : (i : ℕ) → Succeed (r.answers i)
    pub rounds : Rounds sent c (turns fl args r) qs os
    pub bus_at : r.bus.layout.orders.tail ≡ c % 2 ^ 64
    pub few : length qs < 2 ^ 64

  -- The receives are posted, each buffer once, and the loop runs to its end.
  record Runs (depth : ℕ) (u : Uring) (f : Feed) : Type 0 where
    posting_done : post_from recv_batch 0 (new_uring fl depth) r.answers ≡ posted u
    loop_ends : feed_loop (begin_feed r.bus u) (turns fl args r) ≡ goes_on f
    serves : Serves (begin_feed r.bus u) qs os f
    reposted : receives (posts f.uring) ≡ count_from recv_batch 0 ++ user_data_of qs

  loop-Serves : (depth : ℕ) → Works depth → (u : Uring) × (f : Feed) × Runs depth u f
  unfolding begin_feed orders_consumer new_consumer
  loop-Serves depth w =
      let (u, done, all, same) =
        post_from-posts recv_batch 0 (new_uring fl depth) r.answers w.deep w.succeed in
      let (f, runs, serves, reads_all) =
        feed_loop-Serves sent c (begin_feed r.bus u) (turns fl args r) qs os w.rounds
          (record {
            consumer_at = w.bus_at;
            buf_len = length-replicate {A = ℕ} slot_payload 0;
            timed = refl;
            deep = omega (arith, same, w.deep);
            count_fits = omega arith;
          })
          (omega (arith, w.few)) in
      (
        u,
        f,
        record {
          posting_done = done;
          loop_ends = runs;
          serves = serves;
          reposted = serves.reposted ∙ ap (λ l. receives l ++ user_data_of qs) all;
        },
      )

  module _ (parse_f64 : Text → Option fl.F) (to_json : FeedhandlerReport fl → Option Text)
      (writes : Text → Bool) (m : Machine) where
    -- The report on what the loop has left in `f`.
    abbrev pub report_of : List ℕ → Feed → FeedhandlerReport fl
    report_of cpus f =
        feedhandler_report fl m args (host_info fl parse_f64 m.files) cpus f.counters f.order_count
          r.elapsed

    loop_reported :
        (cpus : List ℕ) (u : Uring) (f : Feed)
        → Serves (begin_feed r.bus u) qs os f
        → Reports fl (report_of cpus f).metrics qs os
    unfolding feedhandler_report feedhandler_metrics summary begin_feed
    loop_reported cpus u f s = record {
      each_once = omega (arith, s.counted.each_once);
      samples = omega (arith, s.counted.timed);
      orders_are = omega (arith, s.orders_read);
    }

    run_feed-posted :
        (depth : ℕ) (cpus : List ℕ) (u : Uring) (f : Feed)
        → r.depth ≡ some depth
        → Runs depth u f
        → run_feed fl parse_f64 to_json writes m args r cpus
          ≡ after_posting fl parse_f64 to_json writes m args r cpus (posted u)
    unfolding run_feed
    run_feed-posted depth cpus u f built runs =
        rw (run_feed, built)
          (ap (after_posting fl parse_f64 to_json writes m args r cpus) runs.posting_done)

    after_posting-late :
        (cpus : List ℕ) (u : Uring)
        → overflows args.bench_secs r.started ≡ true
        → after_posting fl parse_f64 to_json writes m args r cpus (posted u) ≡ panicked
    unfolding after_posting
    after_posting-late cpus u late =
        let loop =
          conclude fl parse_f64 to_json writes m args r cpus
            (feed_loop (begin_feed r.bus u) (turns fl args r)) in
        let after : Option (Option ℕ) → Ended = λ o. elim o [ none ↦ panicked | some _ ↦ loop ] in
        ap after (deadline_of-late args.bench_secs r.started late)

    after_posting-reports :
        (cpus : List ℕ) (u : Uring) (f : Feed)
        → feed_loop (begin_feed r.bus u) (turns fl args r) ≡ goes_on f
        → overflows args.bench_secs r.started ≡ false
        → after_posting fl parse_f64 to_json writes m args r cpus (posted u)
          ≡ reports (deliver to_json writes args.bench_report args.bench_secs (report_of cpus f))
    unfolding after_posting conclude
    after_posting-reports cpus u f runs in_time =
        let loop =
          conclude fl parse_f64 to_json writes m args r cpus
            (feed_loop (begin_feed r.bus u) (turns fl args r)) in
        let after : Option (Option ℕ) → Ended = λ o. elim o [ none ↦ panicked | some _ ↦ loop ] in
        ap after (deadline_of-ends_at args.bench_secs r.started in_time)
        ∙ ap (conclude fl parse_f64 to_json writes m args r cpus) runs

    -- A feed handler whose start succeeds, in a world that works, panics if its deadline overflows the
    -- clock. If not, the first receives are posted, the loop runs from them to its end, and what is
    -- delivered is the report on what the loop has left. That report counts each packet that was received
    -- once, as published, dropped or bad, has a latency sample for each that was published or dropped, and
    -- counts the orders that the engine has put on the bus, to 64 bits. That the world works is that
    -- io_uring is built with room for an entry, that its submits succeed and its waits bring no error,
    -- that the bus is opened at the position of the first of these orders, that each round finds fewer
    -- orders than the ring and one more, and that the receives that complete do not number 2 ^ 64.
    pub feed_main-Reports :
        (depth : ℕ) (cpus : List ℕ)
        → Works depth
        → (start_feedhandler m (start_args fl args) args.bus args.bind).1 ≡ ok cpus
        → let ends = (feed_main fl parse_f64 to_json writes m args r).1 in
          ((overflows args.bench_secs r.started ≡ true) × (ends ≡ ok panicked))
          ⊎ ((overflows args.bench_secs r.started ≡ false)
              × (u : Uring) × (f : Feed) × (post_from recv_batch 0 (new_uring fl depth) r.answers
                  ≡ posted u)
              × (feed_loop (begin_feed r.bus u) (turns fl args r) ≡ goes_on f)
              × (ends
                  ≡ ok (
                      reports (
                        deliver to_json writes args.bench_report args.bench_secs
                          (report_of cpus f))))
              × Reports fl (report_of cpus f).metrics qs os)
    unfolding feed_main continue
    feed_main-Reports depth cpus w started =
        let (u, f, runs) = loop-Serves depth w in
        let acts = (start_feedhandler m (start_args fl args) args.bus args.bind).0 in
        let run = run_feed fl parse_f64 to_json writes m args r in
        let starts = ap (λ x. (continue acts x (λ l. ([], ok (run l)))).1) started in
        let posts_first = run_feed-posted depth cpus u f w.built runs in
        elim (Bool-cases (overflows args.bench_secs r.started)) [
          | inl late ↦ inl (late, starts ∙ ap ok (posts_first ∙ after_posting-late cpus u late))
          | inr in_time ↦ inr (
            in_time,
            u,
            f,
            runs.posting_done,
            runs.loop_ends,
            starts ∙ ap ok (posts_first ∙ after_posting-reports cpus u f runs.loop_ends in_time),
            loop_reported cpus u f runs.serves,
          )
        ]
