-- ===== src/Report/Feed.antt =====
-- The report at the end of `main` of crates/feedhandler/src/main.rs.
use dummy_benchmark.Base.{ℕ, Bool, Option, List}
use dummy_benchmark.Base.Float.{Float}
use dummy_benchmark.Text.{Text, codes}
use dummy_benchmark.CpuList.{format_cpu_list}
use dummy_benchmark.Latency.{Summary, summary}
use dummy_benchmark.Startup.{Machine, is_available}
use dummy_benchmark.Feedhandler.{Counters}
use dummy_benchmark.Report.{HostInfo, throughput, report_schemata}

-- `RECV_BATCH`
abbrev pub recv_batch : ℕ
recv_batch = 32

module _ (fl : Float) where
  open fl use {F, lit, of_u64, div, lt}

  -- `Args` of the feed handler.
  pub record FeedhandlerArgs : Type 0 where
    pub pin_cpu : Option ℕ
    pub noise_threads : ℕ
    pub noise_cpus : Text
    pub resctrl_group : Text
    pub noise_resctrl_group : Text
    pub bench_secs : ℕ
    pub bench_report : Option Text
    pub quiet : Bool
    pub bind : Text
    pub bus : Text
    pub ring_depth : ℕ

  pub record FeedhandlerConfig : Type 0 where
    pub binary : Text
    pub pin_cpu : Option ℕ
    pub noise_threads : ℕ
    pub noise_cpus : Text
    pub resctrl_group : Text
    pub noise_resctrl_group : Text
    pub resctrl_available : Bool
    pub schemata : Text
    pub bench_secs : ℕ
    pub bind : Text
    pub bus : Text
    pub ring_depth : ℕ
    pub recv_batch : ℕ

  pub record FeedhandlerMetrics : Type 0 where
    pub ticks_published : ℕ
    pub publish_drops : ℕ
    pub bad_packets : ℕ
    pub orders_received : ℕ
    pub elapsed_secs : F
    pub throughput_ticks_per_sec : F
    pub wire_latency : Summary

  pub record FeedhandlerReport : Type 0 where
    pub schema : Text
    pub host : HostInfo fl
    pub config : FeedhandlerConfig
    pub metrics : FeedhandlerMetrics

  unfoldable pub feedhandler_metrics : Counters → ℕ → F → FeedhandlerMetrics
  unfolding throughput
  feedhandler_metrics s order_count elapsed = record {
    ticks_published = s.recv_count;
    publish_drops = s.publish_drops;
    bad_packets = s.bad_packets;
    orders_received = order_count;
    elapsed_secs = elapsed;
    throughput_ticks_per_sec = throughput fl s.recv_count elapsed;
    wire_latency = summary fl s.wire_lat;
  }

  unfoldable pub feedhandler_config : Machine → FeedhandlerArgs → List ℕ → FeedhandlerConfig
  feedhandler_config m args noise_cpus = record {
    binary = codes "feedhandler";
    pin_cpu = args.pin_cpu;
    noise_threads = args.noise_threads;
    noise_cpus = format_cpu_list noise_cpus;
    resctrl_group = args.resctrl_group;
    noise_resctrl_group = args.noise_resctrl_group;
    resctrl_available = is_available m;
    schemata = report_schemata m args.resctrl_group;
    bench_secs = args.bench_secs;
    bind = args.bind;
    bus = args.bus;
    ring_depth = args.ring_depth;
    recv_batch = recv_batch;
  }

  unfoldable pub feedhandler_report :
      Machine → FeedhandlerArgs → HostInfo fl → List ℕ → Counters → ℕ → F → FeedhandlerReport
  unfolding feedhandler_metrics feedhandler_config
  feedhandler_report m args host noise_cpus s order_count elapsed = record {
    schema = codes "dummy-benchmark/feedhandler/v1";
    host = host;
    config = feedhandler_config m args noise_cpus;
    metrics = feedhandler_metrics s order_count elapsed;
  }
