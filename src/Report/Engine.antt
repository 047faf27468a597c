-- ===== src/Report/Engine.antt =====
-- The report of crates/trading-engine/src/main.rs: `finalise_report`.
use dummy_benchmark.Base.{ℕ, Bool, Option, List}
use dummy_benchmark.Base.Float.{Float}
use dummy_benchmark.Text.{Text, codes}
use dummy_benchmark.CpuList.{format_cpu_list}
use dummy_benchmark.Latency.{Summary, summary}
use dummy_benchmark.Startup.{Machine, is_available}
use dummy_benchmark.Engine.Dispatch.{Totals}
use dummy_benchmark.Report.{HostInfo, throughput, report_schemata, Outcome, deliver}

module _ (fl : Float) where
  open fl use {F, lit, of_u64, div, lt}

  -- `Args` of the engine.
  pub record EngineArgs : Type 0 where
    pub pin_cpu : Option ℕ
    pub workers : ℕ
    pub worker_cpus : Text
    pub noise_threads : ℕ
    pub noise_cpus : Text
    pub resctrl_group : Text
    pub noise_resctrl_group : Text
    pub bench_secs : ℕ
    pub bench_report : Option Text
    pub quiet : Bool
    pub ema_halflife : F
    pub threshold_bps : F
    pub cooldown_ns : ℕ
    pub qty : ℕ
    pub bus : Text

  pub record EngineConfig : Type 0 where
    pub binary : Text
    pub pin_cpu : Option ℕ
    pub workers : ℕ
    pub worker_cpus : Text
    pub noise_threads : ℕ
    pub noise_cpus : Text
    pub resctrl_group : Text
    pub noise_resctrl_group : Text
    pub resctrl_available : Bool
    pub schemata : Text
    pub bench_secs : ℕ
    pub ema_halflife : F
    pub threshold_bps : F
    pub cooldown_ns : ℕ
    pub qty : ℕ
    pub bus : Text

  pub record EngineMetrics : Type 0 where
    pub ticks_consumed : ℕ
    pub ticks_dropped_dispatch : ℕ
    pub orders_emitted : ℕ
    pub orders_dropped_ring_full : ℕ
    pub elapsed_secs : F
    pub throughput_ticks_per_sec : F
    pub shm_transit : Summary
    pub end_to_end : Summary
    pub worker_dispatch : List Summary

  pub record EngineReport : Type 0 where
    pub schema : Text
    pub host : HostInfo fl
    pub config : EngineConfig
    pub metrics : EngineMetrics

  unfoldable pub engine_metrics : Totals → F → List Summary → EngineMetrics
  unfolding throughput
  engine_metrics s elapsed worker_dispatch = record {
    ticks_consumed = s.ticks_seen;
    ticks_dropped_dispatch = s.ticks_dropped;
    orders_emitted = s.orders_sent;
    orders_dropped_ring_full = s.orders_dropped;
    elapsed_secs = elapsed;
    throughput_ticks_per_sec = throughput fl s.ticks_seen elapsed;
    shm_transit = summary fl s.shm_transit;
    end_to_end = summary fl s.end_to_end;
    worker_dispatch = worker_dispatch;
  }

  unfoldable pub engine_config : Machine → EngineArgs → List ℕ → EngineConfig
  engine_config m args noise_cpus = record {
    binary = codes "trading-engine";
    pin_cpu = args.pin_cpu;
    workers = args.workers;
    worker_cpus = args.worker_cpus;
    noise_threads = args.noise_threads;
    noise_cpus = format_cpu_list noise_cpus;
    resctrl_group = args.resctrl_group;
    noise_resctrl_group = args.noise_resctrl_group;
    resctrl_available = is_available m;
    schemata = report_schemata m args.resctrl_group;
    bench_secs = args.bench_secs;
    ema_halflife = args.ema_halflife;
    threshold_bps = args.threshold_bps;
    cooldown_ns = args.cooldown_ns;
    qty = args.qty;
    bus = args.bus;
  }

  unfoldable pub engine_report :
      Machine → EngineArgs → HostInfo fl → List ℕ → Totals → F → List Summary → EngineReport
  unfolding engine_metrics engine_config
  engine_report m args host noise_cpus s elapsed worker_dispatch = record {
    schema = codes "dummy-benchmark/trading-engine/v1";
    host = host;
    config = engine_config m args noise_cpus;
    metrics = engine_metrics s elapsed worker_dispatch;
  }

  -- `finalise_report`, up to the end of the noise threads.
  unfoldable pub finalise_report :
      (EngineReport → Option Text)
      → (Text → Bool)
      → Machine
      → EngineArgs
      → HostInfo fl
      → List ℕ
      → Totals
      → F
      → List Summary
      → Outcome
  unfolding engine_report
  finalise_report to_json writes m args host noise_cpus s elapsed worker_dispatch =
      deliver to_json writes args.bench_report args.bench_secs
        (engine_report m args host noise_cpus s elapsed worker_dispatch)
