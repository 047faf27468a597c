-- ===== src/TradingEngine/Tests.antt =====
-- A whole run of crates/trading-engine/src/main.rs at concrete arguments, and the theorems there.
use dummy_benchmark.Base.{
  ℕ, ◌≡◌, refl, true, false, Option, none, some, ◌⊎◌, List, [], ◌∷◌, ◌++◌, arith,
}
use dummy_benchmark.Base.Int.{pos}
use dummy_benchmark.Base.Fixed.{fixed}
use dummy_benchmark.Text.{Text, codes, to_string, ok, split, trim, split_once, parse_usize}
use dummy_benchmark.CpuList.{parse_cpu_list, parse_part, format_cpu_list}
use dummy_benchmark.Samples.{willing, empty_ring, ring_with_tick, order_with}
use dummy_benchmark.Engine.Dispatch.{Sent}
use dummy_benchmark.Bus.{bus_size, bus_magic, bus_version}
use dummy_benchmark.Startup.{
  Start, start_engine, continue, act, parse, pin_main, join_main, start_noise, or_panic,
}
use dummy_benchmark.Startup.Accepts.{Accepts}
use dummy_benchmark.Report.{Outcome, written, write_report, deliver}
use dummy_benchmark.Report.Engine.{EngineArgs, EngineReport, finalise_report}
use dummy_benchmark.Report.Balance.{Balances}
use dummy_benchmark.TradingEngine.{
  InlineLook, Look, Run, turn_of, start_args, all_spawn, run_mode, run_with_workers, overflows,
  deadline_of, engine_main,
}
use dummy_benchmark.TradingEngine.Outcomes.{
  IsShort, handed, lost, report_of, offered_orders, engine_main-Balances,
}
use dummy_benchmark.TradingEngine.Deadline.{with_looks, run_past}

abbrev args_for : ℕ → ℕ → EngineArgs fixed
args_for workers bench_secs = record {
  pin_cpu = none;
  workers = workers;
  worker_cpus = [];
  noise_threads = 0;
  noise_cpus = [];
  resctrl_group = [];
  noise_resctrl_group = [];
  bench_secs = bench_secs;
  bench_report = some (codes "out");
  quiet = true;
  ema_halflife = pos 0;
  threshold_bps = pos 0;
  cooldown_ns = 1_000;
  qty = 100;
  bus = codes "bus";
}

abbrev look_at : ℕ → InlineLook
look_at instant = record {
  stop = false;
  instant = instant;
  tick_ring = ring_with_tick;
  order_ring = empty_ring;
  consume_ts = 3_000;
  now = 3_100;
}

abbrev worker_look_at : ℕ → Look
worker_look_at instant = record {
  stop = false;
  instant = instant;
  tick_ring = ring_with_tick;
  order_ring = empty_ring;
  meets = record {
    consume_ts = 3_000;
    enqueued_ns = 3_100;
    answer = Sent.ok;
    orders = order_with 2 ∷ [];
  };
}

abbrev short_run : Run fixed
short_run = record {
  bus = record {
    len = bus_size;
    layout = record {
      magic = bus_magic;
      version = bus_version;
      ready = 1;
      ticks = empty_ring;
      orders = empty_ring;
    };
  };
  started = 5;
  inline_looks = look_at 10 ∷ look_at 20 ∷ [];
  looks = worker_look_at 10 ∷ [];
  spawns = λ w. true;
  listens = λ w. [];
  joins = true;
  final_ring = empty_ring;
  left_over = [];
  elapsed = fixed.lit 1 1;
}

short_run-IsShort : IsShort fixed (args_for 1 2) short_run
unfolding turn_of
short_run-IsShort = record {
  inline_rounds = omega arith;
  rounds = omega arith;
  orders = omega arith;
}

abbrev count_json : EngineReport fixed → Option Text
count_json report = some (to_string report.metrics.ticks_consumed)

abbrev reported : List ℕ → EngineReport fixed
reported = report_of fixed (args_for 1 2) short_run (λ s. none) count_json (λ path. true) willing

abbrev outcome : Outcome
outcome = written (codes "out") (to_string (reported []).metrics.ticks_consumed)

started :
    (engine_main fixed (λ s. none) count_json (λ path. true) willing (args_for 1 2) short_run).1
    ≡ ok (some outcome)
unfolding engine_main start_args finalise_report deliver write_report start_engine parse_cpu_list
    parse_part split trim split_once parse_usize join_main continue pin_main act parse start_noise
    or_panic deadline_of overflows run_mode run_with_workers all_spawn
started = refl

engine_main-Balances_example :
    (cpus : List ℕ × List ℕ) × Accepts willing
      (start_args fixed (args_for 1 2))
      []
      (codes "bus")
      cpus
    × (overflows 2 5 ≡ false)
    × (((args_for 1 2).workers ≡ 0)
        ⊎ ((all_spawn fixed 1 short_run.spawns ≡ true) × (short_run.joins ≡ true)))
    × (outcome ≡ deliver count_json (λ path. true) (some (codes "out")) 2 (reported cpus.1))
    × ((reported cpus.1).config.noise_cpus ≡ format_cpu_list cpus.1)
    × Balances fixed
        (reported cpus.1).metrics
        (handed fixed (args_for 1 2) short_run)
        (lost fixed (args_for 1 2) short_run)
        (offered_orders fixed (args_for 1 2) short_run)
engine_main-Balances_example =
    engine_main-Balances fixed (args_for 1 2) short_run (λ s. none) count_json (λ path. true)
      willing outcome short_run-IsShort started

-- A benchmark as long as its argument can say panics, whatever the clock.
forever : deadline_of 18_446_744_073_709_551_615 7 ≡ none
unfolding deadline_of overflows
forever = refl

abbrev main_with : List InlineLook → List Look → Start (Option Outcome)
main_with inline_looks looks =
    engine_main fixed (λ s. none) count_json (λ path. true) willing (args_for 1 2)
      (with_looks fixed (args_for 1 2) short_run inline_looks looks)

run_past_example :
    main_with
      (look_at 10 ∷ [] ++ look_at 2_000_000_009 ∷ look_at 2_000_000_010 ∷ [])
      (worker_look_at 10 ∷ [] ++ worker_look_at 2_000_000_005 ∷ [])
    ≡ main_with (look_at 10 ∷ []) (worker_look_at 10 ∷ [])
run_past_example =
    run_past fixed (args_for 1 2) short_run (λ s. none) count_json (λ path. true) willing
      (look_at 2_000_000_009) (look_at 10 ∷ []) (look_at 2_000_000_010 ∷ [])
      (worker_look_at 2_000_000_005) (worker_look_at 10 ∷ []) [] (omega arith, omega arith)
      (omega arith, omega arith)
