-- ===== src/TradingEngine.antt =====
-- `main` of crates/trading-engine/src/main.rs as a whole: the start, the choice of the mode, the loop up
-- to its deadline, and the report. Instants are nanoseconds.
pub mod Outcomes
pub mod Deadline
mod Tests
use dummy_benchmark.Base.{
  ℕ, zero, suc, ◌+◌, ◌*◌, replicate, Bool, false, Option, none, some, List, [], ◌∷◌, ◌++◌, map, leb,
  ltb, ◌==◌, ◌||◌, ◌&&◌, ◌/◌, ◌^◌, true, if◌then◌else◌,
}
use dummy_benchmark.Base.Bytes.{Bytes}
use dummy_benchmark.Base.Float.{Float}
use mathlib.Core.Option
use dummy_benchmark.Text.{Text, ok, err}
use dummy_benchmark.Latency.{Summary, summary}
use dummy_benchmark.Message.{OrderMsg}
use dummy_benchmark.Ring.{SpscRing, slot_payload}
use dummy_benchmark.Bus.{BusFile, ticks_consumer, orders_producer}
use dummy_benchmark.Engine.{Params, ema_alpha}
use dummy_benchmark.Engine.Dispatch.{
  Totals, no_totals, Meets, Turn, Dispatcher, dispatch_loop, final_drain,
}
use dummy_benchmark.Engine.Worker.{Listen, worker_main}
use dummy_benchmark.Engine.Inline.{Inline}
use dummy_benchmark.Engine.InlineRun.{InlineTurn, inline_loop}
use dummy_benchmark.Startup.{
  Machine, Args, Start, start_engine, continue, ◌>>=◌, or_panic, spawning_worker,
}
use dummy_benchmark.Report.{HostInfo, host_info, Outcome}
use dummy_benchmark.Report.Engine.{EngineArgs, EngineReport, finalise_report}

-- The instant at which a benchmark of `secs` seconds ends.
unfoldable pub ends_at : ℕ → ℕ → Option ℕ
ends_at secs started = if ltb 0 secs then some (started + secs * 1_000_000_000) else none

-- Whether the addition overflows: the seconds of an `Instant` are an `i64`.
unfoldable pub overflows : ℕ → ℕ → Bool
overflows secs started = ltb 0 secs && leb (2 ^ 63) (started / 1_000_000_000 + secs)

-- The deadline of a run; the outer `none` is the panic of the addition.
unfoldable pub deadline_of : ℕ → ℕ → Option (Option ℕ)
unfolding ends_at
deadline_of secs started = if overflows secs started then none else some (ends_at secs started)

-- Whether a loop ends before a round: the stop flag, and the deadline.
unfoldable pub loop_ends : Option ℕ → Bool → ℕ → Bool
loop_ends none stop now = stop
loop_ends (some d) stop now = stop || leb d now

-- What a round of `run_inline` meets: the stop flag, the instant, the rings as the other process has
-- left them, and the clock at its two reads.
pub record InlineLook : Type 0 where
  pub stop : Bool
  pub instant : ℕ
  pub tick_ring : SpscRing
  pub order_ring : SpscRing
  pub consume_ts : ℕ
  pub now : ℕ

-- What a round of `run_with_workers` meets.
pub record Look : Type 0 where
  pub stop : Bool
  pub instant : ℕ
  pub tick_ring : SpscRing
  pub order_ring : SpscRing
  pub meets : Meets

unfoldable pub inline_turn_of : Option ℕ → InlineLook → InlineTurn
unfolding loop_ends
inline_turn_of deadline l = record {
  stopped = loop_ends deadline l.stop l.instant;
  tick_ring = l.tick_ring;
  order_ring = l.order_ring;
  consume_ts = l.consume_ts;
  now = l.now;
}

unfoldable pub turn_of : Option ℕ → Look → Turn
unfolding loop_ends
turn_of deadline l = record {
  stopped = loop_ends deadline l.stop l.instant;
  tick_ring = l.tick_ring;
  order_ring = l.order_ring;
  meets = l.meets;
}

-- `let mut buf = [0u8; SLOT_PAYLOAD]`
abbrev pub empty_buf : Bytes
empty_buf = replicate slot_payload 0

module _ (fl : Float) where
  unfoldable pub params_of : EngineArgs fl → Params fl
  params_of args = record {
    alpha = ema_alpha fl args.ema_halflife;
    threshold_bps = args.threshold_bps;
    cooldown_ns = args.cooldown_ns;
    qty = args.qty;
  }

  unfoldable pub start_args : EngineArgs fl → Args
  start_args args = record {
    pin_cpu = args.pin_cpu;
    noise_threads = args.noise_threads;
    noise_cpus = args.noise_cpus;
    resctrl_group = args.resctrl_group;
    noise_resctrl_group = args.noise_resctrl_group;
  }

  -- What a run meets: the bus as it is opened, the instant of the start, the rounds of each
  -- mode, whether each worker can be spawned, what each receives, whether all of them return so that the
  -- joins do, the order ring and the waiting orders at the final drain, and the elapsed seconds.
  pub record Run : Type 0 where
    pub bus : BusFile
    pub started : ℕ
    pub inline_looks : List InlineLook
    pub looks : List Look
    pub spawns : ℕ → Bool
    pub listens : ℕ → List Listen
    pub joins : Bool
    pub final_ring : SpscRing
    pub left_over : List OrderMsg
    pub elapsed : fl.F

  -- The local variables of `run_inline` before its loop.
  unfoldable pub begin_inline : (args : EngineArgs fl) → Run → Inline fl (params_of args)
  begin_inline args r = record {
    state = [];
    totals = no_totals;
    next_order_id = 1;
    idle_spin = 0;
    inlet = record { ring = r.bus.layout.ticks; consumer = ticks_consumer r.bus; buf = empty_buf };
    outlet = record { ring = r.bus.layout.orders; producer = orders_producer r.bus };
  }

  -- The local variables of the dispatcher before its loop.
  unfoldable pub begin_dispatch : Run → Dispatcher
  begin_dispatch r = record {
    totals = no_totals;
    consumer = ticks_consumer r.bus;
    buf = empty_buf;
    producer = orders_producer r.bus;
    idle_spin = 0;
  }

  abbrev pub inline_turns : EngineArgs fl → Run → List InlineTurn
  inline_turns args r = map (inline_turn_of (ends_at args.bench_secs r.started)) r.inline_looks

  abbrev pub turns : EngineArgs fl → Run → List Turn
  turns args r = map (turn_of (ends_at args.bench_secs r.started)) r.looks

  -- What `run_inline` hands to `finalise_report`: no ticks dropped at the dispatch, and no workers.
  unfoldable pub run_inline : EngineArgs fl → Run → Totals × List Summary
  unfolding begin_inline params_of
  run_inline args r =
      let e = inline_loop fl (params_of args) (begin_inline args r) (inline_turns args r) in
      (record e.totals { ticks_dropped = 0 }, [])

  -- The summaries of the first `n` workers.
  unfoldable pub worker_summaries : EngineArgs fl → (ℕ → List Listen) → ℕ → List Summary
  unfolding params_of
  worker_summaries args listens zero = []
  worker_summaries args listens (suc w) =
      worker_summaries args listens w
      ++ summary fl (worker_main fl (params_of args) w (listens w)).1.dispatch_lat ∷ []

  -- What `run_with_workers` hands to `finalise_report` once it has joined the workers.
  unfoldable pub after_joins : EngineArgs fl → Run → Totals × List Summary
  unfolding begin_dispatch worker_summaries
  after_joins args r =
      let (items, d) = dispatch_loop args.workers (begin_dispatch r) (turns args r) in
      (final_drain d r.final_ring r.left_over, worker_summaries args r.listens args.workers)

  -- The first `n` workers can be spawned.
  unfoldable pub all_spawn : ℕ → (ℕ → Bool) → Bool
  all_spawn zero spawns = true
  all_spawn (suc w) spawns = all_spawn w spawns && spawns w

  -- `run_with_workers` up to its report; `none` when a join never returns.
  unfoldable pub run_with_workers : EngineArgs fl → Run → Start (Option (Totals × List Summary))
  unfolding after_joins all_spawn
  run_with_workers args r =
      if all_spawn args.workers r.spawns
      then ([], ok (if r.joins then some (after_joins args r) else none))
      else ([], err spawning_worker)

  -- The mode that the number of workers asks for.
  unfoldable pub run_mode : EngineArgs fl → Run → Start (Option (Totals × List Summary))
  unfolding run_inline run_with_workers
  run_mode args r =
      if args.workers == 0 then ([], ok (some (run_inline args r))) else run_with_workers args r

  module _ (parse_f64 : Text → Option fl.F) (to_json : EngineReport fl → Option Text)
      (writes : Text → Bool) where
    -- `main`; it has no outcome when a join never returns.
    unfoldable pub engine_main : Machine → EngineArgs fl → Run → Start (Option Outcome)
    unfolding run_mode start_args
    engine_main m args r = start_engine m (start_args args) args.worker_cpus args.bus >>= λ cpus.
        or_panic (deadline_of args.bench_secs r.started) >>= λ deadline. run_mode args r >>= λ ran.
        (
          [],
          ok (
              Option.map
                (λ x.
                  finalise_report fl to_json writes m args (host_info fl parse_f64 m.files) cpus.1
                    x.0 r.elapsed x.1)
                ran),
        )
