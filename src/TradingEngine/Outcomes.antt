-- ===== src/TradingEngine/Outcomes.antt =====
-- What `main` of crates/trading-engine/src/main.rs reports, and when its run ends.
use mathlib.Core.Option
use mathlib.Core.Option.{some_inj}
use dummy_benchmark.Base.{
  ap, ◌∙◌, ℕ, ◌+◌, ◌^◌, ◌<◌, ◌≡◌, refl, sym, Bool, Option, List, [], length, ◌==◌, if◌then◌else◌,
  Bool-cases, inl, inr, arith, ◌⊎◌, true, false, some, none,
}
use dummy_benchmark.Base.Float.{Float}
use dummy_benchmark.Text.{Text, ok, err}
use dummy_benchmark.CpuList.{format_cpu_list}
use dummy_benchmark.Latency.{Summary}
use dummy_benchmark.Engine.Accounts.{lost_ticks}
use dummy_benchmark.Engine.Dispatch.{Totals, dispatch_loop}
use dummy_benchmark.Engine.InlineRun.{events_read}
use dummy_benchmark.Engine.Offered.{orders_taken, waiting_orders}
use dummy_benchmark.Engine.Orders.{run_strategy}
use dummy_benchmark.Startup.{Machine, Start, start_engine, or_panic, spawning_worker}
use dummy_benchmark.Startup.Accepts.{Accepts, start_engine_accepts, continue-ok, ok_inj}
use dummy_benchmark.Report.{Outcome, deliver, host_info}
use dummy_benchmark.Report.Engine.{
  EngineArgs, EngineReport, engine_metrics, engine_report, engine_config, finalise_report,
}
use dummy_benchmark.Report.Balance.{Balances, reported-Balances}
use dummy_benchmark.Report.Inline.{inline_metrics-Balances, inline_metrics}
use dummy_benchmark.TradingEngine.{
  params_of, start_args, Run, begin_inline, begin_dispatch, inline_turns, turns, run_inline,
  worker_summaries, run_with_workers, engine_main, after_joins, all_spawn, run_mode, overflows,
  deadline_of,
}

abbrev chosen : {A : Type 0} → Bool → Bool → Bool → A → A → Start (Option A)
chosen alone spawned joined a w =
    if alone
    then ([], ok (some a))
    else if spawned
    then ([], ok (if joined then some w else none))
    else ([], err spawning_worker)

mode_cases :
    {A : Type 0} (alone spawned joined : Bool) (a w : A) {x : Option A}
    → (chosen alone spawned joined a w).1 ≡ ok x
    → (x ≡ none)
      ⊎ ((x ≡ some (if alone then a else w))
          × ((alone ≡ true) ⊎ ((spawned ≡ true) × (joined ≡ true))))
mode_cases true spawned joined a w h = inr (sym (ok_inj h), inl refl)
mode_cases false true true a w h = inr (sym (ok_inj h), inr (refl, refl))
mode_cases false true false a w h = inl (sym (ok_inj h))
mode_cases false false joined a w h = absurd (cc)

in_range :
    {A : Type 0} (b : Bool) (a : A) {x : A}
    → (or_panic (if b then none else some a)).1 ≡ ok x
    → b ≡ false
unfolding or_panic
in_range true a h = absurd (cc)
in_range false a h = refl

module _ (fl : Float) (args : EngineArgs fl) (r : Run fl) where
  -- The ticks that a run hands to the strategy: those that the inline loop reads, or those that the
  -- dispatcher hands to the workers.
  pub handed : ℕ
  handed =
      if args.workers == 0
      then length
          (events_read fl (params_of fl args) (begin_inline fl args r) (inline_turns fl args r))
      else length (dispatch_loop args.workers (begin_dispatch fl r) (turns fl args r)).0

  -- The orders that come to the publication: those of the strategy's run over the ticks read, or those
  -- taken from the channel of the workers.
  pub offered_orders : ℕ
  offered_orders =
      if args.workers == 0
      then length
          (run_strategy fl (params_of fl args) [] 1 (
            events_read fl (params_of fl args) (begin_inline fl args r) (inline_turns fl args r))).0
      else orders_taken args.workers (begin_dispatch fl r) (turns fl args r) + length r.left_over

  -- The ticks that an engine has read and neither handed over nor counted as dropped: with workers, the
  -- one whose channel is closed, at which the loop ends, if it comes to one.
  pub lost : ℕ
  lost =
      if args.workers == 0
      then 0
      else lost_ticks args.workers (begin_dispatch fl r) (turns fl args r)

  -- What is handed to the report.
  abbrev pub ran : Totals × List Summary
  ran = if args.workers == 0 then run_inline fl args r else after_joins fl args r

  -- The rounds and the orders of a run do not number 2 ^ 64.
  pub record IsShort : Type 0 where
    pub inline_rounds : length (inline_turns fl args r) < 2 ^ 64
    pub rounds : length (turns fl args r) < 2 ^ 64
    pub orders : waiting_orders (turns fl args r) + length r.left_over < 2 ^ 64

  ran-Balances :
      IsShort → Balances fl (engine_metrics fl ran.0 r.elapsed ran.1) handed lost offered_orders
  unfolding handed offered_orders lost run_inline after_joins begin_inline begin_dispatch
      inline_metrics
  ran-Balances s = elim (Bool-cases (args.workers == 0)) [
    | inl alone ↦ rw alone (
        (inline_metrics-Balances fl (params_of fl args) (begin_inline fl args r)
          (inline_turns fl args r) r.elapsed refl s.inline_rounds).1)
    | inr workers ↦ rw workers (
        reported-Balances fl args.workers (begin_dispatch fl r) (turns fl args r) r.final_ring
          r.left_over r.elapsed (worker_summaries fl args r.listens args.workers) refl s.rounds
          s.orders)
  ]

  -- A run of either mode either waits for ever, or hands over what it has counted, with its workers, if it
  -- has any, spawned and joined.
  run_mode-ok :
      {x : Option (Totals × List Summary)}
      → (run_mode fl args r).1 ≡ ok x
      → (x ≡ none)
        ⊎ ((x ≡ some ran)
            × (args.workers ≡ 0 ⊎ ((all_spawn fl args.workers r.spawns ≡ true) × (r.joins ≡ true))))
  unfolding run_mode run_with_workers
  run_mode-ok h =
      elim (mode_cases (args.workers == 0) (all_spawn fl args.workers r.spawns) r.joins _ _ h) [
        | inl waits ↦ inl waits
        | inr (e, inl alone) ↦ inr (e, inl (ground (arith, alone)))
        | inr (e, inr both) ↦ inr (e, inr both)
      ]

  module _ (parse_f64 : Text → Option fl.F) (to_json : EngineReport fl → Option Text)
      (writes : Text → Bool) (m : Machine) where
    abbrev main_of : Start (Option Outcome)
    main_of = engine_main fl parse_f64 to_json writes m args r

    -- The report of a run.
    abbrev pub report_of : List ℕ → EngineReport fl
    report_of noise_cpus =
        engine_report fl m args (host_info fl parse_f64 m.files) noise_cpus ran.0 r.elapsed ran.1

    -- When `main` comes to an outcome, every call of the start has succeeded, both CPU lists have parsed,
    -- the deadline has not overflowed, the workers, if there are any, have been spawned and joined, and
    -- what it delivers is the report of the run of the mode that the number of workers asks for. That
    -- report names the noise CPUs so parsed, and it balances: each tick consumed was handed to the
    -- strategy, counted as dropped, or is the one whose channel was closed, at which the loop of an engine
    -- with workers ended; there is a latency sample for each; and each order that came to the publication
    -- was emitted or counted as dropped. Neither the rounds nor the orders number 2 ^ 64.
    pub engine_main-Balances :
        (outcome : Outcome)
        → IsShort
        → main_of.1 ≡ ok (some outcome)
        → (cpus : List ℕ × List ℕ) × Accepts m (start_args fl args) args.worker_cpus args.bus cpus
          × (overflows args.bench_secs r.started ≡ false)
          × (args.workers ≡ 0 ⊎ ((all_spawn fl args.workers r.spawns ≡ true) × (r.joins ≡ true)))
          × (outcome ≡ deliver to_json writes args.bench_report args.bench_secs (report_of cpus.1))
          × ((report_of cpus.1).config.noise_cpus ≡ format_cpu_list cpus.1)
          × Balances fl (report_of cpus.1).metrics handed lost offered_orders
    unfolding engine_main deadline_of finalise_report engine_report engine_config
    engine_main-Balances outcome short h =
        let started = start_engine m (start_args fl args) args.worker_cpus args.bus in
        let (cpus, accepted, h1) = continue-ok _ started.0 started.1 h in
        let (deadline, in_time, h2) = continue-ok _ _ _ h1 in
        let (x, modes, h3) = continue-ok _ _ _ h2 in
        let finish : Totals × List Summary → Outcome = λ y.
          finalise_report fl to_json writes m args (host_info fl parse_f64 m.files) cpus.1 y.0
            r.elapsed y.1 in
        let ends : some outcome ≡ Option.map finish x = sym (ok_inj h3) in
        elim (run_mode-ok modes) [
          | inl waits ↦ absurd (some_none (ends ∙ ap (Option.map finish) waits))
          | inr (e, joined) ↦ (
            cpus,
            (start_engine_accepts m (start_args fl args) args.worker_cpus args.bus cpus).0.0
                accepted,
            in_range (overflows args.bench_secs r.started) _ in_time,
            joined,
            some_inj.0 (ends ∙ ap (Option.map finish) e),
            refl,
            ran-Balances short,
          )
        ]
      where
        some_none : {o : Outcome} → some o ≡ none → ⊥
        some_none h = cc
