-- ===== src/TradingEngine/Deadline.antt =====
-- The loops of crates/trading-engine/src/main.rs end at the deadline of a benchmark.
use mathlib.Core.List.{map-append}
use mathlib.Core.Option
use dummy_benchmark.Base.{
  ap₂, Option, ◌==◌, ℕ, ◌+◌, ◌*◌, ◌≤◌, ◌<◌, ◌≡◌, ap, ◌∙◌, Bool, true, false, none, some, refl, List,
  [], ◌∷◌, ◌++◌, map, if◌then◌else◌, arith,
}
use dummy_benchmark.Base.Float.{Float}
use dummy_benchmark.Engine.{Params}
use dummy_benchmark.Engine.Dispatch.{
  WorkItem, Turn, Totals, Dispatcher, turn_round, after_round, keep_item, dispatch_loop,
  final_drain,
}
use dummy_benchmark.Engine.Inline.{Inline}
use dummy_benchmark.Engine.InlineRun.{InlineTurn, inline_turn, inline_loop}
use dummy_benchmark.Report.{Outcome, host_info}
use dummy_benchmark.Report.Engine.{EngineArgs, EngineReport, finalise_report}
use dummy_benchmark.Text.{Text, ok, err}
use dummy_benchmark.Latency.{Summary}
use dummy_benchmark.Startup.{Machine, Start, start_engine, or_panic, spawning_worker, ◌>>=◌}
use dummy_benchmark.TradingEngine.{
  overflows, deadline_of, ends_at, loop_ends, InlineLook, Look, inline_turn_of, turn_of, params_of,
  Run, begin_inline, begin_dispatch, run_inline, worker_summaries, after_joins, all_spawn,
  run_with_workers, run_mode, start_args, engine_main,
}

pub deadline_of-late :
    (secs started : ℕ) → overflows secs started ≡ true → deadline_of secs started ≡ none
unfolding deadline_of
deadline_of-late secs started h = rw h refl

pub deadline_of-ends_at :
    (secs started : ℕ)
    → overflows secs started ≡ false
    → deadline_of secs started ≡ some (ends_at secs started)
unfolding deadline_of
deadline_of-ends_at secs started h = rw h refl

inline_loop_stopped :
    (fl : Float) (p : Params fl) (e : Inline fl p) (ts : List InlineTurn) (t : InlineTurn)
    (us : List InlineTurn)
    → t.stopped ≡ true
    → inline_loop fl p e (ts ++ t ∷ us) ≡ inline_loop fl p e ts
unfolding inline_loop
inline_loop_stopped fl p e [] t us h = rw h
inline_loop_stopped fl p e (t' ∷ ts) t us h =
    ap (λ rest. if t'.stopped then e else rest)
      (inline_loop_stopped fl p (inline_turn fl p e t') ts t us h)

dispatch_loop_stopped :
    (n : ℕ) (d : Dispatcher) (ts : List Turn) (t : Turn) (us : List Turn)
    → t.stopped ≡ true
    → dispatch_loop n d (ts ++ t ∷ us) ≡ dispatch_loop n d ts
unfolding dispatch_loop
dispatch_loop_stopped n d [] t us h = rw h
dispatch_loop_stopped n d (t' ∷ ts) t us h =
    let r = turn_round n d t' in
    ap
      (λ (rest : List (ℕ × WorkItem) × Dispatcher).
        if t'.stopped
        then ([], d)
        else if r.left
        then (keep_item r.item [], after_round r)
        else (keep_item r.item rest.0, rest.1))
      (dispatch_loop_stopped n (after_round r) ts t us h)

-- The instant lies at or past the end of a benchmark of `secs` seconds.
abbrev pub IsPast : ℕ → ℕ → ℕ → Type 0
IsPast secs started instant = (0 < secs) × (started + secs * 1_000_000_000 ≤ instant)

loop_ends-past :
    (secs started : ℕ) (stop : Bool) (instant : ℕ)
    → IsPast secs started instant
    → loop_ends (ends_at secs started) stop instant ≡ true
unfolding loop_ends ends_at
loop_ends-past secs started stop instant h = ground arith

module _ (fl : Float) (args : EngineArgs fl) (r : Run fl) where
  inline_ends :
      (e : Inline fl (params_of fl args)) (l : InlineLook) (before after : List InlineLook)
      → IsPast args.bench_secs r.started l.instant
      → let look = inline_turn_of (ends_at args.bench_secs r.started) in
        inline_loop fl (params_of fl args) e (map look (before ++ l ∷ after))
        ≡ inline_loop fl (params_of fl args) e (map look before)
  unfolding inline_turn_of
  inline_ends e l before after past =
      let look = inline_turn_of (ends_at args.bench_secs r.started) in
      ap (inline_loop fl (params_of fl args) e) (map-append look before (l ∷ after))
      ∙ inline_loop_stopped fl (params_of fl args) e (map look before) (look l) (map look after)
          (loop_ends-past args.bench_secs r.started l.stop l.instant past)

  dispatch_ends :
      (d : Dispatcher) (l : Look) (before after : List Look)
      → IsPast args.bench_secs r.started l.instant
      → let look = turn_of (ends_at args.bench_secs r.started) in
        dispatch_loop args.workers d (map look (before ++ l ∷ after))
        ≡ dispatch_loop args.workers d (map look before)
  unfolding turn_of
  dispatch_ends d l before after past =
      let look = turn_of (ends_at args.bench_secs r.started) in
      ap (dispatch_loop args.workers d) (map-append look before (l ∷ after))
      ∙ dispatch_loop_stopped args.workers d (map look before) (look l) (map look after)
          (loop_ends-past args.bench_secs r.started l.stop l.instant past)

  ended_inline :
      (l : InlineLook) (before after : List InlineLook)
      → IsPast args.bench_secs r.started l.instant
      → run_inline fl args (record r { inline_looks = before ++ l ∷ after })
        ≡ run_inline fl args (record r { inline_looks = before })
  unfolding run_inline begin_inline
  ended_inline l before after past =
      ap (λ (e : Inline fl (params_of fl args)). (record e.totals { ticks_dropped = 0 }, []))
        (inline_ends (begin_inline fl args r) l before after past)

  ended_workers :
      (l : Look) (before after : List Look)
      → IsPast args.bench_secs r.started l.instant
      → after_joins fl args (record r { looks = before ++ l ∷ after })
        ≡ after_joins fl args (record r { looks = before })
  unfolding after_joins begin_dispatch
  ended_workers l before after past =
      ap
        (λ (x : List (ℕ × WorkItem) × Dispatcher). (
          final_drain x.1 r.final_ring r.left_over,
          worker_summaries fl args r.listens args.workers,
        ))
        (dispatch_ends (begin_dispatch fl r) l before after past)

  -- The run `r` with these rounds in the two modes.
  abbrev pub with_looks : List InlineLook → List Look → Run fl
  with_looks inline_looks looks = record r { inline_looks = inline_looks; looks = looks }

  ended_mode :
      (l : InlineLook) (before after : List InlineLook) (l' : Look) (before' after' : List Look)
      → IsPast args.bench_secs r.started l.instant
      → IsPast args.bench_secs r.started l'.instant
      → run_mode fl args (with_looks (before ++ l ∷ after) (before' ++ l' ∷ after'))
        ≡ run_mode fl args (with_looks before before')
  unfolding run_mode run_with_workers run_inline after_joins begin_inline begin_dispatch
  ended_mode l before after l' before' after' past past' =
      let mode : Totals × List Summary
          → Totals × List Summary
          → Start (Option (Totals × List Summary)) =
        λ x y.
          if args.workers == 0
          then ([], ok (some x))
          else if all_spawn fl args.workers r.spawns
          then ([], ok (if r.joins then some y else none))
          else ([], err spawning_worker) in
      ap₂ mode (ended_inline l before after past) (ended_workers l' before' after' past')

  module _ (parse_f64 : Text → Option fl.F) (to_json : EngineReport fl → Option Text)
      (writes : Text → Bool) (m : Machine) where
    -- A benchmark's loop is over at its deadline, in both modes: all that `main` does and comes to is what
    -- it is without the first round whose instant is at or past the deadline and without all the rounds
    -- after it, so that nothing which a round past the deadline meets is consumed, published or counted.
    pub run_past :
        (l : InlineLook) (before after : List InlineLook) (l' : Look) (before' after' : List Look)
        → IsPast args.bench_secs r.started l.instant
        → IsPast args.bench_secs r.started l'.instant
        → engine_main fl parse_f64 to_json writes m args
            (with_looks (before ++ l ∷ after) (before' ++ l' ∷ after'))
          ≡ engine_main fl parse_f64 to_json writes m args (with_looks before before')
    unfolding engine_main
    run_past l before after l' before' after' past past' =
        let main : Start (Option (Totals × List Summary)) → Start (Option Outcome) = λ mode.
          start_engine m (start_args fl args) args.worker_cpus args.bus >>= λ cpus.
          or_panic (deadline_of args.bench_secs r.started) >>= λ deadline. mode >>= λ ran. (
            [],
            ok (
                Option.map
                  (λ x.
                    finalise_report fl to_json writes m args (host_info fl parse_f64 m.files) cpus.1
                      x.0 r.elapsed x.1)
                  ran),
          ) in
        ap main (ended_mode l before after l' before' after' past past')
