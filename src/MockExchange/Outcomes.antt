-- ===== src/MockExchange/Outcomes.antt =====
-- What `main` of crates/mock-exchange/src/main.rs sends, and when it panics.
use dummy_benchmark.TradingEngine.{overflows}
use dummy_benchmark.TradingEngine.Deadline.{deadline_of-late, deadline_of-ends_at}
use dummy_benchmark.Base.{
  true, false, Bool-cases, ℕ, ◌^◌, ◌<◌, ◌≡◌, refl, ap, ◌∙◌, ◌⊎◌, inl, inr, Option, none, some, List,
  [], arith, Option-cases,
}
use dummy_benchmark.Base.Bytes.{Bytes}
use dummy_benchmark.Base.Float.{Float}
use dummy_benchmark.Text.{Text, ok}
use dummy_benchmark.Startup.{Machine, start_exchange, continue}
use dummy_benchmark.Exchange.Rounds.{Sends, drawn_count}
use dummy_benchmark.Exchange.Loop.{
  Ran, exchange_loop, draws_of, Paced, exchange_loop-Sends, exchange_loop-Paced,
}
use dummy_benchmark.MockExchange.{
  ExchangeArgs, start_args, Run, turns, begin_send, per_tick, run_exchange, exchange_main,
}

-- What the run has sent, at `nanos` for each tick.
pub record RunSends (fl : Float) (args : ExchangeArgs) (r : Run fl) (nanos : ℕ) (q : Ran fl)
    : Type 0 where
  pub sends : Sends args.count 0 q.finished q.sender.sending q.ticks
  pub paced : Paced nanos r.first_due q.pauses

module _ (fl : Float) (from_secs_f64 : fl.F → Option ℕ) (args : ExchangeArgs) (r : Run fl) where
  -- The run panics before its loop: at the time of a tick, or at the deadline.
  pub Panics : Type 0
  Panics = (per_tick fl from_secs_f64 args ≡ none) ⊎ (overflows args.bench_secs r.started ≡ true)

  run_exchange-Sent :
      (names : List Bytes)
      → drawn_count fl (draws_of fl (turns fl args r)) < 2 ^ 64
      → (Panics × (run_exchange fl from_secs_f64 args r names ≡ none))
        ⊎ ((nanos : ℕ) × (q : Ran fl) × (per_tick fl from_secs_f64 args ≡ some nanos)
            × (overflows args.bench_secs r.started ≡ false)
            × (run_exchange fl from_secs_f64 args r names ≡ some q)
            × RunSends fl args r nanos q)
  unfolding run_exchange begin_send Panics
  run_exchange-Sent names few =
      let runs : ℕ → Option (Option ℕ) → Option (Ran fl) = λ nanos deadline. elim deadline [
        | none ↦ none
        | some _ ↦
            some (exchange_loop fl args.count nanos (begin_send fl r names) (turns fl args r))
      ] in
      elim (Option-cases (per_tick fl from_secs_f64 args)) [
        | inl panic ↦ inl (inl panic, rw (run_exchange, panic) refl)
        | inr (nanos, e) ↦ elim (Bool-cases (overflows args.bench_secs r.started)) [
          | inl late ↦ inl (
            inr late,
            rw (run_exchange, e)
                (ap (runs nanos) (deadline_of-late args.bench_secs r.started late)),
          )
          | inr in_time ↦
              let x = begin_send fl r names in
              inr (
                nanos,
                exchange_loop fl args.count nanos x (turns fl args r),
                e,
                in_time,
                rw (run_exchange, e)
                    (ap (runs nanos) (deadline_of-ends_at args.bench_secs r.started in_time)),
                record {
                  sends =
                      exchange_loop-Sends fl args.count nanos 0 x (turns fl args r) refl refl
                        (λ h. h) (omega (arith, few));
                  paced = exchange_loop-Paced fl args.count nanos x (turns fl args r);
                },
              )
        ]
      ]

  -- A mock exchange whose start succeeds panics exactly when the time of a tick cannot be had from its
  -- rate or its deadline overflows the clock. Otherwise it sends ticks that are numbered from 1 without a
  -- gap, has returned at its count exactly when it has one and has sent that many, and its rounds keep
  -- the rate: the `k`th ends no earlier than `k` times the time of a tick after the first is due. The
  -- draws do not number 2 ^ 64.
  pub exchange_main-Sent :
      (as_bytes : Text → Bytes) (m : Machine) (names : List Bytes)
      → (start_exchange m (start_args args) as_bytes args.symbols args.target).1 ≡ ok names
      → drawn_count fl (draws_of fl (turns fl args r)) < 2 ^ 64
      → let ends = (exchange_main fl from_secs_f64 as_bytes m args r).1 in
        (Panics × (ends ≡ ok none))
        ⊎ ((nanos : ℕ) × (q : Ran fl) × (per_tick fl from_secs_f64 args ≡ some nanos)
            × (overflows args.bench_secs r.started ≡ false)
            × (ends ≡ ok (some q))
            × RunSends fl args r nanos q)
  unfolding exchange_main continue
  exchange_main-Sent as_bytes m names started few =
      let run = run_exchange fl from_secs_f64 args r in
      let start = start_exchange m (start_args args) as_bytes args.symbols args.target in
      let runs = ap (λ x. (continue start.0 x (λ l. ([], ok (run l)))).1) started in
      elim (run_exchange-Sent names few) [
        | inl (panic, e) ↦ inl (panic, runs ∙ ap ok e)
        | inr (nanos, q, got, in_time, e, sent) ↦ inr (nanos, q, got, in_time, runs ∙ ap ok e, sent)
      ]
