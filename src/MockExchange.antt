-- ===== src/MockExchange.antt =====
-- `main` of crates/mock-exchange/src/main.rs as a whole: the start, the symbols, the time of a tick, and
-- the loop up to its count, its stop or its deadline.
pub mod Outcomes
mod Tests
use dummy_benchmark.Base.{ℕ, Bool, Option, none, some, List, [], ◌∷◌, map}
use dummy_benchmark.Base.Bytes.{Bytes}
use dummy_benchmark.Base.Float.{Float}
use dummy_benchmark.Text.{Text, ok}
use dummy_benchmark.Startup.{Machine, Args, Start, start_exchange, continue, ◌>>=◌}
use dummy_benchmark.Exchange.{SymState, Draw}
use dummy_benchmark.Exchange.Loop.{Turn, new_symbol, Sender, Ran, exchange_loop}
use dummy_benchmark.TradingEngine.{ends_at, deadline_of, loop_ends}

-- `Args` of the mock exchange.
pub record ExchangeArgs : Type 0 where
  pub target : Text
  pub symbols : Text
  pub rate : ℕ
  pub count : ℕ
  pub pin_cpu : Option ℕ
  pub noise_threads : ℕ
  pub noise_cpus : Text
  pub resctrl_group : Text
  pub noise_resctrl_group : Text
  pub bench_secs : ℕ

unfoldable pub start_args : ExchangeArgs → Args
start_args args = record {
  pin_cpu = args.pin_cpu;
  noise_threads = args.noise_threads;
  noise_cpus = args.noise_cpus;
  resctrl_group = args.resctrl_group;
  noise_resctrl_group = args.noise_resctrl_group;
}

module _ (fl : Float) where
  open fl use {F, lit, of_u64, div}

  -- What a round of the loop meets: the stop flag, the instant, the draws, and the instant after the
  -- ticks.
  pub record Look : Type 0 where
    pub stop : Bool
    pub instant : ℕ
    pub draws : List (Draw fl)
    pub now : ℕ

  unfoldable pub turn_of : Option ℕ → Look → Turn fl
  unfolding loop_ends
  turn_of deadline l = record {
    stopped = loop_ends deadline l.stop l.instant;
    draws = l.draws;
    now = l.now;
  }

  -- Each symbol with the number that is drawn for its anchor.
  unfoldable pub new_symbols : List Bytes → List F → List (SymState fl)
  new_symbols [] units = []
  new_symbols (name ∷ names) [] = []
  new_symbols (name ∷ names) (u ∷ units) = new_symbol fl name u ∷ new_symbols names units

  -- What a run meets: the numbers for the anchors, the instants at the start of the run and of the first
  -- round, and the rounds.
  pub record Run : Type 0 where
    pub units : List F
    pub started : ℕ
    pub first_due : ℕ
    pub looks : List Look

  abbrev pub turns : ExchangeArgs → Run → List (Turn fl)
  turns args r = map (turn_of (ends_at args.bench_secs r.started)) r.looks

  -- The local variables before the loop.
  unfoldable pub begin_send : Run → List Bytes → Sender fl
  begin_send r names = record {
    sending = record { seq = 0; sent_total = 0 };
    symbols = new_symbols names r.units;
    next_due = r.first_due;
  }

  module _ (from_secs_f64 : F → Option ℕ) where
    -- `Duration::from_secs_f64(1.0 / args.rate as f64)` in nanoseconds; `none` is its panic.
    unfoldable pub per_tick : ExchangeArgs → Option ℕ
    per_tick args = from_secs_f64 (div (lit 1 1) (of_u64 args.rate))

    -- `main` below its start; `none` is a panic.
    unfoldable pub run_exchange : ExchangeArgs → Run → List Bytes → Option (Ran fl)
    unfolding per_tick begin_send turn_of
    run_exchange args r names = elim (per_tick args) [
      | none ↦ none
      | some nanos ↦ elim (deadline_of args.bench_secs r.started) [
        | none ↦ none
        | some deadline ↦
            some (exchange_loop fl args.count nanos (begin_send r names) (turns args r))
      ]
    ]

    unfoldable pub exchange_main :
        (Text → Bytes) → Machine → ExchangeArgs → Run → Start (Option (Ran fl))
    unfolding start_args run_exchange
    exchange_main as_bytes m args r =
        start_exchange m (start_args args) as_bytes args.symbols args.target >>= λ names.
        ([], ok (run_exchange args r names))
