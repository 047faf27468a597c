-- ===== src/MockExchange/Tests.antt =====
-- A whole run of crates/mock-exchange/src/main.rs at concrete arguments, and the theorem there.
use dummy_benchmark.Base.{◌≡◌, ◌⊎◌, refl, false, ℕ, Option, none, some, [], ◌∷◌, arith}
use dummy_benchmark.Base.Fixed.{fixed}
use dummy_benchmark.Text.{
  codes, ok, split, trim, trim_start, trim_end, is_whitespace, is_empty, split_once, parse_usize,
}
use dummy_benchmark.CpuList.{parse_cpu_list, parse_part, keep_nonempty}
use dummy_benchmark.Samples.{aapl, willing}
use dummy_benchmark.Startup.{
  start_exchange, continue, act, parse, pin_main, join_main, start_noise, need_symbols,
}
use dummy_benchmark.Exchange.{pack_symbol, symbol_names, Draw}
use dummy_benchmark.Exchange.Loop.{Ran}
use dummy_benchmark.MockExchange.{ExchangeArgs, start_args, Run, turn_of, per_tick, exchange_main}
use dummy_benchmark.TradingEngine.{ends_at, overflows}
use dummy_benchmark.MockExchange.Outcomes.{Panics, RunSends, exchange_main-Sent}

abbrev two_ticks : ExchangeArgs
two_ticks = record {
  target = codes "127.0.0.1:9000";
  symbols = codes "AAPL";
  rate = 1_000;
  count = 2;
  pin_cpu = none;
  noise_threads = 0;
  noise_cpus = [];
  resctrl_group = [];
  noise_resctrl_group = [];
  bench_secs = 0;
}

abbrev draw : Draw fixed
draw = record { ts = 5; unit = fixed.lit 1 4; bid_extra = 7; ask_extra = 8 }

abbrev run : Run fixed
run = record {
  units = fixed.lit 1 2 ∷ [];
  started = 7;
  first_due = 100;
  looks =
      record { stop = false; instant = 8; draws = draw ∷ []; now = 400 }
      ∷ record { stop = false; instant = 900; draws = draw ∷ []; now = 2_000_000 }
      ∷ [];
}

abbrev one_ms : fixed.F → Option ℕ
one_ms x = some 1_000_000

exchange_started :
    (start_exchange willing (start_args two_ticks) (λ s. s) two_ticks.symbols two_ticks.target).1
    ≡ ok (aapl ∷ [])
unfolding start_exchange parse_cpu_list parse_part split trim trim_start trim_end is_whitespace
    is_empty split_once parse_usize join_main continue pin_main act parse start_noise start_args
    need_symbols symbol_names pack_symbol keep_nonempty
exchange_started = refl

exchange_main-Sent_example :
    let ends = (exchange_main fixed one_ms (λ s. s) willing two_ticks run).1 in
    (Panics fixed one_ms two_ticks run × (ends ≡ ok none))
    ⊎ ((nanos : ℕ) × (q : Ran fixed) × (per_tick fixed one_ms two_ticks ≡ some nanos)
        × (overflows 0 7 ≡ false)
        × (ends ≡ ok (some q))
        × RunSends fixed two_ticks run nanos q)
unfolding turn_of ends_at
exchange_main-Sent_example =
    exchange_main-Sent fixed one_ms two_ticks run (λ s. s) willing (aapl ∷ []) exchange_started
      (omega arith)
