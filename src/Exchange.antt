-- ===== src/Exchange.antt =====
-- crates/mock-exchange/src/main.rs: the symbols, the ticks that are sent, and the pacing.
pub mod Rounds
pub mod Symbols
pub mod Loop
mod Tests
use mathlib.Core.Option
use dummy_benchmark.Base.{
  ℕ, zero, suc, ◌+◌, ◌-◌, ◌*◌, Bool, true, false, Option, none, some, List, [], ◌∷◌, ◌++◌, length,
  take, replicate, map, min, ltb, leb, ◌==◌, ◌&&◌, not, if◌then◌else◌, add64,
}
use dummy_benchmark.Base.Bytes.{Bytes}
use dummy_benchmark.Base.Float.{Float}
use dummy_benchmark.Message.{MarketTick, symbol_len}
use dummy_benchmark.Text.{Text, split, trim}
use dummy_benchmark.CpuList.{keep_nonempty}

-- `pack_symbol`, on the bytes of its argument: at most eight of them, then zeros.
unfoldable pub pack_symbol : Bytes → Bytes
pack_symbol bytes =
    let n = min (length bytes) symbol_len in take n bytes ++ replicate (symbol_len - n) 0

-- The names that the command line gives: split at commas, empty pieces left out, then trimmed.
-- `as_bytes` is the UTF-8 encoding of a text.
unfoldable pub symbol_names : (Text → Bytes) → Text → List Bytes
symbol_names as_bytes arg =
    map (λ s. pack_symbol (as_bytes (trim s))) (keep_nonempty (split b',' arg))

-- The pacing at the end of a round, in nanoseconds: the next due time, and the sleep if there is one.
unfoldable pub pace : ℕ → ℕ → ℕ → ℕ × Option ℕ
pace next_due per_tick now =
    let due = next_due + per_tick in
    if ltb now due
    then (due, some (due - now))
    else if ltb 50_000_000 (now - due)
    then (now, none)
    else (due, none)

-- The counters of the loop.
pub record Sending : Type 0 where
  pub seq : ℕ
  pub sent_total : ℕ

-- `args.count > 0 && sent_total >= args.count`
unfoldable pub count_reached : ℕ → ℕ → Bool
count_reached count sent_total = ltb 0 count && leb count sent_total

module _ (fl : Float) where
  open fl use {F, lit, add, sub, mul, max, to_i64}

  pub record SymState : Type 0 where
    pub name : Bytes
    pub anchor : F
    pub mid : F

  -- What a tick draws: the clock, a number from 0 to 1, and two sizes below 900.
  pub record Draw : Type 0 where
    pub ts : ℕ
    pub unit : F
    pub bid_extra : ℕ
    pub ask_extra : ℕ

  -- The step of the price towards its anchor.
  unfoldable pub next_mid : SymState → F → F
  next_mid s unit =
      let drift = mul (sub s.anchor s.mid) (lit 1 1000) in
      let jitter = mul (sub unit (lit 1 2)) (lit 5 100) in
      max (add (add s.mid drift) jitter) (lit 1 100)

  unfoldable pub make_tick : Bytes → F → Draw → ℕ → MarketTick
  make_tick name mid d seq =
      let spread_half = max (mul mid (lit 5 100_000)) (lit 5 1000) in
      record {
        seq_num = seq;
        exch_ts_ns = d.ts;
        recv_ts_ns = 0;
        symbol = name;
        bid_px = to_i64 (mul (sub mid spread_half) (lit 1_000_000 1));
        ask_px = to_i64 (mul (add mid spread_half) (lit 1_000_000 1));
        bid_sz = 100 + d.bid_extra;
        ask_sz = 100 + d.ask_extra;
        pad = 0;
      }

  -- What the rounds over the symbols leave: whether the count is reached and `main` returns, the
  -- counters, the symbols, and the ticks handed to the socket, the oldest first.
  pub record Sent : Type 0 where
    pub finished : Bool
    pub sending : Sending
    pub symbols : List SymState
    pub ticks : List MarketTick

  -- The body for one symbol.
  unfoldable pub send_symbol : Sending → SymState → Draw → Sending × SymState × MarketTick
  send_symbol s sym d =
      let mid = next_mid sym d.unit in
      let seq = add64 s.seq 1 in
      (
        record { seq = seq; sent_total = add64 s.sent_total 1 },
        record sym { mid = mid },
        make_tick sym.name mid d seq,
      )

  -- The round ends `main` at a symbol, or goes on after it.
  unfoldable pub end_at : Sending → SymState → MarketTick → List SymState → Sent
  end_at s sym tick others = record {
    finished = true;
    sending = s;
    symbols = sym ∷ others;
    ticks = tick ∷ [];
  }

  unfoldable pub go_on : SymState → MarketTick → Sent → Sent
  go_on sym tick r = record r { symbols = sym ∷ r.symbols; ticks = tick ∷ r.ticks }

  -- `for sym in symbols.iter_mut()`, with a draw for each symbol.
  unfoldable pub send_round : ℕ → Sending → List (SymState × Draw) → Sent
  send_round count s [] = record { finished = false; sending = s; symbols = []; ticks = [] }
  send_round count s ((sym, d) ∷ rest) =
      let (s', sym', tick) = send_symbol s sym d in
      let r = send_round count s' rest in
      if count_reached count s'.sent_total
      then end_at s' sym' tick (map (λ x. x.0) rest)
      else go_on sym' tick r

  -- Each symbol with the draw of its place.
  unfoldable pub with_draws : List SymState → List Draw → List (SymState × Draw)
  with_draws [] ds = []
  with_draws (s ∷ ss) [] = []
  with_draws (s ∷ ss) (d ∷ ds) = (s, d) ∷ with_draws ss ds

  -- The rounds of the loop, each with its draws: the ticks sent, the counters, and whether `main` has
  -- returned.
  unfoldable pub send_rounds :
      ℕ → Sending → List SymState → List (List Draw) → Bool × Sending × List MarketTick
  send_rounds count s symbols [] = (false, s, [])
  send_rounds count s symbols (ds ∷ rounds) =
      let r = send_round count s (with_draws symbols ds) in
      let (finished, s', ticks) = send_rounds count r.sending r.symbols rounds in
      if r.finished then (true, r.sending, r.ticks) else (finished, s', r.ticks ++ ticks)
