-- ===== src/Engine.antt =====
-- crates/trading-engine/src/main.rs: the strategy, the routing of symbols to workers and the
-- publication of orders.
pub mod Cases
pub mod Orders
pub mod Ids
pub mod Routing
pub mod Dispatch
pub mod Drain
pub mod Rounds
pub mod Kept
pub mod Accounts
pub mod Worker
pub mod Inline
pub mod Offered
pub mod InlineRun
pub mod Shutdown
pub mod Sharding
pub mod Affinity
pub mod Tests
pub mod RunTests
use Prim.Native.Nat.{bit_xor}
use mathlib.Core.Option
use dummy_benchmark.Base.{
  ℕ, zero, suc, ◌+◌, ◌-◌, ◌*◌, ◌/◌, ◌%◌, ◌^◌, Bool, true, false, Option, none, some, List, [], ◌∷◌,
  ltb, leb, ◌==◌, not, if◌then◌else◌, add64, sub64, mul64, saturating_sub, min,
}
use dummy_benchmark.Base.Bytes.{Bytes}
use dummy_benchmark.Base.Int.{ℤ}
use dummy_benchmark.Base.Float.{Float}
use dummy_benchmark.Message.{MarketTick, OrderMsg, Side, buy, sell, side_byte, order_bytes}
use dummy_benchmark.Ring.{SpscRing, RingProducer, publish}
use dummy_benchmark.SymbolMap.{lookup, insert}

-- FNV-1a over the bytes of a symbol.
unfoldable pub hash_from : ℕ → Bytes → ℕ
hash_from h [] = h
hash_from h (b ∷ s) = hash_from (mul64 (bit_xor h b) 0x100000001b3) s

unfoldable pub symbol_hash : Bytes → ℕ
symbol_hash s = hash_from 0xcbf29ce484222325 s

-- `(symbol_hash(&tick.symbol) as usize) % n`
unfoldable pub route : Bytes → ℕ → ℕ
route s n = symbol_hash s % n

-- The counter of `idle_backoff`, a `u32`, and what it does with the thread.
pub data Backoff : Type 0 where
  spin_loop yield_now sleep : Backoff

unfoldable pub idle_backoff : ℕ → ℕ × Backoff
idle_backoff spin =
    let spin' = min (spin + 1) (2 ^ 32 - 1) in
    (spin', if ltb spin' 64 then spin_loop else if ltb spin' 1024 then yield_now else sleep)

-- `next_order_id` of worker `id` when it starts: `(id as u64) << 32`.
unfoldable pub first_order_id : ℕ → ℕ
first_order_id id = id * 2 ^ 32 % 2 ^ 64

-- `now - entry.last_order_ns < cooldown_ns` keeps the order back.
unfoldable pub cools_down : ℕ → ℕ → ℕ → Bool
cools_down now last cooldown = ltb (sub64 now last) cooldown

-- `try_publish_order`: 40 bytes always pass the `assert!` of `try_publish`.
unfoldable pub try_publish_order :
    SpscRing → RingProducer → OrderMsg → Bool × SpscRing × RingProducer
try_publish_order ring prod order = publish ring prod (order_bytes order)

module _ (fl : Float) where
  open fl use {F, lit, of_i64, add, sub, mul, div, neg, abs, exp, ln, lt, le}

  unfoldable pub ema_alpha : F → F
  ema_alpha halflife =
      if le halflife (lit 0 1)
      then lit 1 1
      else sub (lit 1 1) (exp (div (neg (ln (lit 2 1))) halflife))

  pub record SymbolState : Type 0 where
    pub ema_px : F
    pub last_order_ns : ℕ
    pub initialised : Bool

  -- The values that `strategy_step` is given and does not change.
  pub record Params : Type 0 where
    pub alpha : F
    pub threshold_bps : F
    pub cooldown_ns : ℕ
    pub qty : ℕ

  abbrev pub default_state : SymbolState
  default_state = record { ema_px = lit 0 1; last_order_ns = 0; initialised = false }

  unfoldable pub mid_price : MarketTick → F
  mid_price tick =
      div (mul (add (of_i64 tick.bid_px) (of_i64 tick.ask_px)) (lit 1 2)) (lit 1_000_000 1)

  unfoldable pub next_ema : Params → SymbolState → F → F
  next_ema p entry mid = add (mul p.alpha mid) (mul (sub (lit 1 1) p.alpha) entry.ema_px)

  unfoldable pub deviation : F → F → F
  deviation mid ema = mul (div (sub mid ema) ema) (lit 10_000 1)

  -- What one step leaves: the order, the deviation, the symbol's entry and the last id.
  pub record Step : Type 0 where
    pub order : Option OrderMsg
    pub dev_bps : F
    pub entry : SymbolState
    pub next_order_id : ℕ

  unfoldable pub make_order : Params → MarketTick → F → ℕ → ℕ → OrderMsg
  make_order p tick dev now id =
      let side = if lt (lit 0 1) dev then sell else buy in
      record {
        order_id = id;
        submit_ts_ns = now;
        symbol = tick.symbol;
        px = elim side [ buy ↦ tick.ask_px | sell ↦ tick.bid_px ];
        qty = p.qty;
        side = side_byte side;
        pad = 0 ∷ 0 ∷ 0 ∷ [];
      }

  -- `strategy_step` on the entry of the tick's symbol; `now` is the clock that it reads.
  unfoldable pub entry_step : Params → MarketTick → SymbolState → ℕ → ℕ → Step
  entry_step p tick entry id now =
      let mid = mid_price tick in
      let ema = next_ema p entry mid in
      let dev = deviation mid ema in
      if not entry.initialised
      then record {
        order = none;
        dev_bps = lit 0 1;
        entry = record entry { ema_px = mid; initialised = true };
        next_order_id = id;
      }
      else if lt (abs dev) p.threshold_bps
      then record {
        order = none;
        dev_bps = dev;
        entry = record entry { ema_px = ema };
        next_order_id = id;
      }
      else if cools_down now entry.last_order_ns p.cooldown_ns
      then record {
        order = none;
        dev_bps = dev;
        entry = record entry { ema_px = ema };
        next_order_id = id;
      }
      else record {
        order = some (make_order p tick dev now (add64 id 1));
        dev_bps = dev;
        entry = record entry { ema_px = ema; last_order_ns = now };
        next_order_id = add64 id 1;
      }

  -- `state.entry(tick.symbol).or_default()`
  unfoldable pub entry_of : List (Bytes × SymbolState) → Bytes → SymbolState
  entry_of state symbol = Option.get_or (lookup symbol state) default_state

  -- `strategy_step`: the step, and the map with the entry that it left.
  unfoldable pub strategy_step :
      Params → MarketTick → List (Bytes × SymbolState) → ℕ → ℕ → Step × List (Bytes × SymbolState)
  strategy_step p tick state id now =
      let r = entry_step p tick (entry_of state tick.symbol) id now in
      (r, insert tick.symbol r.entry state)
