-- ===== src/Pipeline/Market.antt =====
-- A tick of crates/mock-exchange/src/main.rs on its way through crates/feedhandler/src/main.rs to
-- crates/trading-engine/src/main.rs.
use dummy_benchmark.Base.{
  ℕ, zero, suc, ◌%◌, ◌^◌, ◌<◌, ◌≡◌, refl, ap, subst, ◌∙◌, Option, some, [], ◌∷◌, ◌++◌, arith,
  length, length-append, take,
}
use dummy_benchmark.Base.Bytes.{Bytes}
use dummy_benchmark.Base.Float.{Float}
use dummy_benchmark.Base.Int.{pos}
use dummy_benchmark.Message.{MarketTick, tick_size, tick_bytes, read_tick, le_bytes}
use dummy_benchmark.Message.Layout.{
  IsTick, IsWord64, length-tick_bytes, read_tick-tick_bytes, take_front,
}
use dummy_benchmark.Ring.{slot_payload}
use dummy_benchmark.Ring.Holds.{Holds}
use dummy_benchmark.Engine.Dispatch.{Inlet, take_tick}
use dummy_benchmark.Feedhandler.{Counters, TickOutlet, Completion, on_result}
use dummy_benchmark.Feedhandler.Forward.{AreBytes}
use dummy_benchmark.Exchange.{SymState, Draw, Sending, make_tick, send_symbol}
use dummy_benchmark.Pipeline.{packet_reaches_engine}

AreBytes-append : (xs ys : Bytes) → AreBytes xs → AreBytes ys → AreBytes (xs ++ ys)
AreBytes-append [] ys h k = k
AreBytes-append (x ∷ xs) ys h k = (h.0, AreBytes-append xs ys h.1 k)

le_bytes-AreBytes : (k n : ℕ) (rest : Bytes) → AreBytes rest → AreBytes (le_bytes k n ++ rest)
unfolding le_bytes
le_bytes-AreBytes zero n rest h = h
le_bytes-AreBytes (suc k) n rest h = (omega arith, le_bytes-AreBytes k _ rest h)

tick_bytes-AreBytes :
    (t : MarketTick) (padding : Bytes)
    → AreBytes t.symbol
    → AreBytes padding
    → AreBytes (tick_bytes t padding)
unfolding tick_bytes
tick_bytes-AreBytes t padding symbol rest = le_bytes-AreBytes 8 _ _ (
    le_bytes-AreBytes 8 _ _ (
      le_bytes-AreBytes 8 _ _ (
        AreBytes-append t.symbol _ symbol (
          le_bytes-AreBytes 8 _ _ (
            le_bytes-AreBytes 8 _ _ (
              le_bytes-AreBytes 4 _ _
                (le_bytes-AreBytes 4 _ _ (le_bytes-AreBytes 4 _ padding rest))))))))

take-length : (xs : Bytes) → take (length xs) xs ≡ xs
take-length [] = refl
take-length (x ∷ xs) = ap (λ t. x ∷ t) (take-length xs)

take_whole : (n : ℕ) (xs : Bytes) → length xs ≡ n → take n xs ≡ xs
take_whole n xs e = subst (λ m. take m xs ≡ xs) e (take-length xs)

-- The tick ring is empty, and the handles of the feed handler and of the engine stand at its position.
pub record InStep (out : TickOutlet) (i : Inlet) (sent : ℕ → Bytes) (c : ℕ) : Type 0 where
  pub holds : Holds out.ring sent c c
  pub producer_at : out.producer.next_seq ≡ c % 2 ^ 64
  pub consumer_at : i.consumer.next_seq ≡ c % 2 ^ 64
  pub buf_len : length i.buf ≡ slot_payload

-- What a receive gives for a tick that was sent: its 64 bytes in front of what the buffer had there.
abbrev pub received : MarketTick → Bytes → Bytes → ℕ → Bytes → Completion
received t padding rest now slot_padding = record {
  res = pos tick_size;
  buffer = tick_bytes t padding ++ rest;
  now = now;
  padding = slot_padding;
}

tick_reaches_engine :
    (s : Counters) (out : TickOutlet) (i : Inlet) (sent : ℕ → Bytes) (c : ℕ) (t : MarketTick)
    (padding rest : Bytes) (now : ℕ) (slot_padding : Bytes)
    → InStep out i sent c
    → IsTick t
    → AreBytes t.symbol
    → length padding ≡ 4
    → AreBytes padding
    → AreBytes rest
    → length slot_padding ≡ 4
    → now < 2 ^ 64
    → let ring =
        (on_result s out (received t padding rest now slot_padding) (pos tick_size)).1.ring in
      (take_tick (record i { ring = ring })).0 ≡ some (record t { recv_ts_ns = now })
tick_reaches_engine s out i sent c t padding rest now slot_padding h fits name four pads rests four'
      clock =
    let bytes = tick_bytes t padding in
    let len = length-tick_bytes t padding fits four in
    let got =
      packet_reaches_engine s out (received t padding rest now slot_padding) tick_size i sent c
        h.holds h.producer_at h.consumer_at h.buf_len (omega arith)
        (omega (arith, len, length-append bytes rest))
        (AreBytes-append bytes rest (tick_bytes-AreBytes t padding name pads) rests) four' clock in
    let front : take tick_size (bytes ++ rest) ≡ bytes = take_front tick_size bytes rest len in
    let cut : take tick_size (take tick_size (bytes ++ rest)) ≡ bytes =
      ap (take tick_size) front ∙ take_whole tick_size bytes len in
    let stamped : MarketTick → Option MarketTick = λ u. some (record u { recv_ts_ns = now }) in
    got ∙ ap (λ b. stamped (read_tick b)) cut ∙ ap stamped (read_tick-tick_bytes t padding fits)

module _ (fl : Float) where
  -- The symbol is eight bytes, the draws are in their ranges, and the prices fit an `i64`, past which
  -- `as` would have cut them off.
  pub record Sendable (x : SymState fl) (d : Draw fl) (tick : MarketTick) : Type 0 where
    pub name_len : length x.name ≡ 8
    pub name_bytes : AreBytes x.name
    pub ts_fits : d.ts < 2 ^ 64
    pub bid_drawn : d.bid_extra < 900
    pub ask_drawn : d.ask_extra < 900
    pub bid_fits : IsWord64 tick.bid_px
    pub ask_fits : IsWord64 tick.ask_px

  send_symbol-IsTick :
      (s : Sending) (x : SymState fl) (d : Draw fl)
      → let (_, _, tick) = send_symbol fl s x d in
        Sendable x d tick → IsTick tick × AreBytes tick.symbol
  unfolding send_symbol make_tick
  send_symbol-IsTick s x d h = (
    record {
      seq_fits = omega arith;
      exch_fits = h.ts_fits;
      recv_fits = omega arith;
      symbol_len = h.name_len;
      bid_fits = h.bid_fits;
      ask_fits = h.ask_fits;
      bid_sz_fits = omega (arith, h.bid_drawn);
      ask_sz_fits = omega (arith, h.ask_drawn);
      pad_fits = omega arith;
    },
    h.name_bytes,
  )

  -- A tick that the mock exchange makes and that the feed handler receives while the tick ring is empty,
  -- with both handles at its position, is what the engine reads next: its symbol, number, prices and
  -- sizes, with the feed handler's clock as the time of reception. The symbol is eight bytes, the draws,
  -- the prices and the clock are in their ranges, the buffer holds bytes, and the padding of the packet
  -- and of the slot is any four bytes.
  pub sent_tick_reaches_engine :
      (s : Sending) (x : SymState fl) (d : Draw fl) (counters : Counters) (out : TickOutlet)
      (i : Inlet) (sent : ℕ → Bytes) (c : ℕ) (padding rest : Bytes) (now : ℕ) (slot_padding : Bytes)
      → let (_, _, tick) = send_symbol fl s x d in
        Sendable x d tick
        → InStep out i sent c
        → length padding ≡ 4
        → AreBytes padding
        → AreBytes rest
        → length slot_padding ≡ 4
        → now < 2 ^ 64
        → let ring =
            (on_result counters out
              (received tick padding rest now slot_padding)
              (pos tick_size)).1.ring in
          (take_tick (record i { ring = ring })).0 ≡ some (record tick { recv_ts_ns = now })
  sent_tick_reaches_engine s x d counters out i sent c padding rest now slot_padding h step =
      let (fits, name) = send_symbol-IsTick s x d h in
      tick_reaches_engine counters out i sent c _ padding rest now slot_padding step fits name
