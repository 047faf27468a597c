-- ===== src/Feedhandler/Forward.antt =====
-- A packet on its way from the socket of crates/feedhandler/src/main.rs to the trading engine.
use dummy_benchmark.Base.{
  ℕ, zero, suc, ◌+◌, ◌*◌, ◌%◌, ◌^◌, ◌≤◌, ◌<◌, ◌≡◌, false, [], ◌∷◌, arith, length, length-take,
  length-drop, take, drop, ltb, All, if_elim, tests, add64,
}
use dummy_benchmark.Base.Bytes.{Bytes, update}
use dummy_benchmark.Base.Int.{pos}
use dummy_benchmark.Message.{MarketTick, tick_size, tick_bytes, read_tick, of_le, word_i64}
use dummy_benchmark.Message.Layout.{IsTick, IsWord64, length-tick_bytes}
use dummy_benchmark.Ring.{ring_capacity}
use dummy_benchmark.Ring.Holds.{Holds, pad}
use dummy_benchmark.Ring.Calls.{publish-room}
use dummy_benchmark.Feedhandler.{
  Counters, TickOutlet, publish_tick, Completion, on_packet, on_result,
}
use dummy_benchmark.Feedhandler.Counts.{parse_tick-take}

-- Bytes are below 256.
abbrev pub AreBytes : Bytes → Type 0
AreBytes bytes = All (λ b. b < 256) bytes

-- `256 ^ n`, by recursion
abbrev byte_range : ℕ → ℕ
byte_range zero = 1
byte_range (suc n) = 256 * byte_range n

of_le-lt : (n : ℕ) (bytes : Bytes) → AreBytes bytes → length bytes ≤ n → of_le bytes < byte_range n
unfolding of_le
of_le-lt zero [] h le = omega arith
of_le-lt (suc n) [] h le = omega (arith, of_le-lt n [] h (omega arith))
of_le-lt zero (b ∷ bytes) h le = absurd (omega arith)
of_le-lt (suc n) (b ∷ bytes) h le = omega (arith, of_le-lt n bytes h.1 (omega arith), h.0)

All-take : (n : ℕ) (bytes : Bytes) → AreBytes bytes → AreBytes (take n bytes)
All-take zero bytes h = tt
All-take (suc n) [] h = tt
All-take (suc n) (b ∷ bytes) h = (h.0, All-take n bytes h.1)

All-drop : (n : ℕ) (bytes : Bytes) → AreBytes bytes → AreBytes (drop n bytes)
All-drop zero bytes h = h
All-drop (suc n) [] h = tt
All-drop (suc n) (b ∷ bytes) h = All-drop n bytes h.1

word_i64-IsWord64 : (w : ℕ) → w < 2 ^ 64 → IsWord64 (word_i64 w)
unfolding word_i64
word_i64-IsWord64 w h =
    if_elim IsWord64 (ltb w (2 ^ 63)) (λ low. omega (tests, low)) (λ high. ground arith)

word-lt : (n : ℕ) (bytes : Bytes) → AreBytes bytes → of_le (take n bytes) < byte_range n
word-lt n bytes h =
    of_le-lt n (take n bytes) (All-take n bytes h) (omega (arith, length-take n bytes))

-- Whatever bytes arrive, 60 or more, the tick that they are read as has fields that fit their
-- types.
pub read_tick-IsTick :
    (bytes : Bytes) → AreBytes bytes → 60 ≤ length bytes → IsTick (read_tick bytes)
unfolding read_tick
read_tick-IsTick b0 h0 long =
    let b1 = drop 8 b0 in
    let b2 = drop 8 b1 in
    let b3 = drop 8 b2 in
    let b4 = drop 8 b3 in
    let b5 = drop 8 b4 in
    let b6 = drop 8 b5 in
    let b7 = drop 4 b6 in
    let b8 = drop 4 b7 in
    let h1 = All-drop 8 b0 h0 in
    let h2 = All-drop 8 b1 h1 in
    let h3 = All-drop 8 b2 h2 in
    let h4 = All-drop 8 b3 h3 in
    let h5 = All-drop 8 b4 h4 in
    let h6 = All-drop 8 b5 h5 in
    let h7 = All-drop 4 b6 h6 in
    record {
      seq_fits = word-lt 8 b0 h0;
      exch_fits = word-lt 8 b1 h1;
      recv_fits = word-lt 8 b2 h2;
      symbol_len =
          omega (arith, length-take 8 b3, length-drop 8 b2, length-drop 8 b1, length-drop 8 b0);
      bid_fits = word_i64-IsWord64 _ (word-lt 8 b4 h4);
      ask_fits = word_i64-IsWord64 _ (word-lt 8 b5 h5);
      bid_sz_fits = word-lt 4 b6 h6;
      ask_sz_fits = word-lt 4 b7 h7;
      pad_fits = word-lt 4 b8 (All-drop 4 b7 h7);
    }

pub stamped-IsTick :
    (t : MarketTick) (now : ℕ) → IsTick t → now < 2 ^ 64 → IsTick (record t { recv_ts_ns = now })
stamped-IsTick t now fits clock = record {
  seq_fits = fits.seq_fits;
  exch_fits = fits.exch_fits;
  recv_fits = clock;
  symbol_len = fits.symbol_len;
  bid_fits = fits.bid_fits;
  ask_fits = fits.ask_fits;
  bid_sz_fits = fits.bid_sz_fits;
  ask_sz_fits = fits.ask_sz_fits;
  pad_fits = fits.pad_fits;
}

-- A published tick is counted, and stands at the end of the ring with the clock as its time of
-- reception.
pub publish_tick-room :
    (s : Counters) (out : TickOutlet) (t : MarketTick) (now : ℕ) (padding : Bytes)
    (sent : ℕ → Bytes) (c p : ℕ)
    → Holds out.ring sent c p
    → out.producer.next_seq ≡ p % 2 ^ 64
    → p < c + ring_capacity
    → IsTick t
    → length padding ≡ 4
    → now < 2 ^ 64
    → let (s', out') = publish_tick s out t now padding in
      let bytes = tick_bytes (record t { recv_ts_ns = now }) padding in
      (s'.recv_count ≡ add64 s.recv_count 1)
      × Holds out'.ring (update sent p (pad bytes)) c (p + 1)
      × (out'.producer.next_seq ≡ (p + 1) % 2 ^ 64)
unfolding publish_tick
publish_tick-room s out t now padding sent c p h at room fits four clock =
    let bytes = tick_bytes (record t { recv_ts_ns = now }) padding in
    let (done, holds, producer) = publish-room h out.producer bytes at room (
      omega (
        arith,
        length-tick_bytes (record t { recv_ts_ns = now }) padding (stamped-IsTick t now fits clock)
            four,
      )) in
    (rw (publish_tick, done), holds, producer)

-- A packet of a tick's size or more is published as the tick that its first 64 bytes are, stamped
-- with the clock, when the ring has room.
pub on_result-packet :
    (s : Counters) (out : TickOutlet) (d : Completion) (n : ℕ) (sent : ℕ → Bytes) (c p : ℕ)
    → Holds out.ring sent c p
    → out.producer.next_seq ≡ p % 2 ^ 64
    → p < c + ring_capacity
    → tick_size ≤ n
    → n ≤ length d.buffer
    → AreBytes d.buffer
    → length d.padding ≡ 4
    → d.now < 2 ^ 64
    → let (s', out') = on_result s out d (pos n) in
      let t = read_tick (take tick_size (take n d.buffer)) in
      let bytes = tick_bytes (record t { recv_ts_ns = d.now }) d.padding in
      IsTick t
      × (s'.recv_count ≡ add64 s.recv_count 1)
      × Holds out'.ring (update sent p (pad bytes)) c (p + 1)
      × (out'.producer.next_seq ≡ (p + 1) % 2 ^ 64)
unfolding on_result on_packet
on_result-packet s out d n sent c p h at room enough fits are_bytes four clock =
    let packet = take tick_size (take n d.buffer) in
    let is_tick =
      read_tick-IsTick packet (All-take tick_size (take n d.buffer) (All-take n d.buffer are_bytes))
        (omega (arith, length-take tick_size (take n d.buffer), length-take n d.buffer)) in
    let long : ltb n tick_size ≡ false = ground arith in
    let (count, holds, producer) =
      publish_tick-room s out (read_tick packet) d.now d.padding sent c p h at room is_tick four
        clock in
    rw (on_packet, long, parse_tick-take n d.buffer enough fits) (is_tick, count, holds, producer)
