-- ===== src/Message/Layout.antt =====
-- The bytes of the messages of crates/shmbus/src/message.rs read back as the same messages.
use dummy_benchmark.Base.{
  ℕ, zero, suc, ◌/◌, ◌^◌, ◌<◌, ◌≡◌, refl, ap, ◌++◌, length, take, drop, arith, length-append,
}
use mathlib.Core.List.{append_assoc}
use dummy_benchmark.Base.Bytes.{Bytes, take-append_left, drop-append_left}
use dummy_benchmark.Base.Int.{ℤ, pos, negsuc}
use dummy_benchmark.Message.{
  MarketTick, OrderMsg, tick_size, order_size, le_bytes, of_le, i64_word, word_i64, tick_bytes,
  read_tick, order_bytes, read_order,
}

-- The values of an `i64`.
abbrev pub IsWord64 : ℤ → Type 0
IsWord64 (pos n) = n < 2 ^ 63
IsWord64 (negsuc n) = n < 2 ^ 63

pub record IsTick (t : MarketTick) : Type 0 where
  pub seq_fits : t.seq_num < 2 ^ 64
  pub exch_fits : t.exch_ts_ns < 2 ^ 64
  pub recv_fits : t.recv_ts_ns < 2 ^ 64
  pub symbol_len : length t.symbol ≡ 8
  pub bid_fits : IsWord64 t.bid_px
  pub ask_fits : IsWord64 t.ask_px
  pub bid_sz_fits : t.bid_sz < 2 ^ 32
  pub ask_sz_fits : t.ask_sz < 2 ^ 32
  pub pad_fits : t.pad < 2 ^ 32

pub record IsOrder (o : OrderMsg) : Type 0 where
  pub id_fits : o.order_id < 2 ^ 64
  pub submit_fits : o.submit_ts_ns < 2 ^ 64
  pub symbol_len : length o.symbol ≡ 8
  pub px_fits : IsWord64 o.px
  pub qty_fits : o.qty < 2 ^ 32
  pub side_fits : o.side < 256
  pub pad_len : length o.pad ≡ 3

length-le_bytes : (k n : ℕ) → length (le_bytes k n) ≡ k
unfolding le_bytes
length-le_bytes zero n = refl
length-le_bytes (suc k) n = ap suc (length-le_bytes k (n / 256))

of_le-le_bytes8 : (n : ℕ) → n < 2 ^ 64 → of_le (le_bytes 8 n) ≡ n
unfolding le_bytes of_le
of_le-le_bytes8 n h = omega arith

of_le-le_bytes4 : (n : ℕ) → n < 2 ^ 32 → of_le (le_bytes 4 n) ≡ n
unfolding le_bytes of_le
of_le-le_bytes4 n h = omega arith

of_le-le_bytes1 : (n : ℕ) → n < 256 → of_le (le_bytes 1 n) ≡ n
unfolding le_bytes of_le
of_le-le_bytes1 n h = omega arith

word_i64-i64_word : (z : ℤ) → IsWord64 z → word_i64 (i64_word z) ≡ z
unfolding word_i64 i64_word
word_i64-i64_word (pos n) h = ground arith
word_i64-i64_word (negsuc n) h = ground arith

i64_word-lt : (z : ℤ) → IsWord64 z → i64_word z < 2 ^ 64
unfolding i64_word
i64_word-lt (pos n) h = omega arith
i64_word-lt (negsuc n) h = omega arith

-- What stands in front of a list, by its length.
pub take_front : (n : ℕ) (xs ys : Bytes) → length xs ≡ n → take n (xs ++ ys) ≡ xs
take_front n xs ys e = rw (← e) (take-append_left xs ys)

drop_front : (n : ℕ) (xs ys : Bytes) → length xs ≡ n → drop n (xs ++ ys) ≡ ys
drop_front n xs ys e = rw (← e) (drop-append_left xs ys)

take_word : (n k : ℕ) (ys : Bytes) → take k (le_bytes k n ++ ys) ≡ le_bytes k n
take_word n k ys = take_front k (le_bytes k n) ys (length-le_bytes k n)

drop_word : (n k : ℕ) (ys : Bytes) → drop k (le_bytes k n ++ ys) ≡ ys
drop_word n k ys = drop_front k (le_bytes k n) ys (length-le_bytes k n)

-- A tick whose fields fit their types reads back, whatever the padding and whatever follows.
pub read_tick-tick_bytes :
    (t : MarketTick) (padding : Bytes) → IsTick t → read_tick (tick_bytes t padding) ≡ t
unfolding read_tick tick_bytes
read_tick-tick_bytes t padding w =
    simp (take_word, drop_word, take_front 8 t.symbol, drop_front 8 t.symbol, w.symbol_len)
      (rw (
        of_le-le_bytes8 t.seq_num w.seq_fits,
        of_le-le_bytes8 t.exch_ts_ns w.exch_fits,
        of_le-le_bytes8 t.recv_ts_ns w.recv_fits,
        of_le-le_bytes8 (i64_word t.bid_px) (i64_word-lt t.bid_px w.bid_fits),
        of_le-le_bytes8 (i64_word t.ask_px) (i64_word-lt t.ask_px w.ask_fits),
        word_i64-i64_word t.bid_px w.bid_fits,
        word_i64-i64_word t.ask_px w.ask_fits,
        of_le-le_bytes4 t.bid_sz w.bid_sz_fits,
        of_le-le_bytes4 t.ask_sz w.ask_sz_fits,
        of_le-le_bytes4 t.pad w.pad_fits,
      ))

-- An order whose fields fit their types reads back from the front of a buffer.
pub read_order-order_bytes :
    (o : OrderMsg) (rest : Bytes) → IsOrder o → read_order (order_bytes o ++ rest) ≡ o
unfolding read_order order_bytes
read_order-order_bytes o rest w =
    simp
      (
        append_assoc,
        take_word,
        drop_word,
        take_front 8 o.symbol,
        drop_front 8 o.symbol,
        w.symbol_len,
        take_front 3 o.pad rest,
        w.pad_len,
      )
      (rw (
        of_le-le_bytes8 o.order_id w.id_fits,
        of_le-le_bytes8 o.submit_ts_ns w.submit_fits,
        of_le-le_bytes8 (i64_word o.px) (i64_word-lt o.px w.px_fits),
        word_i64-i64_word o.px w.px_fits,
        of_le-le_bytes4 o.qty w.qty_fits,
        of_le-le_bytes1 o.side w.side_fits,
      ))

-- The sizes that the slots of a ring are checked against.
pub length-tick_bytes :
    (t : MarketTick) (padding : Bytes)
    → IsTick t
    → length padding ≡ 4
    → length (tick_bytes t padding) ≡ tick_size
unfolding tick_bytes
length-tick_bytes t padding w e = simp (length-append, length-le_bytes, w.symbol_len, e)

pub length-order_bytes : (o : OrderMsg) → IsOrder o → length (order_bytes o) ≡ order_size
unfolding order_bytes
length-order_bytes o w = simp (length-append, length-le_bytes, w.symbol_len, w.pad_len)

-- A tick reads back from bytes that go on after it.
pub read_tick-append :
    (t : MarketTick) (padding rest : Bytes)
    → IsTick t
    → read_tick (tick_bytes t padding ++ rest) ≡ t
unfolding tick_bytes
read_tick-append t padding rest w = simp append_assoc (read_tick-tick_bytes t (padding ++ rest) w)
