-- ===== src/Message.antt =====
-- crates/shmbus/src/message.rs: the wire formats, as records and as the bytes that `repr(C)` lays out
-- on a little-endian machine.
pub mod Layout
pub mod Symbol
pub mod Display
pub mod Printed
mod Tests
use dummy_benchmark.Base.{
  ℕ, zero, suc, ◌+◌, ◌-◌, ◌*◌, ◌/◌, ◌%◌, ◌^◌, Bool, true, false, Option, none, some, List, [], ◌∷◌,
  ◌++◌, ◌&&◌, length, take, drop, leb, ltb, ◌==◌, if◌then◌else◌,
}
use dummy_benchmark.Base.Bytes.{Bytes}
use dummy_benchmark.Base.Int.{ℤ, pos, negsuc}
use mathlib.Core.Option

-- `SYMBOL_LEN`
abbrev pub symbol_len : ℕ
symbol_len = 8

pub data Side : Type 0 where
  buy sell : Side

unfoldable pub from_u8 : ℕ → Option Side
from_u8 b = if b == 1 then some buy else if b == 2 then some sell else none

-- `side as u8`
unfoldable pub side_byte : Side → ℕ
side_byte buy = 1
side_byte sell = 2

pub record MarketTick : Type 0 where
  pub seq_num : ℕ
  pub exch_ts_ns : ℕ
  pub recv_ts_ns : ℕ
  pub symbol : Bytes
  pub bid_px : ℤ
  pub ask_px : ℤ
  pub bid_sz : ℕ
  pub ask_sz : ℕ
  pub pad : ℕ

pub record OrderMsg : Type 0 where
  pub order_id : ℕ
  pub submit_ts_ns : ℕ
  pub symbol : Bytes
  pub px : ℤ
  pub qty : ℕ
  pub side : ℕ
  pub pad : Bytes

-- `MarketTick::SIZE`: 60 bytes of fields, rounded up to the alignment of a `u64`.
abbrev pub tick_size : ℕ
tick_size = 64

abbrev pub order_size : ℕ
order_size = 40

-- A little-endian word of `k` bytes, and back.
unfoldable pub le_bytes : ℕ → ℕ → Bytes
le_bytes zero n = []
le_bytes (suc k) n = n % 256 ∷ le_bytes k (n / 256)

unfoldable pub of_le : Bytes → ℕ
of_le [] = 0
of_le (b ∷ bytes) = b + 256 * of_le bytes

-- The two's complement of an `i64`.
pub i64_word : ℤ → ℕ
i64_word (pos n) = n
i64_word (negsuc n) = 2 ^ 64 - 1 - n

unfoldable pub word_i64 : ℕ → ℤ
word_i64 w = if ltb w (2 ^ 63) then pos w else negsuc (2 ^ 64 - 1 - w)

-- The bytes of a tick in memory. The last four are padding, whatever they hold.
unfoldable pub tick_bytes : MarketTick → Bytes → Bytes
tick_bytes t padding =
    le_bytes 8 t.seq_num
    ++ (le_bytes 8 t.exch_ts_ns
        ++ (le_bytes 8 t.recv_ts_ns
            ++ (t.symbol
                ++ (le_bytes 8 (i64_word t.bid_px)
                    ++ (le_bytes 8 (i64_word t.ask_px)
                        ++ (le_bytes 4 t.bid_sz
                            ++ (le_bytes 4 t.ask_sz ++ (le_bytes 4 t.pad ++ padding))))))))

-- `ptr::read` of a tick: the fields from the front of the buffer.
unfoldable pub read_tick : Bytes → MarketTick
read_tick b0 =
    let b1 = drop 8 b0 in
    let b2 = drop 8 b1 in
    let b3 = drop 8 b2 in
    let b4 = drop 8 b3 in
    let b5 = drop 8 b4 in
    let b6 = drop 8 b5 in
    let b7 = drop 4 b6 in
    let b8 = drop 4 b7 in
    record {
      seq_num = of_le (take 8 b0);
      exch_ts_ns = of_le (take 8 b1);
      recv_ts_ns = of_le (take 8 b2);
      symbol = take 8 b3;
      bid_px = word_i64 (of_le (take 8 b4));
      ask_px = word_i64 (of_le (take 8 b5));
      bid_sz = of_le (take 4 b6);
      ask_sz = of_le (take 4 b7);
      pad = of_le (take 4 b8);
    }

unfoldable pub order_bytes : OrderMsg → Bytes
order_bytes o =
    le_bytes 8 o.order_id
    ++ (le_bytes 8 o.submit_ts_ns
        ++ (o.symbol
            ++ (le_bytes 8 (i64_word o.px) ++ (le_bytes 4 o.qty ++ (le_bytes 1 o.side ++ o.pad)))))

unfoldable pub read_order : Bytes → OrderMsg
read_order b0 =
    let b1 = drop 8 b0 in
    let b2 = drop 8 b1 in
    let b3 = drop 8 b2 in
    let b4 = drop 8 b3 in
    let b5 = drop 4 b4 in
    let b6 = drop 1 b5 in
    record {
      order_id = of_le (take 8 b0);
      submit_ts_ns = of_le (take 8 b1);
      symbol = take 8 b2;
      px = word_i64 (of_le (take 8 b3));
      qty = of_le (take 4 b4);
      side = of_le (take 1 b5);
      pad = take 3 b6;
    }

-- `iter().position(|&b| b == 0)`
unfoldable pub nul_position : Bytes → Option ℕ
nul_position [] = none
nul_position (b ∷ bytes) = if b == 0 then some 0 else Option.map suc (nul_position bytes)

-- The ranges that the bytes after a leading byte of UTF-8 have to lie in; `none` for a byte that
-- leads nothing.
unfoldable pub utf8_lead : ℕ → Option (List (ℕ × ℕ))
utf8_lead b =
    if ltb b 0x80
    then some []
    else if leb 0xc2 b && leb b 0xdf
    then some ((0x80, 0xbf) ∷ [])
    else if b == 0xe0
    then some ((0xa0, 0xbf) ∷ (0x80, 0xbf) ∷ [])
    else if b == 0xed
    then some ((0x80, 0x9f) ∷ (0x80, 0xbf) ∷ [])
    else if leb 0xe1 b && leb b 0xef
    then some ((0x80, 0xbf) ∷ (0x80, 0xbf) ∷ [])
    else if b == 0xf0
    then some ((0x90, 0xbf) ∷ (0x80, 0xbf) ∷ (0x80, 0xbf) ∷ [])
    else if leb 0xf1 b && leb b 0xf3
    then some ((0x80, 0xbf) ∷ (0x80, 0xbf) ∷ (0x80, 0xbf) ∷ [])
    else if b == 0xf4
    then some ((0x80, 0x8f) ∷ (0x80, 0xbf) ∷ (0x80, 0xbf) ∷ [])
    else none

unfoldable pub utf8_rest : List (ℕ × ℕ) → Bytes → Bool
utf8_rest [] [] = true
utf8_rest (r ∷ rs) [] = false
utf8_rest [] (b ∷ bytes) = elim (utf8_lead b) [ none ↦ false | some rs ↦ utf8_rest rs bytes ]
utf8_rest ((lo, hi) ∷ rs) (b ∷ bytes) = leb lo b && leb b hi && utf8_rest rs bytes

-- `str::from_utf8(bytes).is_ok()`
unfoldable pub is_utf8 : Bytes → Bool
is_utf8 = utf8_rest []

-- `symbol_str`, of a tick and of an order alike.
unfoldable pub symbol_str : Bytes → Bytes
symbol_str symbol =
    let end = Option.get_or (nul_position symbol) symbol_len in
    if is_utf8 (take end symbol) then take end symbol else b'?' ∷ []
