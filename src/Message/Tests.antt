-- ===== src/Message/Tests.antt =====
-- Messages of crates/shmbus/src/message.rs at concrete values.
use dummy_benchmark.Base.{◌≡◌, refl, some, [], ◌∷◌, arith}
use dummy_benchmark.Base.Fixed.{fixed}
use dummy_benchmark.Base.Int.{pos, negsuc}
use dummy_benchmark.Text.Words.{HasNo}
use dummy_benchmark.Message.Display.{display_tick, display_order}
use dummy_benchmark.Message.Printed.{
  read_order_line, read_tick_line, read_order_line-display_order, read_tick_line-display_tick,
}
use dummy_benchmark.Message.{symbol_str, nul_position, is_utf8, utf8_rest, utf8_lead}
use dummy_benchmark.Samples.{aapl, tick_at, order_with, fixed_text, fixed_text-HasNo}

symbol_str-aapl : symbol_str aapl ≡ b'A' ∷ b'A' ∷ b'P' ∷ b'L' ∷ []
unfolding symbol_str nul_position is_utf8 utf8_rest utf8_lead
symbol_str-aapl = refl

aapl-HasNo : HasNo b' ' (symbol_str aapl)
aapl-HasNo = rw symbol_str-aapl (omega arith)

read_order_line-display_order_example :
    read_order_line (display_order fixed fixed_text (order_with 7))
    ≡ some (record {
      side = 2;
      symbol = symbol_str aapl;
      qty = 100;
      px = fixed_text.display (fixed.div (fixed.of_i64 (negsuc 3)) (fixed.lit 1_000_000 1));
      order_id = 7;
    })
read_order_line-display_order_example =
    read_order_line-display_order fixed fixed_text (λ x. (fixed_text-HasNo x).0) (order_with 7)
      aapl-HasNo (omega arith) (omega arith)

read_tick_line-display_tick_example :
    read_tick_line (display_tick fixed fixed_text (tick_at 150_000_000))
    ≡ some (record {
      symbol = symbol_str aapl;
      bid = (
        100,
        fixed_text.display (fixed.div (fixed.of_i64 (pos 150_000_000)) (fixed.lit 1_000_000 1)),
      );
      ask = (
        200,
        fixed_text.display (fixed.div (fixed.of_i64 (pos 150_010_000)) (fixed.lit 1_000_000 1)),
      );
      seq = 1;
    })
read_tick_line-display_tick_example =
    read_tick_line-display_tick fixed fixed_text (λ x. (fixed_text-HasNo x).0) (tick_at 150_000_000)
      aapl-HasNo (omega arith) (omega arith) (omega arith)
