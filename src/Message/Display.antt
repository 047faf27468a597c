-- ===== src/Message/Display.antt =====
-- How crates/shmbus/src/message.rs prints ticks and orders, as the bytes of the text.
use dummy_benchmark.Base.{ℕ, none, some, ◌++◌}
use dummy_benchmark.Base.Int.{ℤ}
use dummy_benchmark.Base.Float.{Float, FloatText}
use dummy_benchmark.Text.{Text, codes, to_string}
use dummy_benchmark.Message.{MarketTick, OrderMsg, buy, sell, from_u8, symbol_str}

-- The name of an order's side.
unfoldable pub side_name : ℕ → Text
side_name b = elim (from_u8 b) [
  | none ↦ codes "?"
  | some side ↦ elim side [ buy ↦ codes "BUY" | sell ↦ codes "SELL" ]
]

module _ (fl : Float) (show : FloatText fl.F) where
  open fl use {lit, of_i64, div}

  -- `px as f64 / 1e6`
  unfoldable pub price_text : ℤ → Text
  price_text px = show.display (div (of_i64 px) (lit 1_000_000 1))

  -- `fmt` of a tick.
  unfoldable pub display_tick : MarketTick → Text
  display_tick t =
      symbol_str t.symbol
      ++ (codes " bid="
          ++ (to_string t.bid_sz
              ++ (codes "@"
                  ++ (price_text t.bid_px
                      ++ (codes " ask="
                          ++ (to_string t.ask_sz
                              ++ (codes "@"
                                  ++ (price_text t.ask_px
                                      ++ (codes " seq=" ++ to_string t.seq_num)))))))))

  -- `fmt` of an order.
  unfoldable pub display_order : OrderMsg → Text
  display_order o =
      side_name o.side
      ++ (codes " "
          ++ (symbol_str o.symbol
              ++ (codes " "
                  ++ (to_string o.qty
                      ++ (codes "@"
                          ++ (price_text o.px ++ (codes " id=" ++ to_string o.order_id)))))))
