-- ===== src/Exchange/Tests.antt =====
-- The exchange of crates/mock-exchange/src/main.rs at concrete symbols and draws.
use dummy_benchmark.Base.{◌≡◌, refl, false, List, [], ◌∷◌, arith}
use dummy_benchmark.Base.Fixed.{fixed}
use dummy_benchmark.Message.{symbol_str, is_utf8, utf8_rest, utf8_lead}
use dummy_benchmark.Text.{codes, split, trim, is_empty, trim_start, trim_end, is_whitespace}
use dummy_benchmark.CpuList.{keep_nonempty}
use dummy_benchmark.Samples.{aapl}
use dummy_benchmark.Exchange.{pack_symbol, symbol_names, SymState, Draw, Sending}
use dummy_benchmark.Exchange.Loop.{Turn, Sender, exchange_loop, Paced, exchange_loop-Paced}
use dummy_benchmark.Exchange.Symbols.{symbol_str-pack_symbol}

-- The empty piece is left out before the pieces are trimmed: a blank one becomes eight zeros.
symbol_names-blank :
    symbol_names (λ s. s) (codes "AAPL,, ,MSFT")
    ≡ aapl
      ∷ (0 ∷ 0 ∷ 0 ∷ 0 ∷ 0 ∷ 0 ∷ 0 ∷ 0 ∷ [])
      ∷ (b'M' ∷ b'S' ∷ b'F' ∷ b'T' ∷ 0 ∷ 0 ∷ 0 ∷ 0 ∷ [])
      ∷ []
unfolding symbol_names pack_symbol split keep_nonempty trim trim_start trim_end is_whitespace
    is_empty
symbol_names-blank = refl

symbol_str-pack_symbol_example : symbol_str (pack_symbol (b'A' ∷ b'B' ∷ [])) ≡ b'A' ∷ b'B' ∷ []
unfolding is_utf8 utf8_rest utf8_lead
symbol_str-pack_symbol_example =
    symbol_str-pack_symbol (b'A' ∷ b'B' ∷ []) ((λ e. ground arith), ((λ e. ground arith), tt))
      (omega arith) refl

abbrev symbols : List (SymState fixed)
symbols =
    record { name = aapl; anchor = fixed.lit 100 1; mid = fixed.lit 100 1 }
    ∷ record { name = aapl; anchor = fixed.lit 200 1; mid = fixed.lit 190 1 }
    ∷ []

abbrev draw : Draw fixed
draw = record { ts = 5; unit = fixed.lit 1 4; bid_extra = 7; ask_extra = 8 }

abbrev start : Sending
start = record { seq = 0; sent_total = 0 }

-- Two rounds, the second of which reaches the count of three in its first symbol.
abbrev exchange_turns : List (Turn fixed)
exchange_turns =
    record { stopped = false; draws = draw ∷ draw ∷ []; now = 400 }
    ∷ record { stopped = false; draws = draw ∷ draw ∷ []; now = 90_000_000 }
    ∷ []

abbrev sender : Sender fixed
sender = record { sending = start; symbols = symbols; next_due = 100 }

exchange_loop-Paced_example :
    Paced 1_000 100 (exchange_loop fixed 0 1_000 sender exchange_turns).pauses
exchange_loop-Paced_example = exchange_loop-Paced fixed 0 1_000 sender exchange_turns
