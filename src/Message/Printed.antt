-- ===== src/Message/Printed.antt =====
-- A printed tick or order of crates/shmbus/src/message.rs reads back.
use mathlib.Core.List.{append_assoc}
use dummy_benchmark.Base.{
  ℕ, ◌≤◌, ◌≡◌, Option, none, some, List, [], ◌∷◌, ◌++◌, refl, arith, u64_max, inl, inr,
  if◌then◌else◌, ◌==◌, Bool-cases,
}
use dummy_benchmark.Base.Int.{ℤ}
use dummy_benchmark.Base.Float.{Float, FloatText}
use dummy_benchmark.Text.{Text, codes, split, split_once, to_string}
use dummy_benchmark.Text.Decimal.{parse_usize-to_string}
use dummy_benchmark.Text.Cut.{text_eq, strip_prefix, strip_prefix-append, parse_u64}
use dummy_benchmark.Text.Words.{
  HasNo, HasNo-append, to_string-HasNo, joined, split-eq-joined, split_once-word,
}
use dummy_benchmark.Message.{MarketTick, OrderMsg, from_u8, symbol_str}
use dummy_benchmark.Message.Display.{side_name, price_text, display_tick, display_order}

infixl 5 ◌>>=◌
abbrev ◌>>=◌ : {A B : Type 0} → Option A → (A → Option B) → Option B
none >>= f = none
some a >>= f = f a

-- The number behind a key.
read_number : Text → Text → Option ℕ
read_number key word = strip_prefix key word >>= parse_u64

-- A size and the text of a price behind a key.
read_sized : Text → Text → Option (ℕ × Text)
read_sized key word = do
  rest ← strip_prefix key word
  parts ← split_once b'@' rest
  size ← parse_u64 parts.0
  some (size, parts.1)

-- The number of a printed side; 0 when none is known.
pub read_side : Text → Option ℕ
read_side text =
    if text_eq text (codes "BUY")
    then some 1
    else if text_eq text (codes "SELL")
    then some 2
    else if text_eq text (codes "?")
    then some 0
    else none

-- The numbers that stand for a side, and 0 for any other.
abbrev pub known_side : ℕ → ℕ
known_side b = if b == 1 then 1 else if b == 2 then 2 else 0

read_side-side_name : (b : ℕ) → read_side (side_name b) ≡ some (known_side b)
unfolding read_side side_name from_u8 text_eq
read_side-side_name b = elim (Bool-cases (b == 1)) [
  | inl buys ↦ rw (side_name, from_u8, buys) refl
  | inr other ↦ elim (Bool-cases (b == 2)) [
    | inl sells ↦ rw (side_name, from_u8, other, sells) refl
    | inr neither ↦ rw (side_name, from_u8, other, neither) refl
  ]
]

-- A printed order: the number of its side, its symbol, its quantity, the text of its price and its id.
pub record OrderLine : Type 0 where
  pub side : ℕ
  pub symbol : Text
  pub qty : ℕ
  pub px : Text
  pub order_id : ℕ

read_order_words : List Text → Option OrderLine
read_order_words (side ∷ symbol ∷ sized ∷ last ∷ []) = do
  kind ← read_side side
  s ← read_sized [] sized
  id ← read_number (codes "id=") last
  some (record { side = kind; symbol = symbol; qty = s.0; px = s.1; order_id = id })
read_order_words _ = none

pub read_order_line : Text → Option OrderLine
read_order_line line = read_order_words (split b' ' line)

-- A printed tick: its symbol, both sizes with the texts of their prices, and its sequence number.
pub record TickLine : Type 0 where
  pub symbol : Text
  pub bid : ℕ × Text
  pub ask : ℕ × Text
  pub seq : ℕ

read_tick_words : List Text → Option TickLine
read_tick_words (symbol ∷ bid ∷ ask ∷ last ∷ []) = do
  b ← read_sized (codes "bid=") bid
  a ← read_sized (codes "ask=") ask
  seq ← read_number (codes "seq=") last
  some (record { symbol = symbol; bid = b; ask = a; seq = seq })
read_tick_words _ = none

pub read_tick_line : Text → Option TickLine
read_tick_line line = read_tick_words (split b' ' line)

parse_u64-to_string : (n : ℕ) → n ≤ u64_max → parse_u64 (to_string n) ≡ some n
unfolding parse_u64
parse_u64-to_string n h = rw (parse_u64, parse_usize-to_string n h)

read_number-to_string :
    (key : Text) (n : ℕ) → n ≤ u64_max → read_number key (key ++ to_string n) ≡ some n
unfolding read_number
read_number-to_string key n h = rw (strip_prefix-append key (to_string n), parse_u64-to_string n h)

sized : Text → ℕ → Text → Text
sized key n price = key ++ (to_string n ++ b'@' ∷ price)

read_sized-sized :
    (key : Text) (n : ℕ) (price : Text)
    → n ≤ u64_max
    → read_sized key (sized key n price) ≡ some (n, price)
unfolding read_sized sized
read_sized-sized key n price h = rw (
  strip_prefix-append key (to_string n ++ b'@' ∷ price),
  split_once-word b'@' (to_string n) price (to_string-HasNo b'@' n (inr (omega arith))),
  parse_u64-to_string n h,
)

module _ (fl : Float) (show : FloatText fl.F)
    (prints : (x : fl.F) → HasNo b' ' (show.display x)) where
  sized-HasNo :
      (key : Text) (n : ℕ) (px : ℤ)
      → HasNo b' ' key
      → HasNo b' ' (sized key n (price_text fl show px))
  unfolding price_text sized
  sized-HasNo key n px h = HasNo-append b' ' key _ h (
      HasNo-append b' ' (to_string n) _ (to_string-HasNo b' ' n (inl (omega arith)))
        (omega arith, prints _))

  numbered-HasNo : (key : Text) (n : ℕ) → HasNo b' ' key → HasNo b' ' (key ++ to_string n)
  numbered-HasNo key n h = HasNo-append b' ' key _ h (to_string-HasNo b' ' n (inl (omega arith)))

  side_name-HasNo : (b : ℕ) → HasNo b' ' (side_name b)
  unfolding side_name from_u8
  side_name-HasNo b = ground arith

  order_words : OrderMsg → List Text
  unfolding sized
  order_words o =
      symbol_str o.symbol
      ∷ sized [] o.qty (price_text fl show o.px)
      ∷ (codes "id=" ++ to_string o.order_id)
      ∷ []

  split-display_order :
      (o : OrderMsg)
      → HasNo b' ' (symbol_str o.symbol)
      → split b' ' (display_order fl show o) ≡ side_name o.side ∷ order_words o
  unfolding display_order order_words joined
  split-display_order o one_word =
      split-eq-joined b' ' _ _ _ (simp append_assoc) (side_name-HasNo o.side) (
        one_word,
        (sized-HasNo [] o.qty o.px tt, (numbered-HasNo (codes "id=") o.order_id (omega arith), tt)),
      )

  -- The line that is printed for an order can be read back: BUY for side 1, SELL for side 2 and a question
  -- mark for any other, the symbol, the quantity, the price in micro-dollars divided by a million as `f64`
  -- prints it, and the id. The symbol has no space, and `f64` prints none.
  pub read_order_line-display_order :
      (o : OrderMsg)
      → HasNo b' ' (symbol_str o.symbol)
      → o.qty ≤ u64_max
      → o.order_id ≤ u64_max
      → read_order_line (display_order fl show o)
        ≡ some (record {
          side = known_side o.side;
          symbol = symbol_str o.symbol;
          qty = o.qty;
          px = show.display (fl.div (fl.of_i64 o.px) (fl.lit 1_000_000 1));
          order_id = o.order_id;
        })
  unfolding read_order_line read_order_words order_words price_text
  read_order_line-display_order o one_word qty_fits id_fits = rw (
    split-display_order o one_word,
    read_side-side_name o.side,
    read_sized-sized [] o.qty (price_text fl show o.px) qty_fits,
    read_number-to_string (codes "id=") o.order_id id_fits,
  )

  tick_words : MarketTick → List Text
  unfolding sized
  tick_words t =
      sized (codes "bid=") t.bid_sz (price_text fl show t.bid_px)
      ∷ sized (codes "ask=") t.ask_sz (price_text fl show t.ask_px)
      ∷ (codes "seq=" ++ to_string t.seq_num)
      ∷ []

  split-display_tick :
      (t : MarketTick)
      → HasNo b' ' (symbol_str t.symbol)
      → split b' ' (display_tick fl show t) ≡ symbol_str t.symbol ∷ tick_words t
  unfolding display_tick tick_words joined
  split-display_tick t one_word = split-eq-joined b' ' _ _ _ (simp append_assoc) one_word (
    sized-HasNo (codes "bid=") t.bid_sz t.bid_px (omega arith),
    (
      sized-HasNo (codes "ask=") t.ask_sz t.ask_px (omega arith),
      (numbered-HasNo (codes "seq=") t.seq_num (omega arith), tt),
    ),
  )

  -- The line that is printed for a tick tells its symbol, both sizes with the prices as `f64` prints
  -- them, and its sequence number, for a symbol that has no space; `f64` prints none.
  pub read_tick_line-display_tick :
      (t : MarketTick)
      → HasNo b' ' (symbol_str t.symbol)
      → t.bid_sz ≤ u64_max
      → t.ask_sz ≤ u64_max
      → t.seq_num ≤ u64_max
      → read_tick_line (display_tick fl show t)
        ≡ some (record {
          symbol = symbol_str t.symbol;
          bid = (t.bid_sz, show.display (fl.div (fl.of_i64 t.bid_px) (fl.lit 1_000_000 1)));
          ask = (t.ask_sz, show.display (fl.div (fl.of_i64 t.ask_px) (fl.lit 1_000_000 1)));
          seq = t.seq_num;
        })
  unfolding read_tick_line read_tick_words tick_words price_text
  read_tick_line-display_tick t one_word bid_fits ask_fits seq_fits = rw (
    split-display_tick t one_word,
    read_sized-sized (codes "bid=") t.bid_sz (price_text fl show t.bid_px) bid_fits,
    read_sized-sized (codes "ask=") t.ask_sz (price_text fl show t.ask_px) ask_fits,
    read_number-to_string (codes "seq=") t.seq_num seq_fits,
  )
