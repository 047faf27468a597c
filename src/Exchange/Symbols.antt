-- ===== src/Exchange/Symbols.antt =====
-- The symbols of crates/mock-exchange/src/main.rs, as the other programs show them.
use dummy_benchmark.Base.{
  ℕ, ◌-◌, ◌≤◌, ◌≡◌, true, List, [], ◌∷◌, arith, length, length-append, length-replicate,
  length-take, take, replicate, min, All, map,
}
use dummy_benchmark.Base.Bytes.{Bytes, take_all}
use dummy_benchmark.Text.{Text, split, trim}
use dummy_benchmark.CpuList.{keep_nonempty}
use dummy_benchmark.Message.{symbol_len, is_utf8, symbol_str}
use dummy_benchmark.Message.Symbol.{HasNoNul, symbol_str-padded}
use dummy_benchmark.Exchange.{pack_symbol, symbol_names}

-- A packed symbol has eight bytes, whatever the name.
pub length-pack_symbol : (bytes : Bytes) → length (pack_symbol bytes) ≡ symbol_len
unfolding pack_symbol
length-pack_symbol bytes =
    let n = min (length bytes) symbol_len in
    omega (
      arith,
      length-append (take n bytes) (replicate (symbol_len - n) 0),
      length-take n bytes,
      length-replicate {A = ℕ} (symbol_len - n) 0,
    )

-- A name of at most eight bytes of UTF-8 without a NUL is shown by the other programs as it was
-- given.
pub symbol_str-pack_symbol :
    (bytes : Bytes)
    → HasNoNul bytes
    → length bytes ≤ symbol_len
    → is_utf8 bytes ≡ true
    → symbol_str (pack_symbol bytes) ≡ bytes
unfolding pack_symbol
symbol_str-pack_symbol bytes no_nul fits text =
    let n : min (length bytes) symbol_len ≡ length bytes = omega arith in
    rw (n, take_all bytes) (symbol_str-padded bytes no_nul fits text)

packed_length :
    (as_bytes : Text → Bytes) (pieces : List Text)
    → All (λ name. length name ≡ symbol_len) (map (λ s. pack_symbol (as_bytes (trim s))) pieces)
packed_length as_bytes [] = tt
packed_length as_bytes (s ∷ pieces) =
    (length-pack_symbol (as_bytes (trim s)), packed_length as_bytes pieces)

-- Every name that the command line gives fills its eight bytes.
pub symbol_names-length :
    (as_bytes : Text → Bytes) (arg : Text)
    → All (λ name. length name ≡ symbol_len) (symbol_names as_bytes arg)
unfolding symbol_names
symbol_names-length as_bytes arg = packed_length as_bytes (keep_nonempty (split b',' arg))
