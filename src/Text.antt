-- ===== src/Text.antt =====
-- The parts of Rust's `str` and `usize` that the program calls: `split`, `trim`, `split_once`,
-- `to_string` and `parse::<usize>`. A text is the list of its code points.
pub mod Decimal
pub mod Pieces
pub mod Cut
pub mod Words
use Prim.Native.Char.{code}
use Prim.Native.String.{String}
use dummy_benchmark.Base.{
  ℕ, zero, suc, ◌+◌, ◌-◌, ◌*◌, ◌/◌, ◌%◌, ◌^◌, ◌<◌, Bool, true, false, Option, none, some, List, [],
  ◌∷◌, ◌++◌, ◌&&◌, ◌||◌, leb, ltb, ◌==◌, if◌then◌else◌, arith, dec_lt, u64_max,
}
use dummy_benchmark.Base.Order.{lt_wf}
use mathlib.Core.Logic.{dite}
use mathlib.Core.WellFounded.{Acc, WellFounded}
use mathlib.Core.Option

abbrev pub Text : Type 0
Text = List ℕ

abbrev pub codes : String → Text
codes String.[] = []
codes (String.◌∷◌ c s) = code c ∷ codes s

-- `char::is_whitespace`: Unicode's White_Space
unfoldable pub is_whitespace : ℕ → Bool
is_whitespace c =
    (leb 0x09 c && leb c 0x0d)
    || (c == 0x20)
    || (c == 0x85)
    || (c == 0xa0)
    || (c == 0x1680)
    || (leb 0x2000 c && leb c 0x200a)
    || (c == 0x2028)
    || (c == 0x2029)
    || (c == 0x202f)
    || (c == 0x205f)
    || (c == 0x3000)

unfoldable pub is_empty : Text → Bool
is_empty [] = true
is_empty (c ∷ s) = false

unfoldable pub trim_start : Text → Text
trim_start [] = []
trim_start (c ∷ s) = let rest = trim_start s in if is_whitespace c then rest else c ∷ s

unfoldable pub trim_end : Text → Text
trim_end [] = []
trim_end (c ∷ s) =
    let rest = trim_end s in if is_whitespace c && is_empty rest then [] else c ∷ rest

unfoldable pub trim : Text → Text
unfolding trim_start trim_end is_whitespace is_empty
trim s = trim_end (trim_start s)

-- `s.split(sep)`: never empty.
abbrev pub put_front : ℕ → List Text → List Text
put_front c [] = (c ∷ []) ∷ []
put_front c (p ∷ ps) = (c ∷ p) ∷ ps

unfoldable pub split : ℕ → Text → List Text
split sep [] = [] ∷ []
split sep (c ∷ s) = let rest = split sep s in if c == sep then [] ∷ rest else put_front c rest

-- `s.split_once(sep)`
unfoldable pub split_once : ℕ → Text → Option (Text × Text)
split_once sep [] = none
split_once sep (c ∷ s) =
    let rest = Option.map (λ (p : Text × Text). (c ∷ p.0, p.1)) (split_once sep s) in
    if c == sep then some ([], s) else rest

pub data ParseIntError : Type 0 where
  empty invalid_digit pos_overflow : ParseIntError

pub data Result {ℓ κ} (E : Type ℓ) (A : Type κ) : Type (ℓ ⊔ κ) where
  ok : A → Result E A
  err : E → Result E A

infixl 5 ◌>>=◌
abbrev pub ◌>>=◌ {ℓ κ μ} :
    {E : Type ℓ} {A : Type κ} {B : Type μ} → Result E A → (A → Result E B) → Result E B
ok a >>= f = f a
err e >>= f = err e

-- The loop of `from_str_radix(_, 10)`: the digit is checked before the overflow.
unfoldable pub scan_digits : Text → ℕ → Result ParseIntError ℕ
scan_digits [] n = ok n
scan_digits (c ∷ s) n =
    let d = c - b'0' in
    let rest = scan_digits s (n * 10 + d) in
    if ltb c b'0' || ltb b'9' c
    then err invalid_digit
    else if ltb u64_max (n * 10 + d)
    then err pos_overflow
    else rest

-- `s.parse::<usize>()`: one leading `+` is allowed, if digits follow.
unfoldable pub parse_usize : Text → Result ParseIntError ℕ
unfolding scan_digits
parse_usize [] = err empty
parse_usize (c ∷ []) = scan_digits (c ∷ []) 0
parse_usize (c ∷ d ∷ s) = if c == b'+' then scan_digits (d ∷ s) 0 else scan_digits (c ∷ d ∷ s) 0

tenth_lt : {n : ℕ} → ¬ (n < 10) → n / 10 < n
tenth_lt h = omega arith

-- The decimal digits of `n` in front of `out`.
digits_acc : (n : ℕ) → Acc ◌<◌ n → Text → Text
digits_acc n (Acc.intro _ smaller) out =
    dite (dec_lt n 10) (λ _. (b'0' + n) ∷ out)
      (λ h. digits_acc (n / 10) (smaller (n / 10) (tenth_lt h)) ((b'0' + n % 10) ∷ out))

unfoldable pub to_string : ℕ → Text
unfolding digits_acc tenth_lt lt_wf dec_lt
to_string n = digits_acc n (lt_wf.apply n) []
