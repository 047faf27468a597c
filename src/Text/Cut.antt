-- ===== src/Text/Cut.antt =====
-- More of Rust's `str`: `lines`, `strip_prefix`, `strip_suffix`, `==` and the order of `String`, and
-- `parse::<u32>` as far as `ok()` and `unwrap_or` tell it from `parse::<usize>`.
use mathlib.Core.Option
use dummy_benchmark.Base.{
  ℕ, ◌^◌, ◌≡◌, refl, Bool, true, false, Option, none, some, List, [], ◌∷◌, ◌++◌, ◌&&◌, ltb, ◌==◌,
  if◌then◌else◌, arith,
}
use dummy_benchmark.Text.{Text, ok, err, put_front, parse_usize}

unfoldable pub starts_with_newline : Text → Bool
starts_with_newline [] = false
starts_with_newline (c ∷ s) = c == 10

-- `s.lines()`: a line feed ends a line, with one carriage return before it.
unfoldable pub lines : Text → List Text
unfolding starts_with_newline
lines [] = []
lines (c ∷ s) =
    let rest = lines s in
    if c == 10
    then [] ∷ rest
    else if c == 13 && starts_with_newline s
    then rest
    else put_front c rest

unfoldable pub strip_prefix : Text → Text → Option Text
strip_prefix [] s = some s
strip_prefix (k ∷ key) [] = none
strip_prefix (k ∷ key) (c ∷ s) = let rest = strip_prefix key s in if k == c then rest else none

-- `s.strip_suffix(c)` for a character `c`
unfoldable pub strip_suffix : ℕ → Text → Option Text
strip_suffix c [] = none
strip_suffix c (x ∷ []) = if x == c then some [] else none
strip_suffix c (x ∷ y ∷ s) = Option.map (λ (r : Text). x ∷ r) (strip_suffix c (y ∷ s))

unfoldable pub text_eq : Text → Text → Bool
text_eq [] [] = true
text_eq [] (c ∷ s) = false
text_eq (c ∷ s) [] = false
text_eq (c ∷ s) (d ∷ t) = (c == d) && text_eq s t

-- `s <= t`: the order of the bytes of UTF-8 is that of the code points.
unfoldable pub text_le : Text → Text → Bool
text_le [] t = true
text_le (c ∷ s) [] = false
text_le (c ∷ s) (d ∷ t) = let rest = text_le s t in if c == d then rest else ltb c d

-- `s.parse::<u64>().ok()`: `u64` and `usize` are the same words.
unfoldable pub parse_u64 : Text → Option ℕ
parse_u64 s = elim (parse_usize s) [ ok n ↦ some n | err e ↦ none ]

-- `s.parse::<u32>().ok()`
unfoldable pub parse_u32 : Text → Option ℕ
unfolding parse_u64
parse_u32 s = elim (parse_u64 s) [ none ↦ none | some n ↦ if ltb n (2 ^ 32) then some n else none ]

pub strip_prefix-append : (key s : Text) → strip_prefix key (key ++ s) ≡ some s
unfolding strip_prefix
strip_prefix-append [] s = refl
strip_prefix-append (k ∷ key) s = ground (arith, strip_prefix-append key s)

pub strip_prefix-eq-some : (key s : Text) {r : Text} → strip_prefix key s ≡ some r → s ≡ key ++ r
unfolding strip_prefix
strip_prefix-eq-some [] s h = cc
strip_prefix-eq-some (k ∷ key) [] h = cc
strip_prefix-eq-some (k ∷ key) (c ∷ s) {r} h = ground (arith, strip_prefix-eq-some key s {r = r})

pub strip_suffix_last : (c : ℕ) (s : Text) → strip_suffix c (s ++ c ∷ []) ≡ some s
unfolding strip_suffix
strip_suffix_last c [] = ground arith
strip_suffix_last c (x ∷ []) = ground (arith, strip_suffix_last c [])
strip_suffix_last c (x ∷ y ∷ s) = rw (strip_suffix_last c (y ∷ s))

pub text_le_total : (s t : Text) → text_le s t ≡ false → text_le t s ≡ true
unfolding text_le
text_le_total [] t h = cc
text_le_total (c ∷ s) [] h = refl
text_le_total (c ∷ s) (d ∷ t) h = ground (arith, text_le_total s t)
