-- ===== src/Text/Pieces.antt =====
-- Splitting and trimming texts of digits and dashes.
use dummy_benchmark.Base.{
  ℕ, ◌≤◌, ◌≡◌, refl, ◌⊎◌, inl, inr, false, none, some, [], ◌∷◌, ◌++◌, arith, ◌==◌,
}
use dummy_benchmark.Text.{Text, is_whitespace, trim_start, trim_end, trim, split, split_once}
use dummy_benchmark.Text.Decimal.{AreDigits}

-- Digits and dashes.
abbrev pub IsPlainChar : ℕ → Type 0
IsPlainChar c = (c ≡ b'-') ⊎ ((b'0' ≤ c) × (c ≤ b'9'))

abbrev pub IsPlain : Text → Type 0
IsPlain [] = Unit
IsPlain (c ∷ s) = IsPlainChar c × IsPlain s

pub AreDigits-IsPlain : (s : Text) → AreDigits s → IsPlain s
AreDigits-IsPlain [] h = tt
AreDigits-IsPlain (c ∷ s) h = (inr (h.0, h.1), AreDigits-IsPlain s h.2)

pub IsPlain-append : (s t : Text) → IsPlain s → IsPlain t → IsPlain (s ++ t)
IsPlain-append [] t hs ht = ht
IsPlain-append (c ∷ s) t hs ht = (hs.0, IsPlain-append s t hs.1 ht)

IsPlainChar-not_space : (c : ℕ) → IsPlainChar c → is_whitespace c ≡ false
unfolding is_whitespace
IsPlainChar-not_space c (inl e) = ground arith
IsPlainChar-not_space c (inr h) = ground arith

trim_start-plain : (s : Text) → IsPlain s → trim_start s ≡ s
unfolding trim_start
trim_start-plain [] h = refl
trim_start-plain (c ∷ s) h = rw (IsPlainChar-not_space c h.0)

trim_end-plain : (s : Text) → IsPlain s → trim_end s ≡ s
unfolding trim_end
trim_end-plain [] h = refl
trim_end-plain (c ∷ s) h = rw (IsPlainChar-not_space c h.0, trim_end-plain s h.1)

pub trim-plain : (s : Text) → IsPlain s → trim s ≡ s
unfolding trim
trim-plain s h = rw (trim_start-plain s h, trim_end-plain s h)

IsPlainChar-not_comma : (c : ℕ) → IsPlainChar c → (c == b',') ≡ false
IsPlainChar-not_comma c (inl e) = ground arith
IsPlainChar-not_comma c (inr h) = ground arith

pub split-last : (s : Text) → IsPlain s → split b',' s ≡ s ∷ []
unfolding split
split-last [] h = refl
split-last (c ∷ s) h = rw (IsPlainChar-not_comma c h.0, split-last s h.1)

pub split-first : (s t : Text) → IsPlain s → split b',' (s ++ b',' ∷ t) ≡ s ∷ split b',' t
unfolding split
split-first [] t h = refl
split-first (c ∷ s) t h = rw (IsPlainChar-not_comma c h.0, split-first s t h.1)

pub split_once-digits : (s t : Text) → AreDigits s → split_once b'-' (s ++ b'-' ∷ t) ≡ some (s, t)
unfolding split_once
split_once-digits [] t h = refl
split_once-digits (c ∷ s) t h = rw (digit, split_once-digits s t h.2)
  where
    digit : (c == b'-') ≡ false
    digit = ground arith

pub split_once-none : (s : Text) → AreDigits s → split_once b'-' s ≡ none
unfolding split_once
split_once-none [] h = refl
split_once-none (c ∷ s) h = rw (digit, split_once-none s h.2)
  where
    digit : (c == b'-') ≡ false
    digit = ground arith
