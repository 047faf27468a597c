-- ===== src/Host/Sizes.antt =====
-- `parse_size_kib` of crates/shmbus/src/cpu.rs on the sizes that the kernel prints.
use dummy_benchmark.Base.{
  ℕ, ◌<◌, ◌*◌, ◌%◌, ◌^◌, ◌≤◌, ◌≡◌, refl, false, none, some, [], ◌∷◌, ◌++◌, arith, u64_max, ◌==◌,
}
use dummy_benchmark.Text.{Text, is_whitespace, is_empty, trim, trim_start, trim_end, to_string}
use dummy_benchmark.Text.Decimal.{AreDigits, to_string-AreDigits, parse_usize-to_string}
use dummy_benchmark.Text.Cut.{strip_suffix, strip_suffix_last, parse_u64}
use dummy_benchmark.Host.{parse_size_kib}
use dummy_benchmark.Host.Fields.{IsBlank}

-- No character of the text is white space.
abbrev IsDark : Text → Type 0
IsDark [] = Unit
IsDark (c ∷ s) = (is_whitespace c ≡ false) × IsDark s

trim_start-dark : (c : ℕ) (s : Text) → is_whitespace c ≡ false → trim_start (c ∷ s) ≡ c ∷ s
unfolding trim_start
trim_start-dark c s h = rw h

trim_start-blank : (s : Text) → IsBlank s → trim_start s ≡ []
unfolding trim_start
trim_start-blank [] h = refl
trim_start-blank (c ∷ s) h = rw (h.0, trim_start-blank s h.1)

trim_end-blank : (s : Text) → IsBlank s → trim_end s ≡ []
unfolding trim_end is_empty
trim_end-blank [] h = refl
trim_end-blank (c ∷ s) h = rw (h.0, trim_end-blank s h.1)

trim_end-dark : (s gap : Text) → IsDark s → IsBlank gap → trim_end (s ++ gap) ≡ s
unfolding trim_end
trim_end-dark [] gap h b = trim_end-blank gap b
trim_end-dark (c ∷ s) gap h b = rw (h.0, trim_end-dark s gap h.1 b)

-- White space behind a text without any is trimmed.
trim-dark : (s gap : Text) → IsDark s → IsBlank gap → trim (s ++ gap) ≡ s
unfolding trim
trim-dark [] gap h b = rw (trim_start-blank gap b)
trim-dark (c ∷ s) gap h b = rw (trim_start-dark c (s ++ gap) h.0) (trim_end-dark (c ∷ s) gap h b)

digit-dark : (c : ℕ) → b'0' ≤ c → c ≤ b'9' → is_whitespace c ≡ false
unfolding is_whitespace
digit-dark c h k = ground arith

IsDark-digits : (s t : Text) → AreDigits s → IsDark t → IsDark (s ++ t)
IsDark-digits [] t h k = k
IsDark-digits (c ∷ s) t h k = (digit-dark c h.0 h.1, IsDark-digits s t h.2 k)

AreDigits-IsDark : (s : Text) → AreDigits s → IsDark s
AreDigits-IsDark [] h = tt
AreDigits-IsDark (c ∷ s) h = (digit-dark c h.0 h.1, AreDigits-IsDark s h.2)

-- A text of digits has no letter behind.
strip_suffix-digits : (l : ℕ) (s : Text) → b'9' < l → AreDigits s → strip_suffix l s ≡ none
unfolding strip_suffix
strip_suffix-digits l [] b h = refl
strip_suffix-digits l (c ∷ []) b h = ground arith
strip_suffix-digits l (c ∷ d ∷ s) b h = rw (strip_suffix-digits l (d ∷ s) b h.2)

parse_u64-to_string : (n : ℕ) → n ≤ u64_max → parse_u64 (to_string n) ≡ some n
unfolding parse_u64
parse_u64-to_string n h = rw (parse_u64, parse_usize-to_string n h)

letter_dark : (is_whitespace b'K' ≡ false) × (is_whitespace b'M' ≡ false)
unfolding is_whitespace
letter_dark = (refl, refl)

strip_suffix_other : (c d : ℕ) (s : Text) → (d == c) ≡ false → strip_suffix c (s ++ d ∷ []) ≡ none
unfolding strip_suffix
strip_suffix_other c d [] h = rw h
strip_suffix_other c d (x ∷ []) h = rw h
strip_suffix_other c d (x ∷ y ∷ s) h = rw (strip_suffix_other c d (y ∷ s) h)

module _ (n : ℕ) (fits : n ≤ u64_max) (gap : Text) (blank : IsBlank gap) where
  digits : AreDigits (to_string n)
  digits = to_string-AreDigits n

  trim-size : (t : Text) → IsDark t → trim ((to_string n ++ t) ++ gap) ≡ to_string n ++ t
  trim-size t h = trim-dark (to_string n ++ t) gap (IsDark-digits (to_string n) t digits h) blank

  parse_size_kib-kib : parse_size_kib ((to_string n ++ b'K' ∷ []) ++ gap) ≡ some n
  unfolding parse_size_kib
  parse_size_kib-kib =
      rw
        (
          parse_size_kib,
          trim-size (b'K' ∷ []) (letter_dark.0, tt),
          strip_suffix_last b'K' (to_string n),
        )
        (parse_u64-to_string n fits)

  parse_size_kib-mib : parse_size_kib ((to_string n ++ b'M' ∷ []) ++ gap) ≡ some (n * 1024 % 2 ^ 64)
  unfolding parse_size_kib
  parse_size_kib-mib = ground (
    arith,
    trim-size (b'M' ∷ []) (letter_dark.1, tt),
    strip_suffix_other b'K' b'M' (to_string n),
    strip_suffix_last b'M' (to_string n),
    parse_u64-to_string n fits,
  )

  parse_size_kib-plain : parse_size_kib (to_string n ++ gap) ≡ some n
  unfolding parse_size_kib
  parse_size_kib-plain = ground (
    arith,
    trim-dark (to_string n) gap dark blank,
    strip_suffix-digits b'K' (to_string n) (omega arith) digits,
    strip_suffix-digits b'M' (to_string n) (omega arith) digits,
    parse_u64-to_string n fits,
  )
    where
      dark : IsDark (to_string n)
      dark = AreDigits-IsDark (to_string n) digits

  -- A size that the kernel prints, with or without white space behind: `K` is kibibytes, `M` is
  -- mebibytes, whose product with 1024 wraps around, and no letter is the number itself.
  pub parse_size_kib-to_string :
      (parse_size_kib ((to_string n ++ b'K' ∷ []) ++ gap) ≡ some n)
      × (parse_size_kib ((to_string n ++ b'M' ∷ []) ++ gap) ≡ some (n * 1024 % 2 ^ 64))
      × (parse_size_kib (to_string n ++ gap) ≡ some n)
  parse_size_kib-to_string = (parse_size_kib-kib, parse_size_kib-mib, parse_size_kib-plain)
