-- ===== src/Text/Decimal.antt =====
-- A printed `usize` reads back.
use dummy_benchmark.Base.{
  ℕ, ◌+◌, ◌-◌, ◌*◌, ◌/◌, ◌%◌, ◌≤◌, ◌<◌, ◌≡◌, refl, ◌∙◌, ap, false, [], ◌∷◌, arith, dec_lt, u64_max,
  ◌==◌, ◌≢◌,
}
use dummy_benchmark.Base.Order.{lt_wf}
use native.Mathlib.Bridge.{le_prop}
use mathlib.Core.Logic.{dif_pos, dif_neg}
use mathlib.Core.WellFounded.{Acc}
use dummy_benchmark.Text.{Text, ok, scan_digits, parse_usize, digits_acc, tenth_lt, to_string}

abbrev pub AreDigits : Text → Type 0
AreDigits [] = Unit
AreDigits (c ∷ s) = (b'0' ≤ c) × (c ≤ b'9') × AreDigits s

scan_digit :
    (d k : ℕ) (s : Text)
    → d < 10
    → k * 10 + d ≤ u64_max
    → scan_digits ((b'0' + d) ∷ s) k ≡ scan_digits s (k * 10 + d)
unfolding scan_digits
scan_digit d k s h fits = rw same (ground arith)
  where
    same : b'0' + d - b'0' ≡ d
    same = omega arith

-- Reading the digits of `n` and then the rest is reading the rest from `n`.
scan-digits_acc :
    (n : ℕ) (w : Acc ◌<◌ n) (out : Text)
    → n ≤ u64_max
    → scan_digits (digits_acc n w out) 0 ≡ scan_digits out n
unfolding digits_acc
scan-digits_acc n (Acc.intro _ smaller) out h = elim (dec_lt n 10) [
  | yes small ↦
      rw (dif_pos _ le_prop small)
        (scan_digit n 0 out small (omega arith) ∙ ap (scan_digits out) (omega arith))
  | no large ↦ rw (dif_neg _ large) (
      scan-digits_acc (n / 10) (smaller (n / 10) (tenth_lt large)) ((b'0' + n % 10) ∷ out)
        (omega arith)
      ∙ (scan_digit (n % 10) (n / 10) out (omega arith) (omega arith)
          ∙ ap (scan_digits out) (omega arith)))
]

-- What is printed is digits, at least one.
digits_acc-AreDigits :
    (n : ℕ) (w : Acc ◌<◌ n) (out : Text) → AreDigits out → AreDigits (digits_acc n w out)
unfolding digits_acc
digits_acc-AreDigits n (Acc.intro _ smaller) out h = elim (dec_lt n 10) [
  | yes small ↦ rw (dif_pos _ le_prop small) (omega arith, omega arith, h)
  | no large ↦ rw (dif_neg _ large) (
      digits_acc-AreDigits (n / 10) (smaller (n / 10) (tenth_lt large)) ((b'0' + n % 10) ∷ out)
        (omega arith, omega arith, h))
]

digits_acc-ne-nil : (n : ℕ) (w : Acc ◌<◌ n) (out : Text) → digits_acc n w out ≢ []
unfolding digits_acc
digits_acc-ne-nil n (Acc.intro _ smaller) out = elim (dec_lt n 10) [
  | yes small ↦ rw (dif_pos _ le_prop small) (λ e. cc)
  | no large ↦
      rw (dif_neg _ large)
        (digits_acc-ne-nil (n / 10) (smaller (n / 10) (tenth_lt large)) ((b'0' + n % 10) ∷ out))
]

pub to_string-AreDigits : (n : ℕ) → AreDigits (to_string n)
unfolding to_string
to_string-AreDigits n = digits_acc-AreDigits n (lt_wf.apply n) [] tt

pub to_string-ne-nil : (n : ℕ) → to_string n ≢ []
unfolding to_string
to_string-ne-nil n = digits_acc-ne-nil n (lt_wf.apply n) []

parse_usize-digits : (s : Text) → AreDigits s → s ≢ [] → parse_usize s ≡ scan_digits s 0
unfolding parse_usize
parse_usize-digits [] h ne = absurd (ne refl)
parse_usize-digits (c ∷ []) h ne = refl
parse_usize-digits (c ∷ d ∷ s) h ne = rw sign
  where
    sign : (c == b'+') ≡ false
    sign = ground arith

scan_digits-to_string : (n : ℕ) → n ≤ u64_max → scan_digits (to_string n) 0 ≡ ok n
unfolding to_string scan_digits
scan_digits-to_string n h = scan-digits_acc n (lt_wf.apply n) [] h

-- A `usize` that is printed reads back.
pub parse_usize-to_string : (n : ℕ) → n ≤ u64_max → parse_usize (to_string n) ≡ ok n
parse_usize-to_string n h =
    parse_usize-digits (to_string n) (to_string-AreDigits n) (to_string-ne-nil n)
    ∙ scan_digits-to_string n h
