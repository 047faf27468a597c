-- ===== src/Text/Words.antt =====
-- Texts that are split at a character which their parts do not have.
use dummy_benchmark.Base.{
  ℕ, ◌<◌, ◌≡◌, ◌≢◌, refl, List, [], ◌∷◌, ◌++◌, All, ap, ◌∙◌, arith, ◌⊎◌, some,
}
use dummy_benchmark.Text.{Text, split, split_once, to_string}
use dummy_benchmark.Text.Decimal.{AreDigits, to_string-AreDigits}

abbrev pub HasNo : ℕ → Text → Type 0
HasNo c s = All (λ b. b ≢ c) s

pub HasNo-append : (c : ℕ) (s t : Text) → HasNo c s → HasNo c t → HasNo c (s ++ t)
HasNo-append c [] t hs ht = ht
HasNo-append c (b ∷ s) t hs ht = (hs.0, HasNo-append c s t hs.1 ht)

abbrev pub IsNoDigit : ℕ → Type 0
IsNoDigit c = (c < b'0') ⊎ (b'9' < c)

AreDigits-HasNo : (c : ℕ) (s : Text) → IsNoDigit c → AreDigits s → HasNo c s
AreDigits-HasNo c [] out h = tt
AreDigits-HasNo c (b ∷ s) out h = (ground arith, AreDigits-HasNo c s out h.2)

pub to_string-HasNo : (c n : ℕ) → IsNoDigit c → HasNo c (to_string n)
to_string-HasNo c n out = AreDigits-HasNo c (to_string n) out (to_string-AreDigits n)

pub split_once-word : (c : ℕ) (s t : Text) → HasNo c s → split_once c (s ++ c ∷ t) ≡ some (s, t)
unfolding split_once
split_once-word c [] t h = ground arith
split_once-word c (b ∷ s) t h = ground (arith, split_once-word c s t h.1)

-- The parts with the separator between them.
unfoldable pub joined : ℕ → Text → List Text → Text
joined c s [] = s
joined c s (t ∷ ts) = s ++ c ∷ joined c t ts

split-last_word : (c : ℕ) (s : Text) → HasNo c s → split c s ≡ s ∷ []
unfolding split
split-last_word c [] h = refl
split-last_word c (b ∷ s) h = ground (arith, split-last_word c s h.1)

split-word : (c : ℕ) (s t : Text) → HasNo c s → split c (s ++ c ∷ t) ≡ s ∷ split c t
unfolding split
split-word c [] t h = ground arith
split-word c (b ∷ s) t h = ground (arith, split-word c s t h.1)

pub split-joined :
    (c : ℕ) (s : Text) (ts : List Text)
    → HasNo c s
    → All (HasNo c) ts
    → split c (joined c s ts) ≡ s ∷ ts
unfolding joined
split-joined c s [] h hs = split-last_word c s h
split-joined c s (t ∷ ts) h hs =
    rw (split-word c s (joined c t ts) h, split-joined c t ts hs.0 hs.1)

pub split-eq-joined :
    (c : ℕ) (text s : Text) (ts : List Text)
    → text ≡ joined c s ts
    → HasNo c s
    → All (HasNo c) ts
    → split c text ≡ s ∷ ts
split-eq-joined c text s ts e h hs = ap (split c) e ∙ split-joined c s ts h hs
