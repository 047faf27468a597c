-- ===== src/Host/Fields.antt =====
-- `extract_after_colon` of crates/shmbus/src/cpu.rs: which lines it accepts.
use dummy_benchmark.Base.{
  ℕ, ◌≡◌, refl, ap, ◌↔◌, true, false, Option, none, some, [], ◌∷◌, ◌++◌, All, ◌==◌, arith,
  Bool-cases, inl, inr,
}
use dummy_benchmark.Text.{Text, is_whitespace, trim, trim_start}
use dummy_benchmark.Text.Cut.{strip_prefix, strip_prefix-append, strip_prefix-eq-some}
use dummy_benchmark.Host.{after_colon, extract_after_colon}

abbrev pub IsBlank : Text → Type 0
IsBlank s = All (λ (c : ℕ). is_whitespace c ≡ true) s

-- The text is white space, a colon, and what `value` is trimmed from.
pub record IsValue (s value : Text) : Type 0 where
  pub gap : Text
  pub rest : Text
  pub splits : s ≡ gap ++ b':' ∷ rest
  pub blank : IsBlank gap
  pub trimmed : value ≡ trim rest

colon_not_blank : is_whitespace b':' ≡ false
unfolding is_whitespace
colon_not_blank = refl

tab_blank : (c : ℕ) → is_whitespace c ≡ false → (c == 9) ≡ false
unfolding is_whitespace
tab_blank c h = ground arith

after_colon-IsValue : (s : Text) {value : Text} → after_colon s ≡ some value → IsValue s value
unfolding after_colon
after_colon-IsValue [] h = cc
after_colon-IsValue (c ∷ s) {value} h = elim (Bool-cases (c == b':')) [
  | inl colon ↦ record {
    gap = [];
    rest = s;
    splits = ground arith;
    blank = tt;
    trimmed = ground arith;
  }
  | inr other ↦ elim (Bool-cases (is_whitespace c)) [
    | inl blank ↦
        let v : IsValue s value = after_colon-IsValue s (ground arith) in
        record {
          gap = c ∷ v.gap;
          rest = v.rest;
          splits = ap (◌∷◌ c) v.splits;
          blank = (blank, v.blank);
          trimmed = v.trimmed;
        }
    | inr dark ↦ absurd (ground (arith, tab_blank c))
  ]
]

after_colon_blank :
    (gap rest : Text) → IsBlank gap → after_colon (gap ++ b':' ∷ rest) ≡ some (trim rest)
unfolding after_colon
after_colon_blank [] rest h = refl
after_colon_blank (c ∷ gap) rest h =
    ground (arith, after_colon_blank gap rest, colon_not_blank, h.0)

-- `value` is what `line` gives for `key`: white space, the key, white space, a colon, and then a text
-- that `value` is trimmed from.
pub record IsField (line key value : Text) : Type 0 where
  pub after_key : Text
  pub starts : trim_start line ≡ key ++ after_key
  pub value_of : IsValue after_key value

-- `extract_after_colon` finds a value exactly in the lines that hold the key, in front of them only
-- white space, and a colon behind it with only white space between; the value is the trimmed rest.
pub extract_after_colon-IsField :
    (line key value : Text) → (extract_after_colon line key ≡ some value) ↔ IsField line key value
unfolding extract_after_colon
extract_after_colon-IsField line key value = (there (strip_prefix key (trim_start line)) refl, back)
  where
    there :
        (o : Option Text)
        → strip_prefix key (trim_start line) ≡ o
        → extract_after_colon line key ≡ some value
        → IsField line key value
    there none e h = absurd (ground arith)
    there (some s) e h = record {
      after_key = s;
      starts = strip_prefix-eq-some key (trim_start line) e;
      value_of = after_colon-IsValue s (ground arith);
    }

    back : IsField line key value → extract_after_colon line key ≡ some value
    back f =
        let v = f.value_of in
        let found : after_colon f.after_key ≡ some value =
          rw (v.splits, after_colon_blank v.gap v.rest v.blank, v.trimmed) in
        ground (arith, f.starts, strip_prefix-append key f.after_key, found)
