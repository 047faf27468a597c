-- ===== src/Host/CpuScan.antt =====
-- What the loop over /proc/cpuinfo in crates/shmbus/src/cpu.rs finds.
use dummy_benchmark.Base.{
  ◌≡◌, refl, ◌∙◌, sym, true, false, Option, none, some, List, [], ◌∷◌, if◌then◌else◌, arith,
  if_elim,
}
use dummy_benchmark.Base.Float.{Float}
use dummy_benchmark.Text.{Text, codes, is_empty}
use dummy_benchmark.Host.{extract_after_colon}
use dummy_benchmark.Host.CpuFile.{
  take_text, is_zero, take_number, Fields, no_fields, take_line, is_complete, scan_lines,
}

-- The first value of `key` that is not empty, over all lines.
abbrev pub first_text : Text → List Text → Text
first_text key [] = []
first_text key (line ∷ ls) = elim (extract_after_colon line key) [
  | none ↦ first_text key ls
  | some v ↦ if is_empty v then first_text key ls else v
]

-- A field that holds `have` before the lines.
abbrev filled : Text → List Text → Text → Text
filled key ls have = if is_empty have then first_text key ls else have

filled-take_text :
    (key line : Text) (ls : List Text) (have : Text)
    → filled key ls (take_text key line have) ≡ filled key (line ∷ ls) have
unfolding take_text is_empty
filled-take_text key line ls [] = ground arith
filled-take_text key line ls (c ∷ s) = refl

filled_none : (key have : Text) → filled key [] have ≡ have
unfolding is_empty
filled_none key [] = refl
filled_none key (c ∷ s) = refl

-- `parse_f64` is `parse::<f64>` of the standard library, `none` on an error.
module _ (fl : Float) (parse_f64 : Text → Option fl.F) where
  open fl use {F, lit, lt}

  -- A positive number is not zero.
  abbrev pub SeparatesZero : Type 0
  SeparatesZero = (x : F) → lt (lit 0 1) x ≡ true → is_zero fl parse_f64 x ≡ false

  -- The field as it is after all the lines.
  abbrev pub last_number : List Text → F → F
  last_number [] x = x
  last_number (line ∷ ls) x = last_number ls (take_number fl parse_f64 line x)

  last_number-nonzero :
      (ls : List Text) (x : F) → is_zero fl parse_f64 x ≡ false → last_number ls x ≡ x
  unfolding take_number
  last_number-nonzero [] x h = refl
  last_number-nonzero (line ∷ ls) x h = rw h (last_number-nonzero ls x h)

  -- What the lines leave of the fields `f`, each by itself and with no `break`.
  record IsFilled (ls : List Text) (f r : Fields fl parse_f64) : Type 0 where
    vendor_is : r.vendor ≡ filled (codes "vendor_id") ls f.vendor
    model_is : r.model ≡ filled (codes "model name") ls f.model
    microcode_is : r.microcode ≡ filled (codes "microcode") ls f.microcode
    number_is : r.cpu_mhz_nominal ≡ last_number ls f.cpu_mhz_nominal

  module _ (zero_apart : SeparatesZero) where
    complete-IsFilled :
        (ls : List Text) (f : Fields fl parse_f64)
        → is_complete fl parse_f64 f ≡ true
        → IsFilled ls f f
    unfolding is_complete
    complete-IsFilled ls f h = record {
      vendor_is = ground arith;
      model_is = ground arith;
      microcode_is = ground arith;
      number_is =
          sym (
            last_number-nonzero ls f.cpu_mhz_nominal (zero_apart f.cpu_mhz_nominal (ground arith)));
    }

    step-IsFilled :
        (line : Text) (ls : List Text) (f r : Fields fl parse_f64)
        → IsFilled ls (take_line fl parse_f64 line f) r
        → IsFilled (line ∷ ls) f r
    unfolding take_line
    step-IsFilled line ls f r h = record {
      vendor_is = h.vendor_is ∙ filled-take_text (codes "vendor_id") line ls f.vendor;
      model_is = h.model_is ∙ filled-take_text (codes "model name") line ls f.model;
      microcode_is = h.microcode_is ∙ filled-take_text (codes "microcode") line ls f.microcode;
      number_is = h.number_is;
    }

    scan_lines-IsFilled :
        (ls : List Text) (f : Fields fl parse_f64) → IsFilled ls f (scan_lines fl parse_f64 ls f)
    unfolding scan_lines
    scan_lines-IsFilled [] f = record {
      vendor_is = sym (filled_none (codes "vendor_id") f.vendor);
      model_is = sym (filled_none (codes "model name") f.model);
      microcode_is = sym (filled_none (codes "microcode") f.microcode);
      number_is = refl;
    }
    scan_lines-IsFilled (line ∷ ls) f =
        let f' = take_line fl parse_f64 line f in
        step-IsFilled line ls f (scan_lines fl parse_f64 (line ∷ ls) f) (
          if_elim (IsFilled ls f') (is_complete fl parse_f64 f') (complete-IsFilled ls f')
            (λ _. scan_lines-IsFilled ls f'))

    -- The early end of the loop over /proc/cpuinfo loses nothing: each text field is the first value
    -- of its key that is not empty among all the lines, and the frequency is what all the lines
    -- would leave. The comparison of floats must tell positive numbers from zero.
    pub scan_lines-first_text :
        (ls : List Text)
        → let f = scan_lines fl parse_f64 ls (no_fields fl parse_f64) in
          (f.vendor ≡ first_text (codes "vendor_id") ls)
          × (f.model ≡ first_text (codes "model name") ls)
          × (f.microcode ≡ first_text (codes "microcode") ls)
          × (f.cpu_mhz_nominal ≡ last_number ls (lit 0 1))
    unfolding is_empty
    scan_lines-first_text ls =
        let r = scan_lines-IsFilled ls (no_fields fl parse_f64) in
        (r.vendor_is, r.model_is, r.microcode_is, r.number_is)
