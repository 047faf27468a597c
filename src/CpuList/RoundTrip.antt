-- ===== src/CpuList/RoundTrip.antt =====
-- `parse_cpu_list` of crates/shmbus/src/cpu.rs reads what `format_cpu_list` prints.
use dummy_benchmark.Base.{
  ℕ, zero, suc, ◌+◌, ◌-◌, ◌≤◌, ◌<◌, ◌≡◌, refl, ◌∙◌, ap, sym, false, List, [], ◌∷◌, ◌++◌, map,
  length, arith, u64_max,
}
use mathlib.Core.List.{append-nil, append_assoc}
use dummy_benchmark.Text.{Text, ok, err, to_string, is_empty, trim, split}
use dummy_benchmark.Text.Pieces.{IsPlain, trim-plain, split-first, split-last}
use dummy_benchmark.CpuList.{
  CpuListError, invalid_range, count_up, parse_part, keep_nonempty, cpu_parts, parse_parts,
  parse_cpu_list, sort, dedup, run_end, show_run, format_runs, format_cpu_list,
}
use dummy_benchmark.CpuList.Sorted.{
  AreIndices, contains, dedup-sort-IsClimbing, contains-dedup-sort,
}
use dummy_benchmark.CpuList.Runs.{
  parse_part-inverted, range_text-IsPart, IsClimbing, run_end-IsRun, show_run-IsPlain,
  show_run-ne-nil, parse_part-show_run,
}

-- The runs of a list as they are printed.
run_texts : ℕ → List ℕ → List Text
run_texts fuel [] = []
run_texts zero (x ∷ xs) = []
run_texts (suc fuel) (x ∷ xs) = show_run x (run_end x xs).0 ∷ run_texts fuel (run_end x xs).1

abbrev after_comma : List Text → Text
after_comma [] = []
after_comma (p ∷ ps) = b',' ∷ (p ++ after_comma ps)

abbrev joined : List Text → Text
joined [] = []
joined (p ∷ ps) = p ++ after_comma ps

abbrev AreParts : List Text → Type 0
AreParts [] = Unit
AreParts (p ∷ ps) = IsPlain p × (is_empty p ≡ false) × AreParts ps

run_texts-AreParts : (fuel : ℕ) (xs : List ℕ) → AreParts (run_texts fuel xs)
unfolding run_texts
run_texts-AreParts zero [] = tt
run_texts-AreParts (suc fuel) [] = tt
run_texts-AreParts zero (x ∷ xs) = tt
run_texts-AreParts (suc fuel) (x ∷ xs) = (
  show_run-IsPlain x (run_end x xs).0,
  show_run-ne-nil x (run_end x xs).0,
  run_texts-AreParts fuel (run_end x xs).1,
)

is_empty-append : (s t : Text) → is_empty s ≡ false → is_empty (s ++ t) ≡ false
unfolding is_empty
is_empty-append [] t h = cc
is_empty-append (c ∷ s) t h = refl

format_runs-step :
    (fuel x : ℕ) (xs : List ℕ) (out : Text)
    → is_empty out ≡ false
    → format_runs (suc fuel) (x ∷ xs) out
      ≡ format_runs fuel (run_end x xs).1 (out ++ (b',' ∷ show_run x (run_end x xs).0))
unfolding format_runs
format_runs-step fuel x xs out h = rw (h, format_runs)

format_runs-more :
    (fuel : ℕ) (xs : List ℕ) (out : Text)
    → is_empty out ≡ false
    → format_runs fuel xs out ≡ out ++ after_comma (run_texts fuel xs)
unfolding run_texts
format_runs-more zero [] out h = unfold format_runs in sym (append-nil out)
format_runs-more (suc fuel) [] out h = unfold format_runs in sym (append-nil out)
format_runs-more zero (x ∷ xs) out h = unfold format_runs in sym (append-nil out)
format_runs-more (suc fuel) (x ∷ xs) out h =
    format_runs-step fuel x xs out h
    ∙ (format_runs-more fuel (run_end x xs).1 (out ++ (b',' ∷ show_run x (run_end x xs).0))
          (is_empty-append out (b',' ∷ show_run x (run_end x xs).0) h)
        ∙ append_assoc out (b',' ∷ show_run x (run_end x xs).0)
            (after_comma (run_texts fuel (run_end x xs).1)))

format_runs-joined : (fuel : ℕ) (xs : List ℕ) → format_runs fuel xs [] ≡ joined (run_texts fuel xs)
unfolding format_runs run_texts is_empty
format_runs-joined zero [] = refl
format_runs-joined (suc fuel) [] = refl
format_runs-joined zero (x ∷ xs) = refl
format_runs-joined (suc fuel) (x ∷ xs) =
    format_runs-more fuel (run_end x xs).1 (show_run x (run_end x xs).0)
      (show_run-ne-nil x (run_end x xs).0)

-- Joined parts come apart at the commas, and no trimming or dropping touches them.
split-joined :
    (p : Text) (ps : List Text) → AreParts (p ∷ ps) → split b',' (joined (p ∷ ps)) ≡ p ∷ ps
split-joined p [] h = rw append-nil (split-last p h.0)
split-joined p (q ∷ ps) h =
    split-first p (joined (q ∷ ps)) h.0 ∙ ap (λ t. p ∷ t) (split-joined q ps h.2)

keep_nonempty-parts : (ps : List Text) → AreParts ps → keep_nonempty (map trim ps) ≡ ps
unfolding keep_nonempty
keep_nonempty-parts [] h = refl
keep_nonempty-parts (p ∷ ps) h = rw (trim-plain p h.0, h.1, keep_nonempty-parts ps h.2)

cpu_parts-nil : cpu_parts [] ≡ []
unfolding cpu_parts split trim keep_nonempty
cpu_parts-nil = refl

cpu_parts-joined : (ps : List Text) → AreParts ps → cpu_parts (joined ps) ≡ ps
unfolding cpu_parts
cpu_parts-joined [] h = cpu_parts-nil
cpu_parts-joined (p ∷ ps) h = rw (split-joined p ps h) (keep_nonempty-parts (p ∷ ps) h)

-- The parts of a climbing list read back as the list.
parse_parts-run_texts :
    (fuel : ℕ) (xs out : List ℕ)
    → IsClimbing xs
    → length xs ≤ fuel
    → parse_parts (run_texts fuel xs) out ≡ ok (out ++ xs)
unfolding parse_parts run_texts
parse_parts-run_texts zero [] out h k = rw append-nil
parse_parts-run_texts (suc fuel) [] out h k = rw append-nil
parse_parts-run_texts zero (x ∷ xs) out h k = absurd (omega arith)
parse_parts-run_texts (suc fuel) (x ∷ xs) out h k =
    let r = run_end-IsRun x xs h in
    let last = (run_end x xs).0 in
    let rest = (run_end x xs).1 in
    rw (parse_part-show_run x last r.upward r.bound, parse_parts)
      (parse_parts-run_texts fuel rest (out ++ count_up x (last + 1 - x)) r.climbing
          (omega (arith, r.shorter))
        ∙ ap ok
            (append_assoc out (count_up x (last + 1 - x)) rest ∙ ap (λ t. out ++ t) (sym r.covers)))

-- What is printed for a climbing list reads back as the list.
parse-format_runs :
    (fuel : ℕ) (xs : List ℕ)
    → IsClimbing xs
    → length xs ≤ fuel
    → parse_cpu_list (format_runs fuel xs []) ≡ ok xs
unfolding parse_cpu_list
parse-format_runs fuel xs h k =
    rw
      (
        format_runs-joined fuel xs,
        cpu_parts-joined (run_texts fuel xs) (run_texts-AreParts fuel xs),
      )
      (parse_parts-run_texts fuel xs [] h k)

-- What `format_cpu_list` prints, `parse_cpu_list` reads back as the same indices, each once and in
-- ascending order.
pub parse_cpu_list-format_cpu_list :
    (cpus : List ℕ)
    → AreIndices cpus
    → (xs : List ℕ) × (parse_cpu_list (format_cpu_list cpus) ≡ ok xs)
      × IsClimbing xs
      × ((c : ℕ) → contains c xs ≡ contains c cpus)
unfolding format_cpu_list
parse_cpu_list-format_cpu_list cpus h =
    let climbs = dedup-sort-IsClimbing cpus h in
    (
      dedup (sort cpus),
      parse-format_runs (length (dedup (sort cpus))) (dedup (sort cpus)) climbs (omega arith),
      climbs,
      λ c. contains-dedup-sort c cpus,
    )

parse_one :
    (p : Text) {e : CpuListError}
    → IsPlain p × (is_empty p ≡ false)
    → parse_part p ≡ err e
    → parse_cpu_list p ≡ err e
unfolding parse_cpu_list
parse_one p h refused =
    rw (rw append-nil at (cpu_parts-joined (p ∷ []) (h.0, h.1, tt))) (rw (refused, parse_parts))

-- A range whose end is below its start is refused, with both numbers.
pub parse_cpu_list_inverted :
    (lo hi : ℕ)
    → lo ≤ u64_max
    → hi < lo
    → parse_cpu_list (to_string lo ++ b'-' ∷ to_string hi) ≡ err (invalid_range lo hi)
parse_cpu_list_inverted lo hi h k =
    parse_one (to_string lo ++ b'-' ∷ to_string hi) (range_text-IsPart lo hi)
      (parse_part-inverted lo hi h k)
