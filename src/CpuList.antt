-- ===== src/CpuList.antt =====
-- crates/shmbus/src/cpu.rs, `parse_cpu_list` and `format_cpu_list`: Linux CPU lists.
pub mod Runs
pub mod Sorted
pub mod RoundTrip
mod Tests
use dummy_benchmark.Base.{
  ℕ, zero, suc, ◌+◌, ◌-◌, Bool, List, [], ◌∷◌, ◌++◌, map, length, leb, ltb, ◌==◌, if◌then◌else◌,
  Option, none, some, add64, not,
}
use dummy_benchmark.Text.{
  Text, Result, ok, err, ◌>>=◌, ParseIntError, parse_usize, is_empty, trim, split, split_once,
  to_string,
}

-- The `String` errors of `parse_cpu_list`, before they are rendered.
pub data CpuListError : Type 0 where
  bad_number : ParseIntError → CpuListError
  invalid_range : (lo hi : ℕ) → CpuListError

-- `s.parse::<usize>().map_err(stringify_err)`
unfoldable pub parse_index : Text → Result CpuListError ℕ
parse_index s = elim (parse_usize s) [ ok n ↦ ok n | err e ↦ err (bad_number e) ]

-- `n` numbers from `lo` on.
unfoldable pub count_up : ℕ → ℕ → List ℕ
count_up lo zero = []
count_up lo (suc n) = lo ∷ count_up (lo + 1) n

-- What one part of the list adds to `out`.
unfoldable pub parse_part : Text → Result CpuListError (List ℕ)
unfolding parse_index
parse_part part = elim (split_once b'-' part) [
  | some p ↦ do
    lo ← parse_index (trim p.0)
    hi ← parse_index (trim p.1)
    if ltb hi lo then err (invalid_range lo hi) else ok (count_up lo (hi + 1 - lo))
  | none ↦ do n ← parse_index part; ok (n ∷ [])
]

-- `s.split(',').map(str::trim).filter(|p| !p.is_empty())`
unfoldable pub keep_nonempty : List Text → List Text
keep_nonempty [] = []
keep_nonempty (p ∷ ps) = let rest = keep_nonempty ps in if is_empty p then rest else p ∷ rest

unfoldable pub cpu_parts : Text → List Text
unfolding keep_nonempty
cpu_parts s = keep_nonempty (map trim (split b',' s))

-- The `for` loop, with `out` as it grows.
unfoldable pub parse_parts : List Text → List ℕ → Result CpuListError (List ℕ)
parse_parts [] out = ok out
parse_parts (p ∷ ps) out = elim (parse_part p) [
  | ok xs ↦ parse_parts ps (out ++ xs)
  | err e ↦ err e
]

unfoldable pub parse_cpu_list : Text → Result CpuListError (List ℕ)
unfolding parse_parts cpu_parts
parse_cpu_list s = parse_parts (cpu_parts s) []

-- `sort_unstable` and `dedup`
unfoldable pub insert : ℕ → List ℕ → List ℕ
insert x [] = x ∷ []
insert x (y ∷ ys) = if leb x y then x ∷ y ∷ ys else y ∷ insert x ys

unfoldable pub sort : List ℕ → List ℕ
unfolding insert
sort [] = []
sort (x ∷ xs) = insert x (sort xs)

-- The elements after one that is equal to `x` go.
unfoldable pub dedup_from : ℕ → List ℕ → List ℕ
dedup_from x [] = []
dedup_from x (y ∷ ys) = let rest = dedup_from y ys in if x == y then rest else y ∷ rest

unfoldable pub dedup : List ℕ → List ℕ
unfolding dedup_from
dedup [] = []
dedup (x ∷ xs) = x ∷ dedup_from x xs

-- The inner loop: `x` is `sorted[j]`, the list is what follows it. The result is the last element of
-- the run and what follows that.
unfoldable pub run_end : ℕ → List ℕ → ℕ × List ℕ
run_end x [] = (x, [])
run_end x (y ∷ ys) = let rest = run_end y ys in if y == add64 x 1 then rest else (x, y ∷ ys)

-- A run as it is printed. `i == j` is asked of the indices, so of the first and last element.
unfoldable pub show_run : ℕ → ℕ → Text
show_run start last =
    if start == last then to_string start else to_string start ++ b'-' ∷ to_string last

-- The outer loop over what is left of `sorted`. Each round takes an element, so the length of the
-- list is fuel enough.
unfoldable pub format_runs : ℕ → List ℕ → Text → Text
format_runs fuel [] out = out
format_runs zero (x ∷ xs) out = out
format_runs (suc fuel) (x ∷ xs) out =
    let r = run_end x xs in
    let comma = if is_empty out then [] else b',' ∷ [] in
    format_runs fuel r.1 (out ++ (comma ++ show_run x r.0))

unfoldable pub format_cpu_list : List ℕ → Text
unfolding run_end show_run format_runs sort dedup
format_cpu_list cpus = let sorted = dedup (sort cpus) in format_runs (length sorted) sorted []
