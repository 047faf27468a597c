-- ===== src/CpuList/Tests.antt =====
-- The tests of crates/shmbus/src/cpu.rs on CPU lists, and the theorems at concrete lists.
use dummy_benchmark.Base.{ℕ, ◌≡◌, refl, List, [], ◌∷◌, arith}
use dummy_benchmark.Text.{
  codes, ok, err, ParseIntError, split, trim, split_once, parse_usize, to_string, is_empty,
}
use dummy_benchmark.CpuList.{
  bad_number, invalid_range, parse_cpu_list, parse_part, count_up, format_cpu_list,
}
use dummy_benchmark.CpuList.Runs.{IsClimbing}
use dummy_benchmark.CpuList.Sorted.{contains}
use dummy_benchmark.CpuList.RoundTrip.{parse_cpu_list-format_cpu_list}

-- `parse_basic_list`
parse_basic_list :
    (parse_cpu_list (codes "") ≡ ok [])
    × (parse_cpu_list (codes "0,1,2") ≡ ok (0 ∷ 1 ∷ 2 ∷ []))
    × (parse_cpu_list (codes "0-2") ≡ ok (0 ∷ 1 ∷ 2 ∷ []))
    × (parse_cpu_list (codes " 0, 2-4 , 8 ") ≡ ok (0 ∷ 2 ∷ 3 ∷ 4 ∷ 8 ∷ []))
unfolding parse_cpu_list parse_part split trim split_once parse_usize count_up
parse_basic_list = (refl, refl, refl, refl)

-- `rejects_inverted_range`
rejects_inverted_range : parse_cpu_list (codes "5-3") ≡ err (invalid_range 5 3)
unfolding parse_cpu_list parse_part split trim split_once parse_usize
rejects_inverted_range = refl

too_large :
    parse_cpu_list (codes "18446744073709551616") ≡ err (bad_number ParseIntError.pos_overflow)
unfolding parse_cpu_list parse_part split trim split_once parse_usize
too_large = refl

-- `format_collapses_ranges`
format_collapses_ranges :
    (format_cpu_list [] ≡ codes "")
    × (format_cpu_list (3 ∷ 1 ∷ 2 ∷ 0 ∷ []) ≡ codes "0-3")
    × (format_cpu_list (0 ∷ 1 ∷ 3 ∷ 5 ∷ 6 ∷ 7 ∷ []) ≡ codes "0-1,3,5-7")
unfolding format_cpu_list to_string is_empty
format_collapses_ranges = (refl, refl, refl)

parse_cpu_list-format_cpu_list_example :
    (xs : List ℕ) × (parse_cpu_list (format_cpu_list (3 ∷ 1 ∷ 9 ∷ 3 ∷ [])) ≡ ok xs)
    × IsClimbing xs
    × ((c : ℕ) → contains c xs ≡ contains c (3 ∷ 1 ∷ 9 ∷ 3 ∷ []))
parse_cpu_list-format_cpu_list_example =
    parse_cpu_list-format_cpu_list (3 ∷ 1 ∷ 9 ∷ 3 ∷ []) (omega arith)
