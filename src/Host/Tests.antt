-- ===== src/Host/Tests.antt =====
-- The host probing of crates/shmbus/src/cpu.rs at concrete files, and the theorems there.
use mathlib.Core.Option
use dummy_benchmark.Base.{
  ℕ, ◌≡◌, refl, ◌↔◌, true, Option, none, some, List, [], ◌∷◌, ◌++◌, arith, if◌then◌else◌,
}
use dummy_benchmark.Base.Int.{ℤ, pos}
use dummy_benchmark.Base.Fixed.{fixed}
use dummy_benchmark.Base.Sort.{Among, IsSortedBy, sort_by}
use Prim.Native.String.{String}
use dummy_benchmark.Text.{
  Text, Result, ok, err, codes, trim, trim_start, is_whitespace, parse_usize,
}
use dummy_benchmark.Text.Cut.{strip_prefix, text_eq, parse_u32}
use dummy_benchmark.Host.{
  DirEntry, FileSystem, NumaNode, node_le, read_numa_nodes, read_turbo_state, disabled,
  extract_after_colon, numa_node, join,
}
use dummy_benchmark.Host.Pinning.{
  CpuSet, set_cpus, pin_to_cpus, pin_to_cpu, os_error, out_of_set, asked,
}
use dummy_benchmark.Host.Fields.{IsField, extract_after_colon-IsField}
use dummy_benchmark.Host.Listed.{IsNode, read_numa_nodes-IsNode}
use dummy_benchmark.Host.CpuFile.{no_fields, scan_lines, is_zero}
use dummy_benchmark.Host.CpuScan.{first_text, last_number, SeparatesZero, scan_lines-first_text}

newline_blank : is_whitespace 10 ≡ true
unfolding is_whitespace
newline_blank = refl

abbrev cpu_line : Text
cpu_line = codes "model name" ++ 9 ∷ codes ": Xeon Gold"

field_found : extract_after_colon cpu_line (codes "model name") ≡ some (codes "Xeon Gold")
unfolding extract_after_colon trim_start strip_prefix trim is_whitespace
field_found = refl

extract_after_colon-IsField_example :
    (extract_after_colon cpu_line (codes "model name") ≡ some (codes "Xeon Gold"))
    ↔ IsField cpu_line (codes "model name") (codes "Xeon Gold")
extract_after_colon-IsField_example =
    extract_after_colon-IsField cpu_line (codes "model name") (codes "Xeon Gold")

-- A host with two nodes, listed in the other order, beside an entry that is no node.
abbrev entry : String → DirEntry
entry name = record { name = codes name; path = codes name }

abbrev listing : List (Option DirEntry)
listing = some (entry "node1") ∷ none ∷ some (entry "possible") ∷ some (entry "node0") ∷ []

abbrev host_files : FileSystem
host_files = record {
  read_to_string = λ path.
      if text_eq path (codes "node0/cpulist")
      then some (codes "0-3" ++ 10 ∷ [])
      else if text_eq path (codes "node1/cpulist")
      then some (codes "4-7" ++ 10 ∷ [])
      else if text_eq path (codes "/sys/devices/system/cpu/cpufreq/boost")
      then some (codes "0" ++ 10 ∷ [])
      else none;
  read_dir = λ path. some listing;
}

nodes_found :
    read_numa_nodes host_files
    ≡ record { node = 0; cpus = codes "0-3" } ∷ record { node = 1; cpus = codes "4-7" } ∷ []
unfolding read_numa_nodes numa_node node_le strip_prefix parse_u32 parse_usize text_eq trim
    Option.bind sort_by join
nodes_found = refl

boost_is_off : read_turbo_state host_files ≡ disabled
unfolding read_turbo_state text_eq trim
boost_is_off = refl

read_numa_nodes-IsNode_example :
    IsSortedBy node_le (read_numa_nodes host_files)
    × ((n : NumaNode) → Among n (read_numa_nodes host_files) ↔ IsNode host_files listing n)
read_numa_nodes-IsNode_example = read_numa_nodes-IsNode host_files listing refl

-- A reader of numbers that knows none.
abbrev no_number : Text → Option ℤ
no_number s = none

fixed-SeparatesZero : SeparatesZero fixed no_number
unfolding is_zero
fixed-SeparatesZero x h = ground arith

scan_lines-first_text_example :
    let f = scan_lines fixed no_number (cpu_line ∷ cpu_line ∷ []) (no_fields fixed no_number) in
    (f.vendor ≡ first_text (codes "vendor_id") (cpu_line ∷ cpu_line ∷ []))
    × (f.model ≡ first_text (codes "model name") (cpu_line ∷ cpu_line ∷ []))
    × (f.microcode ≡ first_text (codes "microcode") (cpu_line ∷ cpu_line ∷ []))
    × (f.cpu_mhz_nominal ≡ last_number fixed no_number (cpu_line ∷ cpu_line ∷ []) (pos 0))
scan_lines-first_text_example =
    scan_lines-first_text fixed no_number fixed-SeparatesZero (cpu_line ∷ cpu_line ∷ [])

-- A kernel that refuses any set with CPU 9.
abbrev no_nine : CpuSet → Result {0, 0} ℕ Unit
no_nine set = if set 9 then err 22 else ok tt

pins :
    (pin_to_cpus no_nine (1 ∷ 9 ∷ []) ≡ err (os_error 22))
    × (pin_to_cpu no_nine 3 ≡ ok tt)
    × (pin_to_cpu no_nine 1_024 ≡ err out_of_set)
unfolding pin_to_cpus pin_to_cpu set_cpus asked
pins = (refl, refl, refl)
