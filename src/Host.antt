-- ===== src/Host.antt =====
-- crates/shmbus/src/cpu.rs and crates/shmbus/src/report.rs: what the programs read of the host.
pub mod Fields
pub mod CpuFile
pub mod Pinning
pub mod CpuScan
pub mod Listed
pub mod Sizes
mod Tests
use mathlib.Core.Option
use dummy_benchmark.Base.{
  ℕ, ◌+◌, ◌*◌, ◌%◌, ◌^◌, Bool, true, false, Option, none, some, List, [], ◌∷◌, ◌++◌, not, ◌&&◌,
  ◌||◌, ltb, ◌==◌, if◌then◌else◌,
}
use dummy_benchmark.Base.Float.{Float}
use dummy_benchmark.Base.Sort.{sort_by}
use dummy_benchmark.Text.{Text, Result, ok, err, codes, is_empty, is_whitespace, trim, trim_start}
use dummy_benchmark.Text.Cut.{
  lines, strip_prefix, strip_suffix, text_eq, text_le, parse_u32, parse_u64,
}
use dummy_benchmark.CpuList.{parse_cpu_list, format_cpu_list}

-- An entry of a directory: its name, and its path.
pub record DirEntry : Type 0 where
  pub name : Text
  pub path : Text

-- The file system as the program finds it: `fs::read_to_string` and `fs::read_dir`, `none` where they
-- fail, and an entry that cannot be read is `none` too.
pub record FileSystem : Type 0 where
  pub read_to_string : Text → Option Text
  pub read_dir : Text → Option (List (Option DirEntry))

-- `path.join(name)` for a relative name
unfoldable pub join : Text → Text → Text
join path name = path ++ b'/' ∷ name

unfoldable pub after_colon : Text → Option Text
after_colon [] = none
after_colon (c ∷ s) =
    let rest = after_colon s in
    if c == b':'
    then some (trim s)
    else if not (is_whitespace c) && not (c == 9)
    then none
    else rest

unfoldable pub extract_after_colon : Text → Text → Option Text
unfolding after_colon
extract_after_colon line key = elim (strip_prefix key (trim_start line)) [
  | none ↦ none
  | some after_key ↦ after_colon after_key
]

unfoldable pub read_trim : FileSystem → Text → Text
read_trim fs path = Option.get_or (Option.map trim (fs.read_to_string path)) []

pub data TurboState : Type 0 where
  unknown enabled disabled : TurboState

unfoldable pub no_turbo_state : Text → TurboState
no_turbo_state t =
    if text_eq t (codes "0") then enabled else if text_eq t (codes "1") then disabled else unknown

unfoldable pub boost_state : Text → TurboState
boost_state t =
    if text_eq t (codes "1") then enabled else if text_eq t (codes "0") then disabled else unknown

abbrev pub no_turbo_path : Text
no_turbo_path = codes "/sys/devices/system/cpu/intel_pstate/no_turbo"

abbrev pub boost_path : Text
boost_path = codes "/sys/devices/system/cpu/cpufreq/boost"

unfoldable pub read_turbo_state : FileSystem → TurboState
unfolding no_turbo_state boost_state
read_turbo_state fs = elim (fs.read_to_string no_turbo_path) [
  | some s ↦ no_turbo_state (trim s)
  | none ↦ elim (fs.read_to_string boost_path) [ some s ↦ boost_state (trim s) | none ↦ unknown ]
]

pub record NumaNode : Type 0 where
  pub node : ℕ
  pub cpus : Text

abbrev pub node_root : Text
node_root = codes "/sys/devices/system/node"

-- The node of an entry `node<n>` with a readable `cpulist`.
unfoldable pub numa_node : FileSystem → DirEntry → Option NumaNode
numa_node fs entry = Option.bind (strip_prefix (codes "node") entry.name) λ rest.
    Option.bind (parse_u32 rest) λ id.
      Option.bind (fs.read_to_string (join entry.path (codes "cpulist")))
        λ s. some (record { node = id; cpus = trim s })

abbrev pub keep {ℓ} : {A : Type ℓ} → Option A → List A → List A
keep none xs = xs
keep (some a) xs = a ∷ xs

-- `for entry in entries.flatten()`, with what an entry adds to `out`.
unfoldable pub collect {ℓ} : {A : Type ℓ} → (DirEntry → Option A) → List (Option DirEntry) → List A
collect f [] = []
collect f (none ∷ es) = collect f es
collect f (some e ∷ es) = keep (f e) (collect f es)

unfoldable pub node_le : NumaNode → NumaNode → Bool
node_le a b = not (ltb b.node a.node)

unfoldable pub read_numa_nodes : FileSystem → List NumaNode
unfolding collect
read_numa_nodes fs = elim (fs.read_dir node_root) [
  | none ↦ []
  | some entries ↦ sort_by node_le (collect (numa_node fs) entries)
]

pub record CacheLevel : Type 0 where
  pub level : ℕ
  pub kind : Text
  pub size_kib : ℕ
  pub line_size_b : ℕ

-- `n * 1024` wraps around in a release build.
unfoldable pub parse_size_kib : Text → Option ℕ
parse_size_kib s =
    let t = trim s in
    elim (strip_suffix b'K' t) [
      | some num ↦ parse_u64 num
      | none ↦ elim (strip_suffix b'M' t) [
        | some num ↦ Option.map (λ n. n * 1024 % 2 ^ 64) (parse_u64 num)
        | none ↦ parse_u64 t
      ]
    ]

abbrev pub cache_root : Text
cache_root = codes "/sys/devices/system/cpu/cpu0/cache"

unfoldable pub cache_level : FileSystem → DirEntry → Option CacheLevel
cache_level fs entry =
    let file = λ (name : Text). fs.read_to_string (join entry.path name) in
    Option.map
      (λ s. record {
        level = Option.get_or (parse_u32 (trim s)) 0;
        kind = read_trim fs (join entry.path (codes "type"));
        size_kib = Option.get_or (Option.bind (file (codes "size")) parse_size_kib) 0;
        line_size_b =
            Option.get_or
              (Option.bind (file (codes "coherency_line_size")) (λ (t : Text). parse_u32 (trim t)))
              0;
      })
      (file (codes "level"))

-- `(a.level, a.kind) <= (b.level, b.kind)`
unfoldable pub cache_le : CacheLevel → CacheLevel → Bool
cache_le a b = if a.level == b.level then text_le a.kind b.kind else ltb a.level b.level

unfoldable pub read_caches : FileSystem → List CacheLevel
read_caches fs = elim (fs.read_dir cache_root) [
  | none ↦ []
  | some entries ↦ sort_by cache_le (collect (cache_level fs) entries)
]
