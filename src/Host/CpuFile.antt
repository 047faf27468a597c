-- ===== src/Host/CpuFile.antt =====
-- The loop over /proc/cpuinfo in `read_cpu_info` of crates/shmbus/src/cpu.rs, and the whole function.
use mathlib.Core.Option
use dummy_benchmark.Base.{ℕ, Bool, Option, none, some, List, [], ◌∷◌, not, ◌&&◌, if◌then◌else◌}
use dummy_benchmark.Base.Float.{Float}
use dummy_benchmark.Text.{Text, ok, err, codes, is_empty}
use dummy_benchmark.Text.Cut.{lines}
use dummy_benchmark.CpuList.{parse_cpu_list}
use dummy_benchmark.Host.{
  FileSystem, TurboState, NumaNode, CacheLevel, extract_after_colon, read_trim, read_turbo_state,
  read_numa_nodes, read_caches,
}

-- `if have.is_empty() { if let Some(v) = extract_after_colon(line, key) { have = v } }`
unfoldable pub take_text : Text → Text → Text → Text
take_text key line have =
    if is_empty have then Option.get_or (extract_after_colon line key) have else have

-- `parse_cpu_list(read_trim(path)).unwrap_or_default()`
unfoldable pub read_cpus : FileSystem → Text → List ℕ
read_cpus fs path = elim (parse_cpu_list (read_trim fs path)) [ ok cpus ↦ cpus | err e ↦ [] ]

-- `parse_f64` is `parse::<f64>` of the standard library, `none` on an error.
module _ (fl : Float) (parse_f64 : Text → Option fl.F) where
  open fl use {F, lit, le, lt}

  -- `x == 0.0`
  unfoldable pub is_zero : F → Bool
  is_zero x = le x (lit 0 1) && le (lit 0 1) x

  unfoldable pub take_number : Text → F → F
  take_number line have =
      if is_zero have
      then elim (extract_after_colon line (codes "cpu MHz")) [
        | none ↦ have
        | some v ↦ Option.get_or (parse_f64 v) (lit 0 1)
      ]
      else have

  -- The four fields that the loop fills.
  pub record Fields : Type 0 where
    pub vendor : Text
    pub model : Text
    pub microcode : Text
    pub cpu_mhz_nominal : F

  abbrev pub no_fields : Fields
  no_fields = record { vendor = []; model = []; microcode = []; cpu_mhz_nominal = lit 0 1 }

  unfoldable pub take_line : Text → Fields → Fields
  take_line line f = record {
    vendor = take_text (codes "vendor_id") line f.vendor;
    model = take_text (codes "model name") line f.model;
    microcode = take_text (codes "microcode") line f.microcode;
    cpu_mhz_nominal = take_number line f.cpu_mhz_nominal;
  }

  -- The test of the `break`.
  unfoldable pub is_complete : Fields → Bool
  is_complete f =
      not (is_empty f.vendor)
      && not (is_empty f.model)
      && not (is_empty f.microcode)
      && lt (lit 0 1) f.cpu_mhz_nominal

  unfoldable pub scan_lines : List Text → Fields → Fields
  scan_lines [] f = f
  scan_lines (line ∷ ls) f =
      let f' = take_line line f in
      let rest = scan_lines ls f' in if is_complete f' then f' else rest

  pub record CpuInfo : Type 0 where
    pub vendor : Text
    pub model : Text
    pub microcode : Text
    pub kernel : Text
    pub cpu_mhz_nominal : F
    pub governor : Text
    pub turbo : TurboState
    pub online_cpus : List ℕ
    pub isolated_cpus : List ℕ
    pub numa_nodes : List NumaNode
    pub caches : List CacheLevel

  unfoldable pub read_fields : FileSystem → Fields
  read_fields fs = elim (fs.read_to_string (codes "/proc/cpuinfo")) [
    | none ↦ no_fields
    | some s ↦ scan_lines (lines s) no_fields
  ]

  unfoldable pub read_cpu_info : FileSystem → CpuInfo
  unfolding read_fields
  read_cpu_info fs =
      let f = read_fields fs in
      record {
        vendor = f.vendor;
        model = f.model;
        microcode = f.microcode;
        kernel = read_trim fs (codes "/proc/sys/kernel/osrelease");
        cpu_mhz_nominal = f.cpu_mhz_nominal;
        governor = read_trim fs (codes "/sys/devices/system/cpu/cpu0/cpufreq/scaling_governor");
        turbo = read_turbo_state fs;
        online_cpus = read_cpus fs (codes "/sys/devices/system/cpu/online");
        isolated_cpus = read_cpus fs (codes "/sys/devices/system/cpu/isolated");
        numa_nodes = read_numa_nodes fs;
        caches = read_caches fs;
      }
