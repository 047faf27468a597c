-- ===== src/Report.antt =====
-- crates/shmbus/src/report.rs, and what the reports of crates/feedhandler/src/main.rs and
-- crates/trading-engine/src/main.rs have in common.
pub mod Engine
pub mod Feed
pub mod Balance
pub mod Inline
pub mod Live
mod Tests
use dummy_benchmark.Base.{
  ℕ, ◌+◌, ◌/◌, Bool, true, false, Option, none, some, List, [], ◌∷◌, ltb, if◌then◌else◌,
}
use mathlib.Core.Option
use dummy_benchmark.Base.Float.{Float}
use dummy_benchmark.Text.{Text, Result, ok, err, codes, is_empty}
use dummy_benchmark.CpuList.{format_cpu_list}
use dummy_benchmark.Host.{FileSystem, TurboState, NumaNode, CacheLevel, read_trim}
use dummy_benchmark.Host.CpuFile.{CpuInfo, read_cpu_info}
use dummy_benchmark.Latency.{LatencyHistogram, Summary, summary}
use dummy_benchmark.Startup.{Machine, is_available, current_schemata}
use dummy_benchmark.Engine.Dispatch.{Totals}
use dummy_benchmark.Feedhandler.{Counters}

unfoldable pub read_hostname : FileSystem → Text
read_hostname fs = read_trim fs (codes "/proc/sys/kernel/hostname")

-- `RunConfig`, and `RunConfig::new` at `started_unix` seconds.
pub record RunConfig : Type 0 where
  pub binary : Text
  pub pin_cpu : Option ℕ
  pub noise_threads : ℕ
  pub noise_cpus : Text
  pub bench_secs : ℕ
  pub workers : Option ℕ
  pub worker_cpus : Option Text
  pub started_unix : ℕ

unfoldable pub new_config : Text → ℕ → ℕ → RunConfig
new_config binary bench_secs started_unix = record {
  binary = binary;
  pin_cpu = none;
  noise_threads = 0;
  noise_cpus = [];
  bench_secs = bench_secs;
  workers = none;
  worker_cpus = none;
  started_unix = started_unix;
}

-- What becomes of a report. `unwritten` is an error of the JSON library or of the file.
pub data Outcome : Type 0 where
  written : Text → Text → Outcome
  printed : Text → Outcome
  silent : Outcome
  unwritten : Text → Outcome
  unprinted : Outcome

-- `write_report` and the choice around it: `to_json` is `serde_json::to_string_pretty`, and `writes`
-- tells whether `fs::write` succeeds.
unfoldable pub write_report : {R : Type 0} → (R → Option Text) → (Text → Bool) → Text → R → Outcome
write_report to_json writes path report = elim (to_json report) [
  | none ↦ unwritten path
  | some json ↦ if writes path then written path json else unwritten path
]

unfoldable pub deliver :
    {R : Type 0} → (R → Option Text) → (Text → Bool) → Option Text → ℕ → R → Outcome
deliver to_json writes (some path) bench_secs report = write_report to_json writes path report
deliver to_json writes none bench_secs report =
    if ltb 0 bench_secs
    then elim (to_json report) [ none ↦ unprinted | some json ↦ printed json ]
    else silent

-- The `schemata` field of a report's configuration.
unfoldable pub report_schemata : Machine → Text → Text
report_schemata m group = if is_empty group then [] else Option.get_or (current_schemata m group) []

module _ (fl : Float) where
  open fl use {F, lit, of_u64, div, lt}

  pub record HostInfo : Type 0 where
    pub hostname : Text
    pub kernel : Text
    pub cpu_vendor : Text
    pub cpu_model : Text
    pub microcode : Text
    pub cpu_mhz_nominal : F
    pub governor : Text
    pub turbo : TurboState
    pub online_cpus : Text
    pub isolated_cpus : Text
    pub numa_nodes : List NumaNode
    pub caches : List CacheLevel

  unfoldable pub host_info : (Text → Option F) → FileSystem → HostInfo
  host_info parse_f64 fs =
      let info = read_cpu_info fl parse_f64 fs in
      record {
        hostname = read_hostname fs;
        kernel = info.kernel;
        cpu_vendor = info.vendor;
        cpu_model = info.model;
        microcode = info.microcode;
        cpu_mhz_nominal = info.cpu_mhz_nominal;
        governor = info.governor;
        turbo = info.turbo;
        online_cpus = format_cpu_list info.online_cpus;
        isolated_cpus = format_cpu_list info.isolated_cpus;
        numa_nodes = info.numa_nodes;
        caches = info.caches;
      }

  -- Ticks per second; 0 when no time has passed.
  unfoldable pub throughput : ℕ → F → F
  throughput ticks elapsed = if lt (lit 0 1) elapsed then div (of_u64 ticks) elapsed else lit 0 1
