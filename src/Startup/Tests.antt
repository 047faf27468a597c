-- ===== src/Startup/Tests.antt =====
-- The start of the programs at concrete arguments, and the theorems there.
use dummy_benchmark.Base.{◌≡◌, ◌↔◌, refl, some, [], ◌∷◌}
use dummy_benchmark.Text.{Text, codes, ok, err, split, trim, split_once, parse_usize}
use dummy_benchmark.CpuList.{parse_cpu_list, parse_part, invalid_range}
use dummy_benchmark.Samples.{willing}
use dummy_benchmark.Host.Pinning.{pin_to_cpu, set_cpus, asked}
use dummy_benchmark.Startup.{
  Args, start_engine, continue, act, parse, bad_noise_cpus, pinned, pin_main, join_main,
}
use dummy_benchmark.Startup.Accepts.{Accepts, acts_of, start_engine_accepts}

abbrev args_with : Text → Args
args_with noise_cpus = record {
  pin_cpu = some 4;
  noise_threads = 2;
  noise_cpus = noise_cpus;
  resctrl_group = [];
  noise_resctrl_group = [];
}

-- A list that does not parse ends the start before the noise threads.
bad_list :
    start_engine willing (args_with (codes "5-3")) [] (codes "bus")
    ≡ (pinned 4 ∷ [], err (bad_noise_cpus (invalid_range 5 3)))
unfolding start_engine parse_cpu_list parse_part split trim split_once parse_usize join_main
    continue pin_main pin_to_cpu act parse set_cpus asked
bad_list = refl

start_engine_accepts_example :
    let a = args_with (codes "0") in
    ((start_engine willing a (codes "1-2") (codes "bus")).1 ≡ ok (1 ∷ 2 ∷ [], 0 ∷ [])
      ↔ Accepts willing a (codes "1-2") (codes "bus") (1 ∷ 2 ∷ [], 0 ∷ []))
    × ((start_engine willing a (codes "1-2") (codes "bus")).1 ≡ ok (1 ∷ 2 ∷ [], 0 ∷ [])
        → (start_engine willing a (codes "1-2") (codes "bus")).0 ≡ acts_of a (0 ∷ []) (codes "bus"))
start_engine_accepts_example =
    start_engine_accepts willing (args_with (codes "0")) (codes "1-2") (codes "bus")
      (1 ∷ 2 ∷ [], 0 ∷ [])
