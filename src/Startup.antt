-- ===== src/Startup.antt =====
-- What the programs do before their loops: pinning, joining a resctrl group, the CPU lists, the noise
-- threads and the bus, in `main` of crates/trading-engine/src/main.rs, crates/feedhandler/src/main.rs
-- and crates/mock-exchange/src/main.rs; and crates/shmbus/src/resctrl.rs.
pub mod Accepts
mod Tests
use mathlib.Core.Option
use dummy_benchmark.Base.{
  ℕ, zero, suc, ◌+◌, ◌%◌, Bool, true, false, Option, none, some, List, [], ◌∷◌, ◌++◌, length,
  get_elem?, max, ltb, ◌==◌, if◌then◌else◌,
}
use dummy_benchmark.Base.Bytes.{Bytes}
use dummy_benchmark.Text.{Text, Result, ok, err, codes, is_empty, trim}
use dummy_benchmark.CpuList.{CpuListError, parse_cpu_list}
use dummy_benchmark.Noise.{JoinError, join_group, spawn_noise}
use dummy_benchmark.Host.{FileSystem, join}
use dummy_benchmark.Host.Pinning.{CpuSet, PinError, os_error, out_of_set, pin_to_cpu}
use dummy_benchmark.Exchange.{symbol_names}

-- What the kernel answers; an error is its number.
pub record Machine : Type 0 where
  pub files : FileSystem
  pub exists : Text → Bool
  -- `fs::write` of the thread's id to a file
  pub write_tid : Text → Result {0, 0} ℕ Unit
  -- `sched_setaffinity`
  pub set_affinity : CpuSet → Result {0, 0} ℕ Unit
  -- `ShmBus::open_or_create`; and the calls on the socket, the first error of them
  pub open_bus : Text → Result {0, 0} ℕ Unit
  pub open_socket : Text → Result {0, 0} ℕ Unit

abbrev pub resctrl_root : Text
resctrl_root = codes "/sys/fs/resctrl"

abbrev pub tasks_path : Text → Text
tasks_path group = join (join resctrl_root group) (codes "tasks")

-- `join_group` on the answers of the machine.
unfoldable pub join_thread : Machine → Text → Bool → Result {0, 0} (JoinError ℕ) Unit
join_thread m group allow_missing =
    join_group group allow_missing (m.exists (tasks_path group)) (m.write_tid (tasks_path group))

unfoldable pub is_available : Machine → Bool
is_available m = m.exists (join resctrl_root (codes "schemata"))

unfoldable pub current_schemata : Machine → Text → Option Text
current_schemata m group =
    let path =
      if is_empty group
      then join resctrl_root (codes "schemata")
      else join (join resctrl_root group) (codes "schemata") in
    Option.map trim (m.files.read_to_string path)

-- What ends `main` before its loop: an error that it returns, or a panic.
pub data StartError : Type 0 where
  panics : StartError
  spawning_worker : StartError
  pinning : ℕ → ℕ → StartError
  joining : Text → JoinError ℕ → StartError
  bad_worker_cpus : CpuListError → StartError
  bad_noise_cpus : CpuListError → StartError
  opening_bus : Text → ℕ → StartError
  no_symbols : StartError
  opening_socket : Text → ℕ → StartError

-- What has been done to the machine: the thread pinned or moved, the noise threads started with their
-- pins, the bus and the socket opened.
pub data Act : Type 0 where
  pinned : ℕ → Act
  joined : Text → Act
  noise : List (Option ℕ) → Text → Act
  bus_open : Text → Act
  socket_open : Text → Act

-- The acts so far, and the value or the error that `main` returns.
abbrev pub Start : Type 0 → Type 0
Start A = List Act × Result {0, 0} StartError A

unfoldable pub continue :
    {A B : Type 0} → List Act → Result {0, 0} StartError A → (A → Start B) → Start B
continue acts (ok a) f = let (more, r) = f a in (acts ++ more, r)
continue acts (err e) f = (acts, err e)

infixl 5 ◌>>=◌ ◌>>◌
abbrev pub ◌>>=◌ : {A B : Type 0} → Start A → (A → Start B) → Start B
m >>= f = continue m.0 m.1 f

abbrev pub ◌>>◌ : {B : Type 0} → Start (Unit {0}) → Start B → Start B
m >> k = m >>= λ _. k

-- An answer of the machine, with the act that it stands for, or the error.
unfoldable pub act {ℓ} : {E : Type ℓ} → Act → (E → StartError) → Result {ℓ, 0} E Unit → Start Unit
act a wrap (ok _) = (a ∷ [], ok tt)
act a wrap (err e) = ([], err (wrap e))

unfoldable pub parse {ℓ} :
    {E : Type ℓ} {A : Type 0} → (E → StartError) → Result {ℓ, 0} E A → Start A
parse wrap (ok a) = ([], ok a)
parse wrap (err e) = ([], err (wrap e))

unfoldable pub pin_failed : ℕ → PinError → StartError
pin_failed c (os_error e) = pinning c e
pin_failed c out_of_set = panics

unfoldable pub pin_main : Machine → Option ℕ → Start Unit
pin_main m none = ([], ok tt)
pin_main m (some c) = act (pinned c) (pin_failed c) (pin_to_cpu m.set_affinity c)

unfoldable pub join_main : Machine → Text → Start Unit
join_main m group =
    if is_empty group
    then ([], ok tt)
    else act (joined group) (joining group) (join_thread m group false)

unfoldable pub start_noise : ℕ → List ℕ → Text → Start Unit
start_noise threads cpus group =
    if ltb 0 threads then (noise (spawn_noise threads cpus) group ∷ [], ok tt) else ([], ok tt)

-- The arguments that all the programs have.
pub record Args : Type 0 where
  pub pin_cpu : Option ℕ
  pub noise_threads : ℕ
  pub noise_cpus : Text
  pub resctrl_group : Text
  pub noise_resctrl_group : Text

-- `main` of the trading engine up to the opening of the bus, which it includes: the CPUs of the workers and of the noise.
unfoldable pub start_engine : Machine → Args → Text → Text → Start (List ℕ × List ℕ)
start_engine m a worker_cpus bus = do
  pin_main m a.pin_cpu
  join_main m a.resctrl_group
  workers ← parse bad_worker_cpus (parse_cpu_list worker_cpus)
  cpus ← parse bad_noise_cpus (parse_cpu_list a.noise_cpus)
  start_noise a.noise_threads cpus a.noise_resctrl_group
  act (bus_open bus) (opening_bus bus) (m.open_bus bus)
  ([], ok (workers, cpus))

-- `main` of the feed handler up to the building of its io_uring.
unfoldable pub start_feedhandler : Machine → Args → Text → Text → Start (List ℕ)
start_feedhandler m a bus bind = do
  pin_main m a.pin_cpu
  join_main m a.resctrl_group
  cpus ← parse bad_noise_cpus (parse_cpu_list a.noise_cpus)
  start_noise a.noise_threads cpus a.noise_resctrl_group
  act (bus_open bus) (opening_bus bus) (m.open_bus bus)
  act (socket_open bind) (opening_socket bind) (m.open_socket bind)
  ([], ok cpus)

unfoldable pub need_symbols : List Bytes → Start (List Bytes)
need_symbols [] = ([], err no_symbols)
need_symbols (s ∷ ss) = ([], ok (s ∷ ss))

-- `main` of the mock exchange up to its socket, which it includes: the names of its symbols.
unfoldable pub start_exchange : Machine → Args → (Text → Bytes) → Text → Text → Start (List Bytes)
start_exchange m a as_bytes symbols target = do
  pin_main m a.pin_cpu
  join_main m a.resctrl_group
  cpus ← parse bad_noise_cpus (parse_cpu_list a.noise_cpus)
  start_noise a.noise_threads cpus a.noise_resctrl_group
  names ← need_symbols (symbol_names as_bytes symbols)
  act (socket_open target) (opening_socket target) (m.open_socket target)
  ([], ok names)

-- `worker_cpus.get(w % worker_cpus.len().max(1)).copied().filter(|_| !worker_cpus.is_empty())`
unfoldable pub worker_pin : List ℕ → ℕ → Option ℕ
worker_pin cpus w = elim (get_elem? cpus (w % max (length cpus) 1)) [
  | none ↦ none
  | some c ↦ if length cpus == 0 then none else some c
]

-- The pins of the `n` workers, in the order in which they are spawned.
unfoldable pub spawn_workers : ℕ → List ℕ → List (Option ℕ)
unfolding worker_pin
spawn_workers zero cpus = []
spawn_workers (suc w) cpus = spawn_workers w cpus ++ worker_pin cpus w ∷ []

-- The panic of `Instant + Duration` is one of `main`.
unfoldable pub or_panic : {A : Type 0} → Option A → Start A
or_panic none = ([], err panics)
or_panic (some a) = ([], ok a)
