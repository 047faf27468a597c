-- ===== src/Lib.antt =====
-- dummy-benchmark: three programs that exchange market data and orders.
--
-- The mock exchange (crates/mock-exchange/src/main.rs) sends ticks as packets. The feed handler
-- (crates/feedhandler/src/main.rs) stamps each packet with its clock and publishes it to the tick ring
-- of a shared-memory bus; the trading engine (crates/trading-engine/src/main.rs) reads the tick, runs
-- its strategy inline or on the worker that the symbol's hash picks, and publishes orders to the order
-- ring of the same bus, which the feed handler drains. The library crates/shmbus/src has the bus, the
-- rings, the messages and the tools.
--
-- Files and sources:
--   Ring       ring.rs: `SpscRing`, `try_publish`, `try_consume`. `Ring` has whole calls as functions on
--              a ring and a handle; `Ring.Steps` has the single accesses of the two ends as a step
--              relation, in any interleaving; `Ring.Fifo` is the queue that they promise,
--              and `Ring.Runs` joins the calls to the steps.
--   Message    message.rs: the two messages, their bytes in memory, `symbol_str`, and in
--              `Message.Display` the texts that are printed of them.
--   Latency    latency.rs: `record`, `reset`, `quantile`, `summary`, against the list of samples;
--              `Latency.Display` is `fmt_ns` and the text of a summary.
--   CpuList    cpu.rs: `parse_cpu_list` and `format_cpu_list`, on `Text`, the parts of `str` and
--              `usize` that they call.
--   Bus        shm.rs: `open_or_create` on a file as one call, and the handles; `Bus.Openers` has the single
--              accesses of any number of openers, in the order of a schedule.
--   Noise      noise.rs: the pins and the loop of the noise threads; resctrl.rs: `join_group`.
--              `Noise.Threads` has the threads with the owner of their handle as a step relation.
--   Host       cpu.rs: what is read of /proc and /sys, on a file system that is an argument.
--              `Host.CpuFile` is `read_cpu_info` with its loop over /proc/cpuinfo, `Host.Pinning`
--              is `pin_to_cpus`, on the answers of `sched_setaffinity`.
--   Startup    each `main` up to its bus and socket, as the acts done to the machine and a result; `worker_pin`;
--              resctrl.rs: `is_available`, `current_schemata`.
--   Report     report.rs, `finalise_report` of the engine (`Report.Engine`) and the report of the feed
--              handler (`Report.Feed`); `Report.Balance` and `Report.Inline` join the engine's to a run;
--              `Report.Live` has the lines that the loops print every two seconds.
--   SymbolMap  the hash map of the strategy, an association list.
--   Engine     the trading engine: `strategy_step` as `entry_step` on the entry of the tick's symbol, the
--              routing and the ids; `Engine.Dispatch` has the rounds and the loop of `run_with_workers`,
--              `Engine.Inline` a round of `run_inline` and `Engine.InlineRun` its loop, `Engine.Worker` the
--              loop of `worker_main`, `Engine.Sharding` compares workers and inline mode,
--              `Engine.Affinity` joins them with the dispatcher, and `Engine.Shutdown` has the sends of
--              the workers while the dispatcher joins them.
--   Feedhandler  the completions of received packets (`on_completion`) and the drain of the orders;
--              `Feedhandler.Loop` is the loop of `main` with `submit_recv`.
--   Exchange   the mock exchange: symbols, ticks, counters, the limit, and the pacing.
--   TradingEngine  `main` of the engine from its arguments to its report: the start, the choice between
--              `run_inline` and `run_with_workers`, the deadline, the loop, and `finalise_report`.
--   FeedhandlerMain  `main` of the feed handler from its arguments to its report: the start, the receives
--              that are posted first, the deadline, the loop and the report.
--   MockExchange  `main` of the mock exchange: the start, the symbols, the time of a tick, the deadline
--              and the loop.
--   Clock      `now_ns`.
--   Pipeline   the programs joined: by the two rings, and by the packets of the mock exchange.
--   Base, Samples  shared helpers, and test data.
--
-- Conventions. Numbers are native naturals; a `u64` wraps around where it is written (`add64`, `sub64`),
-- as the release profile of Cargo.toml turns no overflow check on. `usize` is 64 bits. `f64` is the
-- record `Float` of operations, about which nothing is assumed; `Base.Fixed` is an instance for tests.
-- Clocks, random numbers, what a channel answers, the queues of io_uring, and the answers of the kernel
-- and of the file system are arguments: the libraries are not part of the repository. A loop takes the
-- list of what it meets in its rounds; a round gets the rings as the other process has left them, and
-- nothing intervenes within a round: what can happen within a call is in `Ring.Steps`, with sequentially
-- consistent accesses, where the code's acquire and release order the same ones.
--
-- Fuel: `read_orders`, the drain of the order ring, takes fuel, one for each message and one for the end;
-- a ring holds at most its capacity, so one more than the capacity is enough. `submit_recv` recurs on the
-- answers that `submit` gives; two that succeed are enough.
--
-- Not modelled: argument parsing, the messages that the programs print of their starts and ends,
-- serialisation to JSON, signal handlers, errors of spawning noise threads, and the scripts: all of it is
-- input and output, or a library's. How `f64` prints is an argument (`FloatText`). Mapping calls of the
-- bus succeed; the zeroing of the bus and the initialisation of a ring are one access each. `worker_main`
-- is modelled from its loop on: a worker that panics at its pinning, to a CPU of 1024 or more, is not.
-- Whether the joins of `run_with_workers` return is an argument of the run; `Engine.Shutdown` has what they
-- wait for. Instants are nanoseconds, whose seconds are an `i64`. Group names of
-- resctrl are relative paths.
pub mod Base
pub mod Text
pub mod Message
pub mod Ring
pub mod Latency
pub mod CpuList
pub mod SymbolMap
pub mod Engine
pub mod Feedhandler
pub mod Host
pub mod Startup
pub mod Report
pub mod Pipeline
pub mod Bus
pub mod Exchange
pub mod Noise
pub mod Samples
pub mod TradingEngine
pub mod Clock
pub mod FeedhandlerMain
pub mod MockExchange
