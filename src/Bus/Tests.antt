-- ===== src/Bus/Tests.antt =====
-- The bus of crates/shmbus/src/shm.rs at concrete files.
use dummy_benchmark.Base.{ℕ_discrete, List, ◌≡◌, refl, [], ◌∷◌, arith}
use dummy_benchmark.Samples.{used_ring, empty_ring}
use dummy_benchmark.Bus.{bus_magic, bus_version, bus_size, BusFile}
use mathlib.Core.Logic.{if_pos, if_neg}
use dummy_benchmark.Base.Bytes.{update}
use dummy_benchmark.Bus.Openers.{begins, magic_set, attached, Openers, Move, opens, uses, run}
use dummy_benchmark.Bus.Settled.{
  IsSettled, rings_of, worked, own_steps, run-IsSettled, run-attached,
}
use dummy_benchmark.Bus.Races.{both_begin, first_opens, turns_of, IsLost, first_opens-IsLost}
use dummy_benchmark.Bus.Open.{IsLive}

-- A file that was cut off, and a bus in use.
abbrev short_file : BusFile
short_file = record {
  len = 10;
  layout = record {
    magic = bus_magic;
    version = 9;
    ready = 1;
    ticks = used_ring;
    orders = used_ring;
  };
}

abbrev live_bus : BusFile
live_bus = record {
  len = bus_size;
  layout = record {
    magic = bus_magic;
    version = bus_version;
    ready = 1;
    ticks = used_ring;
    orders = empty_ring;
  };
}

live_bus-IsLive : IsLive live_bus
live_bus-IsLive = record { long = omega arith; magic_is = refl; version_is = refl; ready_is = refl }

-- The creator has the ready bit to store, and everybody else is to come.
abbrev nearly_made : Openers
nearly_made = record {
  file = record live_bus { layout = record live_bus.layout { ready = 0 } };
  openers = update (λ i. begins) 0 magic_set;
}

nearly_made-IsSettled : IsSettled nearly_made
nearly_made-IsSettled = record {
  long = omega arith;
  magic_is = refl;
  version_is = refl;
  calm = λ i. elim (ℕ_discrete 0 i) [ yes e ↦ rw (if_pos _ e) tt | no ne ↦ rw (if_neg _ ne) tt ];
}

abbrev early : List Move
early = opens 3 ∷ opens 3 ∷ opens 3 ∷ opens 3 ∷ opens 3 ∷ opens 0 ∷ uses used_ring used_ring ∷ []

run-IsSettled_example :
    let t = run nearly_made early in
    IsSettled t × (rings_of t ≡ worked early (rings_of nearly_made))
run-IsSettled_example = run-IsSettled nearly_made early nearly_made-IsSettled

all_begin-IsSettled : IsSettled (both_begin live_bus)
all_begin-IsSettled = record {
  long = omega arith;
  magic_is = refl;
  version_is = refl;
  calm = λ i. tt;
}

abbrev mixed : List Move
mixed =
    opens 3
    ∷ opens 1
    ∷ opens 3
    ∷ uses empty_ring used_ring
    ∷ opens 3
    ∷ opens 3
    ∷ opens 1
    ∷ opens 3
    ∷ []

run-attached_example : (run (both_begin live_bus) mixed).openers 3 ≡ attached
unfolding own_steps
run-attached_example =
    run-attached (both_begin live_bus) 3 mixed all_begin-IsSettled refl (omega arith)

first_opens-IsLost_example :
    let s = run (both_begin short_file) (first_opens used_ring empty_ring) in
    IsLost used_ring empty_ring s (run s (turns_of 8 1))
first_opens-IsLost_example = first_opens-IsLost short_file used_ring empty_ring (omega arith)
