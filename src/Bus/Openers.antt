-- ===== src/Bus/Openers.antt =====
-- Several processes in `open_or_create` of crates/shmbus/src/shm.rs at once: each access to the file is
-- a step of its own, and a schedule says whose step comes next. The zeroing and the initialisation of a
-- ring count as one access each.
use dummy_benchmark.Base.{ℕ, Bool, true, false, List, [], ◌∷◌, ◌==◌, ◌||◌, not, if◌then◌else◌}
use dummy_benchmark.Base.Bytes.{update}
use dummy_benchmark.Ring.{SpscRing, init_in_place}
use dummy_benchmark.Bus.{bus_magic, bus_version, bus_size, BusLayout, BusFile, is_fresh, zero_ring}

-- Where an opener is: `looked` and `mapped` hold what it found of the length, the rest name what it has
-- done last. `attached` has returned the bus, `refused` the error of a wrong version.
pub data Opener : Type 0 where
  begins : Opener
  looked mapped : Bool → Opener
  initialises zeroed ticks_made orders_made version_set magic_set : Opener
  checks spins attached : Opener
  refused : ℕ → Opener

-- The stores of the cold initialisation.
unfoldable pub store_zeros : BusLayout → BusLayout
store_zeros l = record {
  magic = 0;
  version = 0;
  ready = 0;
  ticks = zero_ring l.ticks;
  orders = zero_ring l.orders;
}

-- The next access of an opener, and where it is then.
unfoldable pub open_step : BusFile → Opener → BusFile × Opener
unfolding is_fresh store_zeros
open_step f begins = (f, looked (is_fresh f))
open_step f (looked true) = (record f { len = bus_size }, mapped true)
open_step f (looked false) = (f, mapped false)
open_step f (mapped fresh) =
    (f, if fresh || not (f.layout.magic == bus_magic) then initialises else checks)
open_step f initialises = (record f { layout = store_zeros f.layout }, zeroed)
open_step f zeroed =
    (record f { layout = record f.layout { ticks = init_in_place f.layout.ticks } }, ticks_made)
open_step f ticks_made =
    (record f { layout = record f.layout { orders = init_in_place f.layout.orders } }, orders_made)
open_step f orders_made =
    (record f { layout = record f.layout { version = bus_version } }, version_set)
open_step f version_set = (record f { layout = record f.layout { magic = bus_magic } }, magic_set)
open_step f magic_set = (record f { layout = record f.layout { ready = 1 } }, attached)
open_step f checks =
    (f, if not (f.layout.version == bus_version) then refused f.layout.version else spins)
open_step f spins = (f, if f.layout.ready == 1 then attached else spins)
open_step f attached = (f, attached)
open_step f (refused v) = (f, refused v)

-- The file, and every process that opens it.
pub record Openers : Type 0 where
  pub file : BusFile
  pub openers : ℕ → Opener

-- A step of an opener, or what the programs that have the bus leave in the rings.
pub data Move : Type 0 where
  opens : ℕ → Move
  uses : SpscRing → SpscRing → Move

unfoldable pub use_rings : BusFile → SpscRing → SpscRing → BusFile
use_rings f ticks orders = record f { layout = record f.layout { ticks = ticks; orders = orders } }

unfoldable pub move : Openers → Move → Openers
move s (opens i) =
    let (file, pc) = open_step s.file (s.openers i) in
    record { file = file; openers = update s.openers i pc }
move s (uses ticks orders) = record s { file = use_rings s.file ticks orders }

unfoldable pub run : Openers → List Move → Openers
unfolding move
run s [] = s
run s (m ∷ ms) = run (move s m) ms
