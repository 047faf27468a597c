-- ===== src/Bus.antt =====
-- crates/shmbus/src/shm.rs: opening the shared-memory bus.
pub mod Open
pub mod Openers
pub mod Settled
pub mod Races
mod Tests
use dummy_benchmark.Base.{
  ℕ, zero, suc, ◌+◌, ◌*◌, ◌-◌, Bool, true, false, List, [], ◌∷◌, length, replicate, ltb, ◌==◌, ◌||◌,
  not, if◌then◌else◌,
}
use dummy_benchmark.Ring.{
  SpscRing, RingProducer, RingConsumer, Slot, ring_capacity, slot_payload, init_in_place,
  new_producer, new_consumer,
}

-- `BUS_MAGIC`, `BUS_VERSION`
abbrev pub bus_magic : ℕ
bus_magic = 0x5348_4D42

abbrev pub bus_version : ℕ
bus_version = 1

-- `BusLayout`: the words of the header, less its padding, and the rings.
pub record BusLayout : Type 0 where
  pub magic : ℕ
  pub version : ℕ
  pub ready : ℕ
  pub ticks : SpscRing
  pub orders : SpscRing

-- `size_of::<BusLayout>()`: a header of 64 bytes, and for each ring two padded cursors of 64 bytes and
-- the slots, 96 bytes of fields rounded up to the alignment of 64.
abbrev pub slot_size : ℕ
slot_size = 128

abbrev pub bus_size : ℕ
bus_size = 64 + 2 * (2 * 64 + ring_capacity * slot_size)

-- The file: its length, and what its bytes are as a layout, zeros beyond its length.
pub record BusFile : Type 0 where
  pub len : ℕ
  pub layout : BusLayout

-- What `open_or_create` comes to. `waiting` is a spin that has not yet seen the ready bit.
pub data Opened : Type 0 where
  opened : BusFile → Opened
  version_mismatch : ℕ → Opened
  waiting : Opened

-- The length that is read first, and `set_len` on a file that is too short.
unfoldable pub is_fresh : BusFile → Bool
is_fresh f = ltb f.len bus_size

unfoldable pub extend : BusFile → BusFile
extend f = if is_fresh f then record f { len = bus_size } else f

-- `write_bytes(layout, 0, size)`
unfoldable pub zero_ring : SpscRing → SpscRing
zero_ring ring = record {
  head = 0;
  tail = 0;
  slots = λ i. record { seq = 0; payload = replicate slot_payload 0 };
}

-- The cold initialisation.
unfoldable pub cold_init : BusLayout → BusLayout
cold_init l = record {
  magic = bus_magic;
  version = bus_version;
  ready = 1;
  ticks = init_in_place (zero_ring l.ticks);
  orders = init_in_place (zero_ring l.orders);
}

-- `while hdr.ready.load(..) != 1`, on the values that the loads read.
unfoldable pub spin : BusFile → List ℕ → Opened
spin f [] = waiting
spin f (r ∷ reads) = let rest = spin f reads in if r == 1 then opened f else rest

-- What follows the mapping, for an opener that found the file fresh or not: the bus may have changed
-- since it looked.
unfoldable pub finish_open : Bool → BusFile → List ℕ → Opened
finish_open fresh f reads =
    if fresh || not (f.layout.magic == bus_magic)
    then opened (record f { layout = cold_init f.layout })
    else if not (f.layout.version == bus_version)
    then version_mismatch f.layout.version
    else spin f reads

-- `open_or_create` with no other process in between.
unfoldable pub open_or_create : BusFile → List ℕ → Opened
open_or_create f reads = finish_open (is_fresh f) (extend f) reads

-- The handles on the rings of an open bus.
unfoldable pub ticks_producer : BusFile → RingProducer
ticks_producer f = new_producer f.layout.ticks

unfoldable pub ticks_consumer : BusFile → RingConsumer
ticks_consumer f = new_consumer f.layout.ticks

unfoldable pub orders_producer : BusFile → RingProducer
orders_producer f = new_producer f.layout.orders

unfoldable pub orders_consumer : BusFile → RingConsumer
orders_consumer f = new_consumer f.layout.orders
