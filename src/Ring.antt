-- ===== src/Ring.antt =====
-- crates/shmbus/src/ring.rs: the single-producer single-consumer ring of the shared-memory bus.
-- The ring is shared memory, so an operation takes it and gives the new one back beside the handle.
pub mod Cursor
pub mod Holds
pub mod Fifo
pub mod Calls
pub mod Refine
pub mod Steps
pub mod Threads
pub mod Interleaved
pub mod Safety
pub mod Sequential
pub mod Runs
mod Tests
use Prim.Native.Nat.{bit_and}
use dummy_benchmark.Base.{
  ℕ, ◌+◌, ◌-◌, ◌*◌, ◌%◌, Bool, true, false, Option, none, some, length, take, drop, leb, ltb, ◌==◌,
  not, if◌then◌else◌, add64, sub64, saturating_sub,
}
use dummy_benchmark.Base.Bytes.{Bytes, copy_over, zero_from, update}

-- `RING_CAPACITY`, `RING_MASK`, `SLOT_PAYLOAD`
abbrev pub ring_capacity : ℕ
ring_capacity = 16 * 1024

abbrev pub ring_mask : ℕ
ring_mask = ring_capacity - 1

abbrev pub slot_payload : ℕ
slot_payload = 80

pub record Slot : Type 0 where
  pub seq : ℕ
  pub payload : Bytes

-- The array `slots[RING_CAPACITY]` is a function of the index; the padding is left out.
pub record SpscRing : Type 0 where
  pub head : ℕ
  pub tail : ℕ
  pub slots : ℕ → Slot

-- A handle, less the pointer to its ring.
pub record RingProducer : Type 0 where
  pub next_seq : ℕ

pub record RingConsumer : Type 0 where
  pub next_seq : ℕ

unfoldable pub init_in_place : SpscRing → SpscRing
init_in_place ring = record ring {
  head = 0;
  tail = 0;
  slots = λ i. record (ring.slots i) { seq = 0 };
}

unfoldable pub capacity : SpscRing → ℕ
capacity ring = ring_capacity

-- `(seq & RING_MASK) as usize`
unfoldable pub slot_index : ℕ → ℕ
slot_index seq = bit_and seq ring_mask

unfoldable pub new_producer : SpscRing → RingProducer
new_producer ring = record { next_seq = ring.head }

unfoldable pub new_consumer : SpscRing → RingConsumer
new_consumer ring = record { next_seq = ring.tail }

-- The bytes that the producer leaves in a slot's payload: a copy, then zeros if there is room left.
unfoldable pub fill_payload : Bytes → Bytes → Bytes
fill_payload payload bytes =
    let copied = copy_over bytes payload in
    if ltb (length bytes) slot_payload then zero_from (length bytes) copied else copied

-- `head.wrapping_sub(tail) >= RING_CAPACITY`
unfoldable pub is_full : ℕ → ℕ → Bool
is_full head tail = leb ring_capacity (sub64 head tail)

-- The body of `try_publish` below its `assert!`.
unfoldable pub publish : SpscRing → RingProducer → Bytes → Bool × SpscRing × RingProducer
publish ring prod bytes =
    let head = prod.next_seq in
    let slot = ring.slots (slot_index head) in
    let filled : Slot = record { seq = add64 head 1; payload = fill_payload slot.payload bytes } in
    if is_full head ring.tail then (false, ring, prod) else (
      true,
      record ring { head = add64 head 1; slots = update ring.slots (slot_index head) filled },
      record { next_seq = add64 head 1 },
    )

-- `none` is the panic of the `assert!`.
unfoldable pub try_publish :
    SpscRing → RingProducer → Bytes → Option (Bool × SpscRing × RingProducer)
try_publish ring prod bytes =
    if leb (length bytes) slot_payload then some (publish ring prod bytes) else none

-- The consumer's buffer after the copy of a whole payload.
unfoldable pub copy_payload : Bytes → Bytes → Bytes
copy_payload payload out = copy_over (take slot_payload payload) out

-- The body of `try_consume` below its `assert!`: the count that it returns, the buffer, the ring and
-- the handle.
unfoldable pub consume :
    SpscRing → RingConsumer → Bytes → Option ℕ × Bytes × SpscRing × RingConsumer
consume ring cons out =
    let expected = add64 cons.next_seq 1 in
    let slot = ring.slots (slot_index cons.next_seq) in
    if not (slot.seq == expected) then (none, out, ring, cons) else (
      some slot_payload,
      copy_payload slot.payload out,
      record ring { tail = expected },
      record { next_seq = expected },
    )

unfoldable pub try_consume :
    SpscRing → RingConsumer → Bytes → Option (Option ℕ × Bytes × SpscRing × RingConsumer)
try_consume ring cons out =
    if leb slot_payload (length out) then some (consume ring cons out) else none

unfoldable pub pending : SpscRing → RingConsumer → ℕ
pending ring cons = saturating_sub ring.head cons.next_seq
