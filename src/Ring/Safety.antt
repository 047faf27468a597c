-- ===== src/Ring/Safety.antt =====
-- What holds in every state that the two ends of crates/shmbus/src/ring.rs reach together.
use dummy_benchmark.Base.{ℕ, ◌+◌, ◌≤◌, ◌<◌, ◌≡◌, ◌≢◌, ◌↔◌, true, arith}
use dummy_benchmark.Base.Bytes.{Bytes}
use dummy_benchmark.Ring.{SpscRing, ring_capacity, is_full}
use dummy_benchmark.Ring.Cursor.{slot_index-cursor, is_full_iff, position-eq_of_mod}
use dummy_benchmark.Ring.Holds.{IsSized, ready_iff}
use dummy_benchmark.Ring.Steps.{System, filling, copying, Reach, put_slot, get_slot, sees_message}
use dummy_benchmark.Ring.Interleaved.{Reach-Inv}
use dummy_benchmark.Ring.Threads.{start, put_slot_at, get_slot_at, producing, copied}

-- In every interleaving of publishing and consuming, started on an initialised ring, the messages
-- handed to the consumer's caller are those published, position by position, each whole and padded
-- to the payload size; and the ring never holds more than its capacity.
pub delivery :
    (ring : SpscRing) {s : System}
    → IsSized ring.slots
    → Reach (start ring) s
    → (s.consumed ≤ s.published)
      × (s.published ≤ s.consumed + ring_capacity)
      × ((k : ℕ) → k < s.consumed → s.got k ≡ s.sent k)
delivery ring sized r =
    let v = Reach-Inv ring sized r in (v.stores.ordered, v.stores.bounded, v.delivered)

-- While the producer writes a payload and the consumer copies one, they work on different slots.
pub no_slot_race :
    (ring : SpscRing) {s : System} (bytes done : Bytes)
    → IsSized ring.slots
    → Reach (start ring) s
    → s.producer ≡ filling bytes
    → s.consumer ≡ copying done
    → put_slot s ≢ get_slot s
no_slot_race ring {s} bytes done sized r at_put at_get same =
    let v = Reach-Inv ring sized r in
    let room = producing v (filling bytes) at_put in
    let ready = copied v (copying done) at_get in
    absurd (omega (arith, put_slot_at v, get_slot_at v, position-eq_of_mod s.consumed s.published))

-- In every reachable state the producer's test finds the ring full exactly when as many messages as
-- the ring has slots are unread, and the consumer's test passes exactly when one is unread: neither
-- end is turned away by a wrapped cursor or a stale stamp.
pub tests_exact :
    (ring : SpscRing) {s : System}
    → IsSized ring.slots
    → Reach (start ring) s
    → ((is_full s.prod.next_seq s.ring.tail ≡ true) ↔ (s.published ≡ s.consumed + ring_capacity))
      × ((sees_message s ≡ true) ↔ (s.consumed < s.published))
tests_exact ring {s} sized r =
    let v = Reach-Inv ring sized r in
    (
      rw (v.prod_at, v.tail_at)
          (is_full_iff s.consumed s.published v.stores.ordered v.stores.bounded),
      rw (v.cons_at, slot_index-cursor) (ready_iff v.stores),
    )
