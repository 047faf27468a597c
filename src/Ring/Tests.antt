-- ===== src/Ring/Tests.antt =====
-- Rings of crates/shmbus/src/ring.rs at concrete states.
use dummy_benchmark.Base.{
  ℕ, ◌+◌, ◌-◌, ◌^◌, ◌≤◌, ◌<◌, ◌≡◌, ◌≢◌, ◌↔◌, refl, true, none, some, List, [], ◌∷◌, arith,
  replicate, ℕ_discrete,
}
use dummy_benchmark.Base.Bytes.{Bytes}
use dummy_benchmark.Ring.{
  SpscRing, ring_capacity, slot_payload, slot_index, fill_payload, is_full, publish, try_publish,
  consume, try_consume, init_in_place, new_producer, new_consumer, copy_payload,
}
use dummy_benchmark.Ring.Holds.{IsSized, init-Holds, pad}
use dummy_benchmark.Ring.Fifo
use dummy_benchmark.Ring.Fifo.{Op, put, get, Reply, published, consumed}
use dummy_benchmark.Ring.Refine.{run, run_refines}
use dummy_benchmark.Ring.Steps.{
  System, filling, copying, Reach, here, next, find_room, write_part, write_end, store_seq,
  store_head, find_message, copy_byte, store_tail, put_slot, get_slot, sees_message,
}
use dummy_benchmark.Ring.Threads.{start}
use dummy_benchmark.Ring.Safety.{delivery, no_slot_race, tests_exact}
use dummy_benchmark.Ring.Runs.{Ran, run-Reach}
use dummy_benchmark.Ring.Sequential.{Reach-trans, copy_more, copying-Reach}

-- Whatever an old file left in the cursors and the stamps.
abbrev used : SpscRing
used = record {
  head = 7;
  tail = 3;
  slots = λ i. record { seq = 9; payload = replicate slot_payload 5 };
}

used-IsSized : IsSized used.slots
used-IsSized i h = refl

abbrev fresh : SpscRing
fresh = record {
  head = 0;
  tail = 0;
  slots = λ i. record { seq = 0; payload = replicate slot_payload 5 };
}

abbrev zeros : Bytes
zeros = replicate slot_payload 0

abbrev script : List Op
script = get ∷ put (1 ∷ 2 ∷ []) ∷ put (3 ∷ []) ∷ get ∷ get ∷ get ∷ []

run-script :
    run fresh (record { next_seq = 0 }) (record { next_seq = 0 }) zeros script
    ≡ some (
        consumed none
        ∷ published true
        ∷ published true
        ∷ consumed (some (pad (1 ∷ 2 ∷ [])))
        ∷ consumed (some (pad (3 ∷ [])))
        ∷ consumed none
        ∷ [])
unfolding run try_publish publish fill_payload try_consume consume copy_payload is_full slot_index
    ℕ_discrete
run-script = refl

-- A message of 81 bytes fails the `assert!`.
too_long : try_publish fresh (record { next_seq = 0 }) (replicate 81 1) ≡ none
unfolding try_publish
too_long = refl

-- The cursor wraps and the ring goes on.
wraps_round :
    (publish
      (record fresh { head = 2 ^ 64 - 1; tail = 2 ^ 64 - 1 })
      (record { next_seq = 2 ^ 64 - 1 })
      []).2
    ≡ record { next_seq = 0 }
unfolding publish is_full
wraps_round = refl

run_refines_example :
    run fresh (record { next_seq = 0 }) (record { next_seq = 0 }) zeros script
    ≡ some (Fifo.run [] script)
unfolding init_in_place
run_refines_example =
    run_refines script {sent = λ _. []} {c = 0} {p = 0} (record { next_seq = 0 })
      (record { next_seq = 0 }) zeros (init-Holds used (λ _. []) used-IsSized) refl refl refl
      (omega arith)

-- The producer is in the middle of a second message while the consumer copies the first.
abbrev both_busy :
    (t : System) × Reach (start used) t
    × (t.producer ≡ filling (3 ∷ []))
    × (t.consumer ≡ copying (1 ∷ []))
unfolding is_full slot_index init_in_place new_producer new_consumer fill_payload ℕ_discrete
both_busy = (
  _,
  next
      (next
        (next
          (next
            (next
              (next
                (next (next here (find_room (1 ∷ 2 ∷ []) refl (omega arith) refl))
                  (write_part (1 ∷ 2 ∷ []) (replicate 80 1) refl refl))
                (write_end (1 ∷ 2 ∷ []) refl))
              (store_seq (1 ∷ 2 ∷ []) refl))
            (store_head refl))
          (find_room (3 ∷ []) refl (omega arith) refl))
        (find_message refl refl))
      (copy_byte [] refl (omega arith)),
  refl,
  refl,
)

abbrev one_waiting : (t : System) × Reach (start used) t
unfolding is_full slot_index init_in_place new_producer new_consumer fill_payload ℕ_discrete
one_waiting = (
  _,
  next
      (next
        (next (next here (find_room (1 ∷ 2 ∷ []) refl (omega arith) refl))
          (write_end (1 ∷ 2 ∷ []) refl))
        (store_seq (1 ∷ 2 ∷ []) refl))
      (store_head refl),
)

-- One message published and consumed.
abbrev one_delivered : (t : System) × Reach (start used) t × (t.consumed ≡ 1)
unfolding one_waiting copy_more
one_delivered = (
  _,
  next
      (Reach-trans (next one_waiting.1 (find_message refl refl))
        (copying-Reach 80 one_waiting.0 [] refl))
      (store_tail _ refl refl),
  refl,
)

delivery_example :
    (one_delivered.0.consumed ≤ one_delivered.0.published)
    × (one_delivered.0.published ≤ one_delivered.0.consumed + ring_capacity)
    × ((k : ℕ) → k < one_delivered.0.consumed → one_delivered.0.got k ≡ one_delivered.0.sent k)
delivery_example = delivery used used-IsSized one_delivered.1

no_slot_race_example : put_slot both_busy.0 ≢ get_slot both_busy.0
no_slot_race_example =
    no_slot_race used (3 ∷ []) (1 ∷ []) used-IsSized both_busy.1 both_busy.2 both_busy.3

tests_exact_example :
    ((is_full both_busy.0.prod.next_seq both_busy.0.ring.tail ≡ true)
      ↔ (both_busy.0.published ≡ both_busy.0.consumed + ring_capacity))
    × ((sees_message both_busy.0 ≡ true) ↔ (both_busy.0.consumed < both_busy.0.published))
tests_exact_example = tests_exact used used-IsSized both_busy.1

run-Reach_example : (t : System) × (rs : List Reply) × Ran (start used) zeros script t rs
unfolding init_in_place new_producer new_consumer
run-Reach_example =
    run-Reach used used-IsSized script (start used) zeros here refl refl refl
      (omega arith, (omega arith, tt))
