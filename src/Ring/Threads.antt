-- ===== src/Ring/Threads.antt =====
-- The invariant of a ring of crates/shmbus/src/ring.rs between the steps of its two ends.
use dummy_benchmark.Base.{
  subst, ap, ◌∙◌, ℕ, suc, ◌+◌, ◌-◌, ◌%◌, ◌^◌, ◌≤◌, ◌<◌, ◌≡◌, refl, [], ◌∷◌, ◌++◌, length, get_or,
  take, arith, length-append,
}
use dummy_benchmark.Base.Bytes.{take_next, Bytes}
use dummy_benchmark.Ring.{
  SpscRing, ring_capacity, slot_payload, new_producer, new_consumer, init_in_place,
}
use dummy_benchmark.Ring.Cursor.{slot_index-cursor}
use dummy_benchmark.Ring.Holds.{Stores, IsSized, pad, init-Holds}
use dummy_benchmark.Ring.Steps.{
  System, Publishing, Consuming, filling, filled, stamped, copying, put_slot, get_slot,
}

-- Two handles on a ring that has just been initialised.
abbrev pub start : SpscRing → System
start ring = record {
  ring = init_in_place ring;
  prod = new_producer (init_in_place ring);
  cons = new_consumer (init_in_place ring);
  producer = Publishing.idle;
  consumer = Consuming.idle;
  published = 0;
  sent = λ _. [];
  consumed = 0;
  got = λ _. [];
}

-- What the producer knows: room for its message, and what it has written. The arguments are the
-- counts `c` and `p`, the shared `head` and the payload of the producer's slot.
abbrev pub PublishingOk : Publishing → ℕ → ℕ → ℕ → Bytes → Type 0
PublishingOk Publishing.idle c p head payload = head ≡ p % 2 ^ 64
PublishingOk (filling bytes) c p head payload =
    (p < c + ring_capacity) × (length bytes ≤ slot_payload) × (head ≡ p % 2 ^ 64)
PublishingOk (filled bytes) c p head payload =
    (p < c + ring_capacity)
    × (length bytes ≤ slot_payload)
    × (head ≡ p % 2 ^ 64)
    × (payload ≡ pad bytes)
PublishingOk stamped c p head payload = head ≡ (p - 1) % 2 ^ 64

-- What the consumer knows: the message that it copies is there, and this part of it is copied.
abbrev pub ConsumingOk : Consuming → ℕ → ℕ → Bytes → Type 0
ConsumingOk Consuming.idle c p x = Unit
ConsumingOk (copying done) c p x =
    (c < p) × (length done ≤ slot_payload) × (done ≡ take (length done) x)

pub record Inv (s : System) : Type 0 where
  pub stores : Stores s.ring.slots s.sent s.consumed s.published
  pub prod_at : s.prod.next_seq ≡ s.published % 2 ^ 64
  pub cons_at : s.cons.next_seq ≡ s.consumed % 2 ^ 64
  pub tail_at : s.ring.tail ≡ s.consumed % 2 ^ 64
  pub publishing :
      PublishingOk s.producer s.consumed s.published s.ring.head (s.ring.slots (put_slot s)).payload
  pub consuming : ConsumingOk s.consumer s.consumed s.published (s.sent s.consumed)
  pub delivered : (k : ℕ) → k < s.consumed → s.got k ≡ s.sent k

pub start-Inv : (ring : SpscRing) → IsSized ring.slots → Inv (start ring)
unfolding new_producer new_consumer init_in_place
start-Inv ring sized = record {
  stores = (init-Holds ring (λ _. []) sized).stores;
  prod_at = refl;
  cons_at = refl;
  tail_at = refl;
  publishing = refl;
  consuming = tt;
  delivered = λ k h. absurd (omega arith);
}

module _ {s : System} (v : Inv s) where
  pub producing :
      (pc : Publishing)
      → s.producer ≡ pc
      → PublishingOk pc s.consumed s.published s.ring.head (s.ring.slots (put_slot s)).payload
  producing pc at =
      subst
        (λ w. PublishingOk w s.consumed s.published s.ring.head (s.ring.slots (put_slot s)).payload)
        at v.publishing

  pub copied :
      (pc : Consuming) → s.consumer ≡ pc → ConsumingOk pc s.consumed s.published (s.sent s.consumed)
  copied pc at =
      subst (λ w. ConsumingOk w s.consumed s.published (s.sent s.consumed)) at v.consuming

  pub put_slot_at : put_slot s ≡ s.published % ring_capacity
  put_slot_at = rw (v.prod_at, slot_index-cursor s.published)

  pub get_slot_at : get_slot s ≡ s.consumed % ring_capacity
  get_slot_at = rw (v.cons_at, slot_index-cursor s.consumed)

  -- The slot that the consumer copies from holds the whole message.
  pub source :
      s.consumed < s.published
      → ((s.ring.slots (get_slot s)).payload ≡ s.sent s.consumed)
        × (length (s.sent s.consumed) ≡ slot_payload)
  source h =
      (rw get_slot_at same, rw (← same) (v.stores.sized (s.consumed % ring_capacity) (omega arith)))
    where
      same : (s.ring.slots (s.consumed % ring_capacity)).payload ≡ s.sent s.consumed
      same = v.stores.stored s.consumed (omega arith) h

  pub copied_byte :
      (done : Bytes)
      → length done < slot_payload
      → ConsumingOk (copying done) s.consumed s.published (s.sent s.consumed)
      → ConsumingOk
          (copying (done ++ get_or (s.ring.slots (get_slot s)).payload (length done) 0 ∷ []))
          s.consumed
          s.published
          (s.sent s.consumed)
  copied_byte done more (ready, within, same) = (ready, omega (arith, len), rw len longer)
    where
      len :
          length (done ++ get_or (s.ring.slots (get_slot s)).payload (length done) 0 ∷ [])
          ≡ suc (length done)
      len = omega (
        arith,
        length-append done (get_or (s.ring.slots (get_slot s)).payload (length done) 0 ∷ []),
      )

      longer :
          done ++ get_or (s.ring.slots (get_slot s)).payload (length done) 0 ∷ []
          ≡ take (suc (length done)) (s.sent s.consumed)
      longer = rw ((source ready).0) (
          ap (λ t. t ++ get_or (s.sent s.consumed) (length done) 0 ∷ []) same
          ∙ take_next (length done) (s.sent s.consumed) (rw ((source ready).1) more))
