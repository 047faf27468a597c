-- ===== src/Ring/Steps.antt =====
-- `try_publish` and `try_consume` of crates/shmbus/src/ring.rs, one shared access at a time, run by
-- two processes in any interleaving. Each acquire load sees the latest store: the accesses of one
-- word are totally ordered, and what a store releases stands before it in the order of the steps.
use dummy_benchmark.Base.{
  ℕ, ◌+◌, ◌≤◌, ◌<◌, ◌≡◌, Bool, true, false, [], ◌∷◌, ◌++◌, length, get_or, ◌==◌, add64,
}
use dummy_benchmark.Base.Bytes.{Bytes, update}
use dummy_benchmark.Ring.{
  SpscRing, RingProducer, RingConsumer, slot_payload, slot_index, fill_payload, is_full,
}
use dummy_benchmark.Ring.Holds.{pad}

-- Where the producer stands in `try_publish`, with what it still needs.
pub data Publishing : Type 0 where
  idle : Publishing
  filling : (bytes : Bytes) → Publishing  -- past the test, payload partly written
  filled : (bytes : Bytes) → Publishing  -- payload written, `seq` not yet
  stamped : Publishing  -- `seq` written, `head` not yet

-- Where the consumer stands in `try_consume`.
pub data Consuming : Type 0 where
  idle : Consuming
  copying : (done : Bytes) → Consuming  -- past the test, these bytes copied

-- The last four fields are no part of the program: they record what was published, position by
-- position, and what was handed to the consumer's caller.
pub record System : Type 0 where
  pub ring : SpscRing
  pub prod : RingProducer
  pub cons : RingConsumer
  pub producer : Publishing
  pub consumer : Consuming
  pub published : ℕ
  pub sent : ℕ → Bytes
  pub consumed : ℕ
  pub got : ℕ → Bytes

abbrev pub write_payload : SpscRing → ℕ → Bytes → SpscRing
write_payload ring i x = record ring {
  slots = update ring.slots i (record (ring.slots i) { payload = x });
}

abbrev pub write_seq : SpscRing → ℕ → ℕ → SpscRing
write_seq ring i n = record ring { slots = update ring.slots i (record (ring.slots i) { seq = n }) }

-- The slot that each end works on.
abbrev pub put_slot : System → ℕ
put_slot s = slot_index s.prod.next_seq

abbrev pub get_slot : System → ℕ
get_slot s = slot_index s.cons.next_seq

-- `seq == expected`
abbrev pub sees_message : System → Bool
sees_message s = (s.ring.slots (get_slot s)).seq == add64 s.cons.next_seq 1

pub data Step (s : System) : System → Type 0 where
  find_full :
      (bytes : Bytes)
      → s.producer ≡ Publishing.idle
      → is_full s.prod.next_seq s.ring.tail ≡ true
      → Step s s
  find_room :
      (bytes : Bytes)
      → s.producer ≡ Publishing.idle
      → length bytes ≤ slot_payload
      → is_full s.prod.next_seq s.ring.tail ≡ false
      → Step s (record s { producer = filling bytes })
  -- a part of the copy, in any order and of any size: the payload may hold anything meanwhile
  write_part :
      (bytes x : Bytes)
      → s.producer ≡ filling bytes
      → length x ≡ slot_payload
      → Step s (record s { ring = write_payload s.ring (put_slot s) x })
  write_end :
      (bytes : Bytes)
      → s.producer ≡ filling bytes
      → Step s (record s {
        ring =
            write_payload s.ring
              (put_slot s)
              (fill_payload (s.ring.slots (put_slot s)).payload bytes);
        producer = filled bytes;
      })
  store_seq :
      (bytes : Bytes)
      → s.producer ≡ filled bytes
      → Step s (record s {
        ring = write_seq s.ring (put_slot s) (add64 s.prod.next_seq 1);
        prod = record { next_seq = add64 s.prod.next_seq 1 };
        producer = stamped;
        published = s.published + 1;
        sent = update s.sent s.published (pad bytes);
      })
  store_head :
      s.producer ≡ stamped
      → Step s (record s {
        ring = record (s.ring) { head = s.prod.next_seq };
        producer = Publishing.idle;
      })
  find_empty : s.consumer ≡ Consuming.idle → sees_message s ≡ false → Step s s
  find_message :
      s.consumer ≡ Consuming.idle
      → sees_message s ≡ true
      → Step s (record s { consumer = copying [] })
  copy_byte :
      (done : Bytes)
      → s.consumer ≡ copying done
      → length done < slot_payload
      → Step s (record s {
        consumer =
            copying (done ++ get_or (s.ring.slots (get_slot s)).payload (length done) 0 ∷ []);
      })
  store_tail :
      (done : Bytes)
      → s.consumer ≡ copying done
      → length done ≡ slot_payload
      → Step s (record s {
        ring = record (s.ring) { tail = add64 s.cons.next_seq 1 };
        cons = record { next_seq = add64 s.cons.next_seq 1 };
        consumer = Consuming.idle;
        consumed = s.consumed + 1;
        got = update s.got s.consumed done;
      })

pub data Reach (s : System) : System → Type 0 where
  here : Reach s s
  next : {t u : System} → Reach s t → Step t u → Reach s u
