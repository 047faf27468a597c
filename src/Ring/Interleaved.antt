-- ===== src/Ring/Interleaved.antt =====
-- Every step of the two ends of crates/shmbus/src/ring.rs keeps the invariant, in any interleaving.
use dummy_benchmark.Base.{sym, ◌∙◌, ℕ, ◌+◌, ◌%◌, ◌^◌, ◌≡◌, refl, length, take, arith}
use dummy_benchmark.Base.Bytes.{take_all, Bytes, update}
use dummy_benchmark.Ring.{SpscRing, slot_payload, fill_payload}
use dummy_benchmark.Ring.Cursor.{slot_index-lt, slot_index-cursor, is_full_iff}
use dummy_benchmark.Ring.Holds.{IsSized, pad, Stores-scribble, Stores-stamp, Stores-read, ready_iff}
use dummy_benchmark.Ring.Calls.{fill_payload-eq-pad, length-pad}
use dummy_benchmark.Ring.Steps.{
  System, Publishing, Consuming, filling, filled, stamped, copying, Step, Reach, here, next,
  find_full, find_room, write_part, write_end, store_seq, store_head, find_empty, find_message,
  copy_byte, store_tail, put_slot,
}
use dummy_benchmark.Ring.Threads.{
  start, PublishingOk, ConsumingOk, Inv, start-Inv, producing, copied, put_slot_at, source,
  copied_byte,
}

-- The consumer's part stays as it is while the producer publishes one more.
ConsumingOk-publish :
    (pc : Consuming) (c p : ℕ) (sent : ℕ → Bytes) (x : Bytes)
    → ConsumingOk pc c p (sent c)
    → ConsumingOk pc c (p + 1) (update sent p x c)
ConsumingOk-publish Consuming.idle c p sent x h = tt
ConsumingOk-publish (copying done) c p sent x h = ground arith

-- The producer's part stays as it is while the consumer frees a slot.
PublishingOk-consume :
    (pc : Publishing) (c p head : ℕ) (x : Bytes)
    → PublishingOk pc c p head x
    → PublishingOk pc (c + 1) p head x
PublishingOk-consume Publishing.idle c p head x h = h
PublishingOk-consume (filling bytes) c p head x h = omega arith
PublishingOk-consume (filled bytes) c p head x h = (omega arith, h.1, h.2, h.3)
PublishingOk-consume stamped c p head x h = h

-- A copy as long as the message is the message.
whole_copy :
    (done x : Bytes)
    → done ≡ take (length done) x
    → length done ≡ slot_payload
    → length x ≡ slot_payload
    → done ≡ x
whole_copy done x e h k = e ∙ rw (h ∙ sym k) (take_all x)

Step-Inv : {s t : System} → Step s t → Inv s → Inv t
Step-Inv (find_full bytes at full) v = v
Step-Inv {s} (find_room bytes at fits room) v = record {
  stores = v.stores;
  prod_at = v.prod_at;
  cons_at = v.cons_at;
  tail_at = v.tail_at;
  publishing = ground (arith, is_full_iff s.consumed s.published);
  consuming = v.consuming;
  delivered = v.delivered;
}
Step-Inv {s} (write_part bytes x at len) v = record {
  stores = ground (arith, slot_index-cursor s.published, Stores-scribble v.stores x);
  prod_at = v.prod_at;
  cons_at = v.cons_at;
  tail_at = v.tail_at;
  publishing = ground arith;
  consuming = v.consuming;
  delivered = v.delivered;
}
Step-Inv {s} (write_end bytes at) v =
    let (room, fits, head_at) = producing v (filling bytes) at in
    let same : fill_payload (s.ring.slots (put_slot s)).payload bytes ≡ pad bytes =
      fill_payload-eq-pad (s.ring.slots (put_slot s)).payload bytes
        (v.stores.sized (put_slot s) (slot_index-lt s.prod.next_seq)) fits in
    record {
      stores =
          ground
            (arith, put_slot_at v, length-pad bytes fits, Stores-scribble v.stores (pad bytes));
      prod_at = v.prod_at;
      cons_at = v.cons_at;
      tail_at = v.tail_at;
      publishing = (room, fits, head_at, ground arith);
      consuming = v.consuming;
      delivered = v.delivered;
    }
Step-Inv {s} (store_seq bytes at) v =
    let (room, fits, head_at, body) = producing v (filled bytes) at in
    record {
      stores = ground (
        arith,
        put_slot_at v,
        length-pad bytes fits,
        Stores-stamp v.stores (record { seq = (s.published + 1) % 2 ^ 64; payload = pad bytes })
            (pad bytes) refl refl,
      );
      prod_at = ground arith;
      cons_at = v.cons_at;
      tail_at = v.tail_at;
      publishing = ground arith;
      consuming =
          ConsumingOk-publish s.consumer s.consumed s.published s.sent (pad bytes) v.consuming;
      delivered = λ k h. ground (arith, v.delivered k);
    }
Step-Inv {s} (store_head at) v = record {
  stores = v.stores;
  prod_at = v.prod_at;
  cons_at = v.cons_at;
  tail_at = v.tail_at;
  publishing = v.prod_at;
  consuming = v.consuming;
  delivered = v.delivered;
}
Step-Inv (find_empty at none_left) v = v
Step-Inv {s} (find_message at ready) v = record {
  stores = v.stores;
  prod_at = v.prod_at;
  cons_at = v.cons_at;
  tail_at = v.tail_at;
  publishing = v.publishing;
  consuming = ground (arith, slot_index-cursor s.consumed, ready_iff v.stores);
  delivered = v.delivered;
}
Step-Inv {s} (copy_byte done at more) v = record {
  stores = v.stores;
  prod_at = v.prod_at;
  cons_at = v.cons_at;
  tail_at = v.tail_at;
  publishing = v.publishing;
  consuming = copied_byte v done more (copied v (copying done) at);
  delivered = v.delivered;
}
Step-Inv {s} (store_tail done at whole) v =
    let (ready, within, same) = copied v (copying done) at in
    record {
      stores = Stores-read v.stores ready;
      prod_at = v.prod_at;
      cons_at = ground arith;
      tail_at = ground arith;
      publishing =
          PublishingOk-consume s.producer s.consumed s.published s.ring.head
            (s.ring.slots (put_slot s)).payload v.publishing;
      consuming = tt;
      delivered = λ k h.
          ground (arith, v.delivered k, whole_copy done (s.sent s.consumed), (source v ready).1);
    }

pub Reach-Inv : (ring : SpscRing) {s : System} → IsSized ring.slots → Reach (start ring) s → Inv s
Reach-Inv ring sized here = start-Inv ring sized
Reach-Inv ring sized (next r st) = Step-Inv st (Reach-Inv ring sized r)
