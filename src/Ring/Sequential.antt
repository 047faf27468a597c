-- ===== src/Ring/Sequential.antt =====
-- The shared accesses of a call of crates/shmbus/src/ring.rs, one after the other and undisturbed,
-- do what the whole call does.
use dummy_benchmark.Base.{
  ℕ, add64, zero, suc, ◌+◌, ◌≤◌, ◌≡◌, refl, sym, ap, ◌∙◌, fun_ext, true, false, some, [], ◌∷◌, ◌++◌,
  length, take, get_or, arith, length-append,
}
use dummy_benchmark.Base.Bytes.{Bytes, update, take_next, length-take_le}
use dummy_benchmark.Ring.{Slot, slot_payload, fill_payload, is_full, publish, consume}
use dummy_benchmark.Ring.Calls.{take_exact, copy_payload_whole}
use dummy_benchmark.Ring.Steps.{
  System, Publishing, Consuming, copying, Reach, here, next, find_room, write_end, store_seq,
  store_head, find_message, copy_byte, store_tail, put_slot, get_slot, sees_message,
}

pub Reach-trans : {s t u : System} → Reach s t → Reach t u → Reach s u
Reach-trans r here = r
Reach-trans r (next q st) = next (Reach-trans r q) st

-- Payload first and stamp second, or both at once: the same slots.
payload_then_seq :
    (slots : ℕ → Slot) (i n : ℕ) (x : Bytes)
    → let once = update slots i (record (slots i) { payload = x }) in
      update slots i (record { seq = n; payload = x }) ≡ update once i (record (once i) { seq = n })
payload_then_seq slots i n x = fun_ext (λ j. ground arith)

-- What a call of one end leaves alone of the other.
pub record SameConsumer (s t : System) : Type 0 where
  pub cons_same : t.cons ≡ s.cons
  pub consumer_same : t.consumer ≡ s.consumer
  pub consumed_same : t.consumed ≡ s.consumed
  pub got_same : t.got ≡ s.got

pub record SameProducer (s t : System) : Type 0 where
  pub prod_same : t.prod ≡ s.prod
  pub producer_same : t.producer ≡ s.producer
  pub published_same : t.published ≡ s.published

module _ (s : System) (bytes : Bytes) where
  -- A call of `try_publish` that finds room is four accesses, and leaves the ring and the handle that
  -- the whole function computes.
  pub publish-Reach :
      s.producer ≡ Publishing.idle
      → length bytes ≤ slot_payload
      → is_full s.prod.next_seq s.ring.tail ≡ false
      → (t : System) × Reach s t
        × (publish s.ring s.prod bytes ≡ (true, t.ring, t.prod))
        × (t.producer ≡ Publishing.idle)
        × (t.published ≡ s.published + 1)
        × SameConsumer s t
  unfolding publish
  publish-Reach at fits room = (
    _,
    next
        (next (next (next here (find_room bytes at fits room)) (write_end bytes refl))
          (store_seq bytes refl))
        (store_head refl),
    rw room (
        ap
          (λ f. (
            true,
            record { head = add64 s.prod.next_seq 1; tail = s.ring.tail; slots = f },
            record { next_seq = add64 s.prod.next_seq 1 },
          ))
          (payload_then_seq s.ring.slots (put_slot s) (add64 s.prod.next_seq 1)
            (fill_payload (s.ring.slots (put_slot s)).payload bytes))),
    refl,
    refl,
    record { cons_same = refl; consumer_same = refl; consumed_same = refl; got_same = refl },
  )

-- `n` more bytes of `x` behind those that are copied.
unfoldable pub copy_more : ℕ → Bytes → Bytes → Bytes
copy_more zero x done = done
copy_more (suc n) x done = copy_more n x (done ++ get_or x (length done) 0 ∷ [])

copy_more-eq-take :
    (n k : ℕ) (x : Bytes) → k + n ≤ length x → copy_more n x (take k x) ≡ take (k + n) x
unfolding copy_more
copy_more-eq-take zero k x h = ap (λ m. take m x) (omega arith)
copy_more-eq-take (suc n) k x h =
    rw (length-take_le k x (omega arith), take_next k x (omega arith))
      (copy_more-eq-take n (suc k) x (omega arith) ∙ ap (λ m. take m x) (omega arith))

pub copying-Reach :
    (n : ℕ) (s : System) (done : Bytes)
    → length done + n ≡ slot_payload
    → Reach
        (record s { consumer = copying done })
        (record s { consumer = copying (copy_more n (s.ring.slots (get_slot s)).payload done) })
unfolding copy_more
copying-Reach zero s done len = here
copying-Reach (suc n) s done len = Reach-trans (next here (copy_byte done refl (omega arith))) (
    copying-Reach n s (done ++ get_or (s.ring.slots (get_slot s)).payload (length done) 0 ∷ []) (
      omega (
        arith,
        length-append done (get_or (s.ring.slots (get_slot s)).payload (length done) 0 ∷ []),
      )))

copy_all : (x : Bytes) → length x ≡ slot_payload → copy_more slot_payload x [] ≡ x
copy_all x sized =
    copy_more-eq-take slot_payload 0 x (omega arith) ∙ take_exact (0 + slot_payload) x (sym sized)

-- A call of `try_consume` that finds a message is a load, one read for each byte and a store, and
-- leaves the buffer, the ring and the handle that the whole function computes.
pub consume-Reach :
    (s : System) (out : Bytes)
    → s.consumer ≡ Consuming.idle
    → sees_message s ≡ true
    → length (s.ring.slots (get_slot s)).payload ≡ slot_payload
    → length out ≡ slot_payload
    → (t : System) × Reach s t
      × (consume s.ring s.cons out ≡ (some slot_payload, t.got s.consumed, t.ring, t.cons))
      × (t.consumer ≡ Consuming.idle)
      × (t.consumed ≡ s.consumed + 1)
      × (length (t.got s.consumed) ≡ slot_payload)
      × SameProducer s t
unfolding consume
consume-Reach s out at sees sized len =
    let x = (s.ring.slots (get_slot s)).payload in
    let done = copy_more slot_payload x [] in
    let same = copy_all x sized in
    (
      _,
      next (Reach-trans (next here (find_message at sees)) (copying-Reach slot_payload s [] refl))
          (store_tail done refl (rw same sized)),
      ground (arith, copy_payload_whole x out sized len, same),
      refl,
      refl,
      ground (arith, same, sized),
      record { prod_same = refl; producer_same = refl; published_same = refl },
    )
