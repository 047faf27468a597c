-- ===== src/Ring/Calls.antt =====
-- `try_publish` and `try_consume` of crates/shmbus/src/ring.rs, a whole call at a time.
use dummy_benchmark.Base.{
  refl, sym, ℕ, [], ◌+◌, ◌-◌, ◌%◌, ◌^◌, ◌≤◌, ◌<◌, ◌≡◌, inl, inr, true, false, none, some, arith,
  length, take, drop, ltb, Bool-cases, replicate, length-append, length-replicate,
}
use mathlib.Core.List.{append-nil}
use dummy_benchmark.Base.Bytes.{Bytes, update, zero_from-copy_over, take_all, drop_all}
use dummy_benchmark.Ring.{
  SpscRing, RingProducer, RingConsumer, ring_capacity, slot_payload, fill_payload, copy_payload,
  publish, consume,
}
use dummy_benchmark.Ring.Cursor.{slot_index-cursor, is_full_iff}
use dummy_benchmark.Ring.Holds.{Stores-stamp, Stores-read, Holds, pad, ready_iff}

drop_exact : (n : ℕ) (old : Bytes) → n ≡ length old → drop n old ≡ []
drop_exact n old e = rw e (drop_all old)

pub take_exact : (n : ℕ) (old : Bytes) → n ≡ length old → take n old ≡ old
take_exact n old e = rw e (take_all old)

-- The payload area holds the message padded with zeros, whatever it held before.
pub fill_payload-eq-pad :
    (old bytes : Bytes)
    → length old ≡ slot_payload
    → length bytes ≤ slot_payload
    → fill_payload old bytes ≡ pad bytes
unfolding fill_payload
fill_payload-eq-pad old bytes h k = elim (Bool-cases (ltb (length bytes) slot_payload)) [
  | inl less ↦ ground (arith, zero_from-copy_over bytes old)
  | inr whole ↦ ground (arith, drop_exact (length bytes) old)
]

-- A whole payload overwrites a buffer of the same size.
pub copy_payload_whole :
    (src out : Bytes)
    → length src ≡ slot_payload
    → length out ≡ slot_payload
    → copy_payload src out ≡ src
unfolding copy_payload
copy_payload_whole src out hs ho =
    rw (take_exact slot_payload src (sym hs), hs, drop_exact slot_payload out (sym ho))
      (append-nil src)

pub length-pad : (bytes : Bytes) → length bytes ≤ slot_payload → length (pad bytes) ≡ slot_payload
length-pad bytes h = omega (
  arith,
  length-append bytes (replicate (slot_payload - length bytes) 0),
  length-replicate {A = ℕ} (slot_payload - length bytes) 0,
)

module _ {ring : SpscRing} {sent : ℕ → Bytes} {c p : ℕ} (h : Holds ring sent c p) where
  open h use {stores, head_at, tail_at}
  open stores use {ordered, bounded, sized, stored}

  -- A full ring refuses the message, and nothing changes.
  pub publish-full :
      (prod : RingProducer) (bytes : Bytes)
      → prod.next_seq ≡ p % 2 ^ 64
      → p ≡ c + ring_capacity
      → publish ring prod bytes ≡ (false, ring, prod)
  unfolding publish
  publish-full prod bytes at full = ground (arith, is_full_iff c p ordered bounded)

  pub publish-room :
      (prod : RingProducer) (bytes : Bytes)
      → prod.next_seq ≡ p % 2 ^ 64
      → p < c + ring_capacity
      → length bytes ≤ slot_payload
      → let (done, ring', prod') = publish ring prod bytes in
        (done ≡ true)
        × Holds ring' (update sent p (pad bytes)) c (p + 1)
        × (prod'.next_seq ≡ (p + 1) % 2 ^ 64)
  unfolding publish
  publish-room prod bytes at room fits = ground (
    arith,
    is_full_iff c p ordered bounded,
    slot_index-cursor p,
    fill_payload-eq-pad (ring.slots (p % ring_capacity)).payload bytes,
    sized (p % ring_capacity),
    length-pad bytes fits,
    Stores-stamp stores (record { seq = (p + 1) % 2 ^ 64; payload = pad bytes }) (pad bytes) refl
        refl,
  )

  pub consume-empty :
      (cons : RingConsumer) (out : Bytes)
      → cons.next_seq ≡ c % 2 ^ 64
      → p ≡ c
      → consume ring cons out ≡ (none, out, ring, cons)
  unfolding consume
  consume-empty cons out at none_left = ground (arith, slot_index-cursor c, ready_iff stores)

  -- A waiting message is copied out whole, and its slot is free again.
  pub consume-ready :
      (cons : RingConsumer) (out : Bytes)
      → cons.next_seq ≡ c % 2 ^ 64
      → c < p
      → length out ≡ slot_payload
      → let (n, out', ring', cons') = consume ring cons out in
        (n ≡ some slot_payload)
        × (out' ≡ sent c)
        × Holds ring' sent (c + 1) p
        × (cons'.next_seq ≡ (c + 1) % 2 ^ 64)
  unfolding consume
  consume-ready cons out at ready len = ground (
    arith,
    slot_index-cursor c,
    ready_iff stores,
    copy_payload_whole (ring.slots (c % ring_capacity)).payload out
        (sized (c % ring_capacity) (omega arith)) len,
    stored c,
    Stores-read stores ready,
  )
