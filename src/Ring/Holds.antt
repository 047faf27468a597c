-- ===== src/Ring/Holds.antt =====
-- What the ring of crates/shmbus/src/ring.rs holds: positions `c` up to `p` are published and unread,
-- position `k` in slot `k % ring_capacity`, stamped with `k + 1`.
use dummy_benchmark.Base.{
  refl, ℕ, ◌+◌, ◌-◌, ◌%◌, ◌^◌, ◌≤◌, ◌<◌, ◌≡◌, ◌↔◌, true, arith, length, ◌==◌, add64, dec_lt, List,
  [], ◌∷◌, ◌++◌, replicate, ap, zero, suc,
}
use dummy_benchmark.Base.Bytes.{Bytes, update}
use dummy_benchmark.Ring.Cursor.{position-eq_of_mod}
use dummy_benchmark.Ring.{SpscRing, Slot, ring_capacity, slot_payload, init_in_place}

-- `sent k` is the payload of the message at position `k`, counted from the start of the bus.
pub record Stores (slots : ℕ → Slot) (sent : ℕ → Bytes) (c p : ℕ) : Type 0 where
  pub ordered : c ≤ p
  pub bounded : p ≤ c + ring_capacity
  pub stamped :
      (k : ℕ) → k < p → p ≤ k + ring_capacity → (slots (k % ring_capacity)).seq ≡ (k + 1) % 2 ^ 64
  pub blank : (i : ℕ) → p ≤ i → i < ring_capacity → (slots i).seq ≡ 0
  pub stored : (k : ℕ) → c ≤ k → k < p → (slots (k % ring_capacity)).payload ≡ sent k
  pub sized : (i : ℕ) → i < ring_capacity → length (slots i).payload ≡ slot_payload

-- The same between two calls, when the cursors in shared memory agree with the handles.
pub record Holds (ring : SpscRing) (sent : ℕ → Bytes) (c p : ℕ) : Type 0 where
  pub stores : Stores ring.slots sent c p
  pub head_at : ring.head ≡ p % 2 ^ 64
  pub tail_at : ring.tail ≡ c % 2 ^ 64

-- The payload area of a message.
abbrev pub pad : Bytes → Bytes
pad bytes = bytes ++ replicate (slot_payload - length bytes) 0

-- Every slot's array has its declared length.
abbrev pub IsSized : (ℕ → Slot) → Type 0
IsSized slots = (i : ℕ) → i < ring_capacity → length (slots i).payload ≡ slot_payload

pub init-Holds :
    (ring : SpscRing) (sent : ℕ → Bytes) → IsSized ring.slots → Holds (init_in_place ring) sent 0 0
unfolding init_in_place
init-Holds ring sent sized = record {
  stores = record {
    ordered = omega arith;
    bounded = omega arith;
    stamped = λ k h _. absurd (omega arith);
    blank = λ i _ _. refl;
    stored = λ k _ h. absurd (omega arith);
    sized = sized;
  };
  head_at = refl;
  tail_at = refl;
}

module _ {slots : ℕ → Slot} {sent : ℕ → Bytes} {c p : ℕ} (st : Stores slots sent c p) where
  open st use {ordered, bounded, stamped, blank, stored, sized}

  -- The consumer's test, read at its own slot, says whether a message is waiting.
  pub ready_iff : (((slots (c % ring_capacity)).seq == add64 (c % 2 ^ 64) 1) ≡ true) ↔ (c < p)
  ready_iff = elim (dec_lt c p) [
    | yes h ↦ ground (arith, stamped c)
    | no h ↦ elim (dec_lt p ring_capacity) [
      | yes early ↦ ground (arith, blank c)
      | no late ↦ ground (arith, stamped (p - ring_capacity))
    ]
  ]

  -- A write to a payload that no unread message occupies.
  pub Stores-scribble :
      (x : Bytes)
      → p < c + ring_capacity
      → length x ≡ slot_payload
      → Stores
          (update slots (p % ring_capacity) (record (slots (p % ring_capacity)) { payload = x }))
          sent
          c
          p
  Stores-scribble x room len = record {
    ordered = ordered;
    bounded = bounded;
    stamped = λ k h j. ground (arith, stamped k);
    blank = λ i h j. ground (arith, blank i);
    stored = λ k h j. ground (arith, stored k, position-eq_of_mod k p);
    sized = λ i h. ground (arith, sized i);
  }

  -- The stamp makes the message at position `p` one of those that wait.
  pub Stores-stamp :
      (sl : Slot) (x : Bytes)
      → sl.seq ≡ (p + 1) % 2 ^ 64
      → sl.payload ≡ x
      → p < c + ring_capacity
      → length x ≡ slot_payload
      → Stores (update slots (p % ring_capacity) sl) (update sent p x) c (p + 1)
  Stores-stamp sl x stamp body room len = record {
    ordered = omega arith;
    bounded = omega arith;
    stamped = λ k h j. ground (arith, stamped k, position-eq_of_mod k p);
    blank = λ i h j. ground (arith, blank i);
    stored = λ k h j. ground (arith, stored k, position-eq_of_mod k p);
    sized = λ i h. ground (arith, sized i);
  }

  pub Stores-read : c < p → Stores slots sent (c + 1) p
  Stores-read h = record {
    ordered = omega arith;
    bounded = omega arith;
    stamped = stamped;
    blank = blank;
    stored = λ k j. stored k (omega arith);
    sized = sized;
  }

-- The messages at `n` positions from `c` on, oldest first.
abbrev pub window : (ℕ → Bytes) → ℕ → ℕ → List Bytes
window sent c zero = []
window sent c (suc n) = sent c ∷ window sent (c + 1) n

pub length-window : (sent : ℕ → Bytes) (c n : ℕ) → length (window sent c n) ≡ n
length-window sent c zero = refl
length-window sent c (suc n) = ap suc (length-window sent (c + 1) n)

pub window-update :
    (sent : ℕ → Bytes) (x : Bytes) (c n p : ℕ)
    → p ≡ c + n
    → window (update sent p x) c (suc n) ≡ window sent c n ++ x ∷ []
window-update sent x c zero p e = ground arith
window-update sent x c (suc n) p e = ground (arith, window-update sent x (c + 1) n p)
