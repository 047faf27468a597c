-- ===== src/Ring/Cursor.antt =====
-- The cursor arithmetic of crates/shmbus/src/ring.rs. A cursor is a count kept modulo 2 ^ 64, a slot
-- is found by a mask, and the fullness test is a wrapping difference.
use dummy_benchmark.Base.{ℕ, ◌+◌, ◌%◌, ◌^◌, ◌≤◌, ◌<◌, ◌≡◌, ◌↔◌, true, arith}
use dummy_benchmark.Base.Mask.{bit_and-low_ones}
use dummy_benchmark.Ring.{ring_capacity, slot_index, is_full}

-- The mask finds the slot of a position, also when the cursor has wrapped round.
pub slot_index-cursor : (k : ℕ) → slot_index (k % 2 ^ 64) ≡ k % ring_capacity
unfolding slot_index
slot_index-cursor k = omega (arith, bit_and-low_ones 14 (k % 2 ^ 64))

pub slot_index-lt : (k : ℕ) → slot_index k < ring_capacity
unfolding slot_index
slot_index-lt k = omega (arith, bit_and-low_ones 14 k)

-- With at most `ring_capacity` positions between the cursors, the test says whether all are taken.
pub is_full_iff :
    (c p : ℕ)
    → c ≤ p
    → p ≤ c + ring_capacity
    → (is_full (p % 2 ^ 64) (c % 2 ^ 64) ≡ true) ↔ (p ≡ c + ring_capacity)
unfolding is_full
is_full_iff c p h k = ground arith

-- Positions less than `ring_capacity` apart have different slots.
pub position-eq_of_mod :
    (i j : ℕ) → i ≤ j → j < i + ring_capacity → i % ring_capacity ≡ j % ring_capacity → i ≡ j
position-eq_of_mod i j h k e = omega arith
