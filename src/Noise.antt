-- ===== src/Noise.antt =====
-- crates/shmbus/src/noise.rs: the pinning of the noise threads and the loop of one; and joining a
-- resctrl group, crates/shmbus/src/resctrl.rs.
pub mod Bounds
pub mod Threads
mod Tests
use Prim.Native.Nat.{bit_and, bit_xor}
use dummy_benchmark.Base.{
  ℕ, zero, suc, ◌+◌, ◌-◌, ◌*◌, ◌/◌, ◌%◌, ◌^◌, Bool, true, false, Option, none, some, List, [], ◌∷◌,
  ◌++◌, length, get_elem?, get_or, set, replicate, if◌then◌else◌, add64, mul64,
}
use dummy_benchmark.Text.{Text, is_empty, Result, ok, err}

-- The CPU of thread `i`: none without a list, else round robin.
unfoldable pub pin_of : List ℕ → ℕ → Option ℕ
pin_of [] i = none
pin_of (c ∷ cpus) i = get_elem? (c ∷ cpus) (i % length (c ∷ cpus))

-- The pins of `n` threads, the last thread first.
unfoldable pub spawn_noise : ℕ → List ℕ → List (Option ℕ)
spawn_noise zero cpus = []
spawn_noise (suc i) cpus = spawn_noise i cpus ++ pin_of cpus i ∷ []

-- `vec![0; 128 * 1024]`
abbrev pub scratch_len : ℕ
scratch_len = 128 * 1024

pub record Noise : Type 0 where
  pub x : ℕ
  pub buf : List ℕ

unfoldable pub start_noise : Noise
start_noise = record { x = 0xCAFE_BABE_DEAD_BEEF; buf = replicate scratch_len 0 }

-- `x.wrapping_mul(..).wrapping_add(..)`, then `x ^= x >> 17`
unfoldable pub next_x : ℕ → ℕ
next_x x = let y = add64 (mul64 x 6364136223846793005) 1442695040888963407 in bit_xor y (y / 2 ^ 17)

-- `(x as usize) & (buf.len() - 1)`
unfoldable pub noise_index : ℕ → List ℕ → ℕ
noise_index x buf = bit_and x (length buf - 1)

unfoldable pub noise_step : Noise → Noise
noise_step n =
    let x = next_x n.x in
    let i = noise_index x n.buf in record { x = x; buf = set n.buf i (add64 (get_or n.buf i 0) x) }

-- `k` steps of the inner loop
unfoldable pub noise_steps : ℕ → Noise → Noise
noise_steps zero n = n
noise_steps (suc k) n = noise_steps k (noise_step n)

-- `join_group`: whether `tasks` exists and what the write answers are the file system's.
pub data JoinError (E : Type 0) : Type 0 where
  not_found : JoinError E
  write_failed : E → JoinError E

unfoldable pub join_group :
    {E : Type 0} → Text → Bool → Bool → Result {0, 0} E Unit → Result {0, 0} (JoinError E) Unit
join_group group allow_missing exists written =
    if is_empty group
    then ok tt
    else if exists
    then elim written [ ok u ↦ ok u | err e ↦ err (write_failed e) ]
    else if allow_missing
    then ok tt
    else err not_found
