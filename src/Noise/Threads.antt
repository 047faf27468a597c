-- ===== src/Noise/Threads.antt =====
-- The noise threads of crates/shmbus/src/noise.rs and their shutdown, with the stop flag that they
-- share. A round of a thread, with the load of the flag in front of it, is one step; each load sees the
-- latest store.
pub mod Ends
use dummy_benchmark.Base.{
  ℕ, zero, suc, ◌+◌, ◌≡◌, Bool, true, false, Option, none, some, List, [], ◌∷◌, ◌++◌, length, map,
  ltb, if◌then◌else◌,
}
use mathlib.Core.Option
use dummy_benchmark.Host.Pinning.{PinError, os_error, out_of_set, cpu_setsize}
use dummy_benchmark.Text.{Text, is_empty, Result, ok, err}
use dummy_benchmark.Noise.{JoinError, spawn_noise, Noise, start_noise, noise_steps}

-- What a thread prints before its loop; it goes on after an error.
pub data Warning : Type 0 where
  pin_failed : ℕ → ℕ → Warning
  join_failed : Text → JoinError ℕ → Warning

unfoldable pub warn {ℓ} : {E : Type ℓ} → (E → Warning) → Result {ℓ, 0} E Unit → List Warning
warn wrap (ok _) = []
warn wrap (err e) = wrap e ∷ []

module _ (pin_to_cpu : ℕ → Result {0, 0} PinError Unit)
    (join_thread : Text → Result {0, 0} (JoinError ℕ) Unit) where
  -- `none` is the panic of the thread.
  unfoldable pub pin_worker : Option ℕ → Option (List Warning)
  pin_worker none = some []
  pin_worker (some c) = elim (pin_to_cpu c) [
    | ok _ ↦ some []
    | err e ↦ elim e [ os_error n ↦ some (pin_failed c n ∷ []) | out_of_set ↦ none ]
  ]

  -- `noise_worker` before its loop.
  unfoldable pub enter : Option ℕ → Text → Option (List Warning)
  unfolding pin_worker
  enter pin_cpu group =
      Option.map
        (λ ws. ws ++ (if is_empty group then [] else warn (join_failed group) (join_thread group)))
        (pin_worker pin_cpu)

-- A thread is in its loop, or has left it or never come to it.
pub data Phase : Type 0 where
  working : Noise → Phase
  ended : Noise → Phase

-- The owner of the handle has not called `shutdown`, or has stopped the threads and joined some.
pub data Owner : Type 0 where
  going_on : Owner
  joining : ℕ → Owner

pub record NoiseHandle : Type 0 where
  pub threads : List Phase
  pub stop : Bool
  pub owner : Owner

-- A thread whose CPU is not in a set ends with a panic before its loop.
unfoldable pub first_phase : Option ℕ → Phase
first_phase none = working start_noise
first_phase (some c) = if ltb c cpu_setsize then working start_noise else ended start_noise

-- The handle that `spawn_noise` returns, from the pins of the threads.
unfoldable pub spawned : List (Option ℕ) → NoiseHandle
unfolding first_phase
spawned pins = record { threads = map first_phase pins; stop = false; owner = going_on }

pub data Step : NoiseHandle → NoiseHandle → Type 0 where
  -- `while !stop.load(..)`, and a round
  work :
      {o : Owner} (before after : List Phase) (n : Noise)
      → Step
          (record { threads = before ++ working n ∷ after; stop = false; owner = o })
          (record {
            threads = before ++ working (noise_steps 256 n) ∷ after;
            stop = false;
            owner = o;
          })
  leave :
      {o : Owner} (before after : List Phase) (n : Noise)
      → Step
          (record { threads = before ++ working n ∷ after; stop = true; owner = o })
          (record { threads = before ++ ended n ∷ after; stop = true; owner = o })
  -- `self.stop.store(true, ..)`
  store_stop :
      {b : Bool} (ps : List Phase)
      → Step
          (record { threads = ps; stop = b; owner = going_on })
          (record { threads = ps; stop = true; owner = joining 0 })
  -- `t.join()` of the next thread, which waits until that has ended
  join :
      {b : Bool} (before after : List Phase) (n : Noise) (k : ℕ)
      → length before ≡ k
      → Step
          (record { threads = before ++ ended n ∷ after; stop = b; owner = joining k })
          (record { threads = before ++ ended n ∷ after; stop = b; owner = joining (suc k) })

pub data Reach (s : NoiseHandle) : NoiseHandle → Type 0 where
  here : Reach s s
  next : {t u : NoiseHandle} → Reach s t → Step t u → Reach s u
