-- ===== src/Noise/Tests.antt =====
-- The noise threads of crates/shmbus/src/noise.rs and `join_group` of crates/shmbus/src/resctrl.rs at
-- concrete arguments.
use dummy_benchmark.Base.{ℕ, ◌+◌, ◌*◌, ◌≤◌, ◌⊎◌, ◌≡◌, refl, true, false, none, some, [], ◌∷◌}
use dummy_benchmark.Text.{codes, is_empty, ok, err}
use dummy_benchmark.Host.Pinning.{os_error, out_of_set}
use dummy_benchmark.Noise.Threads.{
  pin_failed, warn, pin_worker, enter, first_phase, working, ended, joining, NoiseHandle, spawned,
  Step, leave, store_stop, join, Reach, here, next,
}
use dummy_benchmark.Noise.Threads.Ends.{working_count, left, shutdown_ends}
use dummy_benchmark.Noise.{start_noise, spawn_noise, pin_of, not_found, write_failed, join_group}

pins :
    (spawn_noise 3 (2 ∷ 5 ∷ []) ≡ some 2 ∷ some 5 ∷ some 2 ∷ [])
    × (spawn_noise 2 [] ≡ none ∷ none ∷ [])
unfolding spawn_noise pin_of
pins = (refl, refl)

-- A missing group is an error only where it must be there; a write that fails always is one.
joins :
    (join_group {E = ℕ} (codes "hot") false false (ok tt) ≡ err not_found)
    × (join_group {E = ℕ} (codes "hot") true false (ok tt) ≡ ok tt)
    × (join_group {E = ℕ} (codes "hot") true true (err 13) ≡ err (write_failed 13))
unfolding join_group is_empty
joins = (refl, refl, refl)

-- A thread that cannot be pinned is reported, and it joins its group all the same; one whose CPU is
-- past the set panics.
warns :
    (enter (λ c. err (os_error 22)) (λ group. ok tt) (some 4) (codes "noise")
      ≡ some (pin_failed 4 22 ∷ []))
    × (enter (λ c. err out_of_set) (λ group. ok tt) (some 4_000) (codes "noise") ≡ none)
unfolding enter pin_worker warn is_empty
warns = (refl, refl)

-- Of two threads the first has ended and is joined.
abbrev half_joined : NoiseHandle
half_joined = record {
  threads = ended start_noise ∷ working start_noise ∷ [];
  stop = true;
  owner = joining 1;
}

half_joined-Reach : Reach (spawned (spawn_noise 2 [])) half_joined
unfolding spawned spawn_noise pin_of first_phase
half_joined-Reach =
    next (next (next here (store_stop _)) (leave [] (working start_noise ∷ []) start_noise))
      (join [] (working start_noise ∷ []) start_noise 0 refl)

shutdown_ends_example :
    let joined : ℕ = 1 in
    (((joined ≡ 2) × (working_count half_joined.threads ≡ 0))
      ⊎ ((t : NoiseHandle) × Step half_joined t))
    × ((t : NoiseHandle) → Step half_joined t → left t + 1 ≡ left half_joined)
    × (left half_joined ≤ 2 * 2)
shutdown_ends_example = shutdown_ends 2 1 [] half_joined-Reach refl
