-- ===== src/Host/Pinning.antt =====
-- crates/shmbus/src/cpu.rs: pinning a thread, on `sched_setaffinity` as an argument. A set of CPUs is
-- their test; those of libc end at 1024 CPUs.
use dummy_benchmark.Base.{
  ℕ, ◌<◌, ◌≤◌, ◌≡◌, refl, ◌↔◌, ◌⊎◌, inl, inr, Bool, true, false, Option, none, some, List, [], ◌∷◌,
  ltb, ◌==◌, if◌then◌else◌, All, arith,
}
use dummy_benchmark.Text.{Result, ok, err}

abbrev pub CpuSet : Type 0
CpuSet = ℕ → Bool

-- The CPUs that a set has bits for.
abbrev pub cpu_setsize : ℕ
cpu_setsize = 1024

-- `CPU_SET`; `none` is the panic of its index.
unfoldable pub set_cpu : ℕ → CpuSet → Option CpuSet
set_cpu c set = if ltb c cpu_setsize then some (λ d. if c == d then true else set d) else none

-- The loop over `cpus`, from the set that `CPU_ZERO` has left.
unfoldable pub set_cpus : List ℕ → CpuSet → Option CpuSet
unfolding set_cpu
set_cpus [] set = some set
set_cpus (c ∷ cpus) set = elim (set_cpu c set) [ none ↦ none | some set' ↦ set_cpus cpus set' ]

-- The kernel has refused the set, or the thread has panicked before it was asked.
pub data PinError : Type 0 where
  os_error : ℕ → PinError
  out_of_set : PinError

unfoldable pub asked : Result {0, 0} ℕ Unit → Result {0, 0} PinError Unit
asked (ok _) = ok tt
asked (err e) = err (os_error e)

module _ (set_affinity : CpuSet → Result {0, 0} ℕ Unit) where
  unfoldable pub pin_to_cpus : List ℕ → Result {0, 0} PinError Unit
  pin_to_cpus [] = ok tt
  pin_to_cpus (c ∷ cpus) = elim (set_cpus (c ∷ cpus) (λ d. false)) [
    | none ↦ err out_of_set
    | some set ↦ asked (set_affinity set)
  ]

  unfoldable pub pin_to_cpu : ℕ → Result {0, 0} PinError Unit
  unfolding pin_to_cpus
  pin_to_cpu c = pin_to_cpus (c ∷ [])

-- The CPU is in the list.
abbrev pub IsListed : ℕ → List ℕ → Type 0
IsListed c [] = ⊥
IsListed c (d ∷ cpus) = (d ≡ c) ⊎ IsListed c cpus

abbrev pub AllInSet : List ℕ → Type 0
AllInSet cpus = All (λ c. c < cpu_setsize) cpus

set_cpus-true :
    (cpus : List ℕ) (set : CpuSet)
    → AllInSet cpus
    → (set' : CpuSet) × (set_cpus cpus set ≡ some set')
      × ((c : ℕ) → set' c ≡ true ↔ (IsListed c cpus ⊎ (set c ≡ true)))
unfolding set_cpus set_cpu
set_cpus-true [] set h = (
  set,
  refl,
  λ c. (λ e. inr e, λ e. elim e [ inl none_listed ↦ absurd none_listed | inr e' ↦ e' ]),
)
set_cpus-true (d ∷ cpus) set h =
    let with_d : CpuSet = λ c. if d == c then true else set c in
    let (set', done, iff) = set_cpus-true cpus with_d h.1 in
    (set', ground (arith, done, h.0), λ c. ground (arith, iff c))

-- Pinning to some CPUs that a set has room for comes to what the kernel answers for the set of exactly
-- these CPUs.
pub pin_to_cpus-IsListed :
    (set_affinity : CpuSet → Result {0, 0} ℕ Unit) (d : ℕ) (cpus : List ℕ)
    → AllInSet (d ∷ cpus)
    → (set : CpuSet) × (pin_to_cpus set_affinity (d ∷ cpus) ≡ asked (set_affinity set))
      × ((c : ℕ) → set c ≡ true ↔ IsListed c (d ∷ cpus))
unfolding pin_to_cpus
pin_to_cpus-IsListed set_affinity d cpus h =
    let (set, done, iff) = set_cpus-true (d ∷ cpus) (λ c. false) h in
    (
      set,
      rw (pin_to_cpus, done) refl,
      λ c. (
        λ e. elim ((iff c).0 e) [ inl listed ↦ listed | inr unset ↦ absurd (cc) ],
        λ listed. (iff c).1 (inl listed),
      ),
    )

-- Pinning to a CPU past the set panics, and the kernel is not asked.
pub pin_to_cpu_out :
    (set_affinity : CpuSet → Result {0, 0} ℕ Unit) (c : ℕ)
    → cpu_setsize ≤ c
    → pin_to_cpu set_affinity c ≡ err out_of_set
unfolding pin_to_cpu pin_to_cpus set_cpus set_cpu
pin_to_cpu_out set_affinity c h = ground arith
