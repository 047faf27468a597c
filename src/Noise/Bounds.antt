-- ===== src/Noise/Bounds.antt =====
-- The indices of crates/shmbus/src/noise.rs stay in bounds.
use dummy_benchmark.Base.{
  ℕ, zero, suc, ◌%◌, ◌<◌, ◌≡◌, refl, sym, ap, ◌∙◌, some, List, [], ◌∷◌, ◌++◌, arith, length,
  get_elem?, length-set, length-append, length-replicate, dec_lt,
}
use dummy_benchmark.Base.Mask.{bit_and-low_ones}
use dummy_benchmark.Noise.{
  pin_of, spawn_noise, scratch_len, Noise, start_noise, noise_index, noise_step, noise_steps,
}

get_elem?-lt {ℓ} :
    {A : Type ℓ} (xs : List A) (i : ℕ) → i < length xs → (x : A) × (get_elem? xs i ≡ some x)
get_elem?-lt [] i h = absurd (omega arith)
get_elem?-lt (x ∷ xs) zero h = (x, refl)
get_elem?-lt (x ∷ xs) (suc i) h = get_elem?-lt xs i (omega arith)

pub length-spawn_noise : (n : ℕ) (cpus : List ℕ) → length (spawn_noise n cpus) ≡ n
unfolding spawn_noise
length-spawn_noise zero cpus = refl
length-spawn_noise (suc n) cpus =
    omega
      (arith, length-append (spawn_noise n cpus) (pin_of cpus n ∷ []), length-spawn_noise n cpus)

get_elem?-append :
    {A : Type 0} (xs ys : List A) (i : ℕ) → i < length xs → get_elem? (xs ++ ys) i ≡ get_elem? xs i
get_elem?-append [] ys i h = absurd (omega arith)
get_elem?-append (x ∷ xs) ys zero h = refl
get_elem?-append (x ∷ xs) ys (suc i) h = get_elem?-append xs ys i (omega arith)

get_elem?-last : {A : Type 0} (xs : List A) (y : A) → get_elem? (xs ++ y ∷ []) (length xs) ≡ some y
get_elem?-last [] y = refl
get_elem?-last (x ∷ xs) y = get_elem?-last xs y

get_elem?-spawn_noise :
    (n : ℕ) (cpus : List ℕ) (i : ℕ)
    → i < n
    → get_elem? (spawn_noise n cpus) i ≡ some (pin_of cpus i)
unfolding spawn_noise
get_elem?-spawn_noise zero cpus i h = absurd (omega arith)
get_elem?-spawn_noise (suc n) cpus i h = elim (dec_lt i n) [
  | yes early ↦
      get_elem?-append (spawn_noise n cpus) (pin_of cpus n ∷ []) i
        (omega (arith, length-spawn_noise n cpus))
      ∙ get_elem?-spawn_noise n cpus i early
  | no late ↦
      let here : i ≡ length (spawn_noise n cpus) = omega (arith, length-spawn_noise n cpus) in
      let last : i ≡ n = omega arith in
      ap (get_elem? (spawn_noise n cpus ++ pin_of cpus n ∷ [])) here
      ∙ get_elem?-last (spawn_noise n cpus) (pin_of cpus n)
      ∙ ap (λ j. some (pin_of cpus j)) (sym last)
]

pin_of-get_elem? :
    (cpus : List ℕ) (i : ℕ)
    → 0 < length cpus
    → (c : ℕ) × (pin_of cpus i ≡ some c) × (get_elem? cpus (i % length cpus) ≡ some c)
unfolding pin_of
pin_of-get_elem? [] i h = absurd (omega arith)
pin_of-get_elem? (c ∷ cpus) i h =
    let (d, e) = get_elem?-lt (c ∷ cpus) (i % length (c ∷ cpus)) (omega arith) in (d, e, e)

-- With a list of CPUs each of the `n` threads is pinned, thread `i` to the entry `i` modulo the
-- length of the list.
pub spawn_noise-pin_of :
    (n : ℕ) (cpus : List ℕ) (i : ℕ)
    → i < n
    → 0 < length cpus
    → (c : ℕ) × (get_elem? (spawn_noise n cpus) i ≡ some (some c))
      × (get_elem? cpus (i % length cpus) ≡ some c)
spawn_noise-pin_of n cpus i h some_cpu =
    let (c, pin, at) = pin_of-get_elem? cpus i some_cpu in
    (c, get_elem?-spawn_noise n cpus i h ∙ ap some pin, at)

noise_index-lt : (x : ℕ) (buf : List ℕ) → length buf ≡ scratch_len → noise_index x buf < length buf
unfolding noise_index
noise_index-lt x buf h = rw h (omega (arith, bit_and-low_ones 17 x))

noise_steps-len :
    (k : ℕ) (n : Noise) → length n.buf ≡ scratch_len → length (noise_steps k n).buf ≡ scratch_len
unfolding noise_steps noise_step
noise_steps-len zero n h = h
noise_steps-len (suc k) n h = noise_steps-len k (noise_step n) (length-set n.buf _ _ ∙ h)

-- The index that a step writes is inside the scratch buffer, however many steps came before.
pub noise_steps-in_bounds :
    (k x : ℕ) → let n = noise_steps k start_noise in noise_index x n.buf < length n.buf
unfolding start_noise
noise_steps-in_bounds k x =
    noise_index-lt x (noise_steps k start_noise).buf
      (noise_steps-len k start_noise (length-replicate {A = ℕ} scratch_len 0))
