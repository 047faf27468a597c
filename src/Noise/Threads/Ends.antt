-- ===== src/Noise/Threads/Ends.antt =====
-- `shutdown` of crates/shmbus/src/noise.rs returns, and leaves no thread behind.
use dummy_benchmark.Base.{
  ℕ, zero, suc, ◌+◌, ◌-◌, ◌*◌, ◌≤◌, ◌<◌, ◌≡◌, refl, sym, ap, subst, ◌∙◌, ◌⊎◌, inl, inr, Bool, true,
  false, Option, List, [], ◌∷◌, ◌++◌, arith, length, length-append, dec_lt,
}
use dummy_benchmark.Noise.{spawn_noise, Noise, noise_steps}
use dummy_benchmark.Noise.Bounds.{length-spawn_noise}
use dummy_benchmark.Noise.Threads.{
  Phase, working, ended, Owner, going_on, joining, NoiseHandle, spawned, Step, work, leave,
  store_stop, join, Reach, here, next,
}

false-true : false ≡ true → ⊥
false-true e = ground arith

-- The threads in their loops.
abbrev pub working_count : List Phase → ℕ
working_count [] = 0
working_count (working n ∷ ps) = suc (working_count ps)
working_count (ended n ∷ ps) = working_count ps

-- The steps that are left: each thread leaves its loop once, and each is joined once.
abbrev owner_left : Owner → ℕ → ℕ
owner_left going_on len = len + 1
owner_left (joining k) len = len - k

abbrev pub left : NoiseHandle → ℕ
left s = working_count s.threads + owner_left s.owner (length s.threads)

working_count-append :
    (ps qs : List Phase) → working_count (ps ++ qs) ≡ working_count ps + working_count qs
working_count-append [] qs = omega arith
working_count-append (working n ∷ ps) qs = omega (arith, working_count-append ps qs)
working_count-append (ended n ∷ ps) qs = working_count-append ps qs

length_swap :
    (before after : List Phase) (p q : Phase)
    → length (before ++ p ∷ after) ≡ length (before ++ q ∷ after)
length_swap before after p q =
    omega (arith, length-append before (p ∷ after), length-append before (q ∷ after))

working_count-le : (ps : List Phase) → working_count ps ≤ length ps
working_count-le [] = omega arith
working_count-le (working n ∷ ps) = omega (arith, working_count-le ps)
working_count-le (ended n ∷ ps) = omega (arith, working_count-le ps)

-- Once the flag is up, no step is but one of those that are left.
Step-left : {s t : NoiseHandle} → Step s t → s.stop ≡ true → left t + 1 ≡ left s
Step-left (work before after n) up = absurd (false-true up)
Step-left (leave {o = o} before after n) up =
    let len = ap (owner_left o) (length_swap before after (working n) (ended n)) in
    omega (
      arith,
      len,
      working_count-append before (working n ∷ after),
      working_count-append before (ended n ∷ after),
    )
Step-left (store_stop ps) up = omega arith
Step-left (join before after n k at) up = omega (arith, length-append before (ended n ∷ after))

-- The first `k` threads have ended.
abbrev AreEnded : ℕ → List Phase → Type 0
AreEnded zero ps = Unit
AreEnded (suc k) [] = ⊥
AreEnded (suc k) (working n ∷ ps) = ⊥
AreEnded (suc k) (ended n ∷ ps) = AreEnded k ps

AreEnded-leave :
    (k : ℕ) (before after : List Phase) (n : Noise)
    → AreEnded k (before ++ working n ∷ after)
    → AreEnded k (before ++ ended n ∷ after)
AreEnded-leave zero before after n h = tt
AreEnded-leave (suc k) [] after n h = absurd h
AreEnded-leave (suc k) (working m ∷ before) after n h = absurd h
AreEnded-leave (suc k) (ended m ∷ before) after n h = AreEnded-leave k before after n h

AreEnded-join :
    (k : ℕ) (before after : List Phase) (n : Noise)
    → length before ≡ k
    → AreEnded k (before ++ ended n ∷ after)
    → AreEnded (suc k) (before ++ ended n ∷ after)
AreEnded-join zero [] after n e h = tt
AreEnded-join zero (p ∷ before) after n e h = absurd (omega arith)
AreEnded-join (suc k) [] after n e h = absurd (omega arith)
AreEnded-join (suc k) (working m ∷ before) after n e h = absurd h
AreEnded-join (suc k) (ended m ∷ before) after n e h =
    AreEnded-join k before after n (omega arith) h

AreEnded-le : (k : ℕ) (ps : List Phase) → AreEnded k ps → k ≤ length ps
AreEnded-le zero ps h = omega arith
AreEnded-le (suc k) [] h = absurd h
AreEnded-le (suc k) (working n ∷ ps) h = absurd h
AreEnded-le (suc k) (ended n ∷ ps) h = omega (arith, AreEnded-le k ps h)

AreEnded-all : (k : ℕ) (ps : List Phase) → AreEnded k ps → length ps ≤ k → working_count ps ≡ 0
AreEnded-all k [] h le = refl
AreEnded-all zero (p ∷ ps) h le = absurd (omega arith)
AreEnded-all (suc k) (working n ∷ ps) h le = absurd h
AreEnded-all (suc k) (ended n ∷ ps) h le = AreEnded-all k ps h (omega arith)

-- The threads before and after the one at `k`.
split_at :
    (k : ℕ) (ps : List Phase)
    → k < length ps
    → (before : List Phase) × (p : Phase) × (after : List Phase) × (before ++ p ∷ after ≡ ps)
      × (length before ≡ k)
split_at k [] h = absurd (omega arith)
split_at zero (p ∷ ps) h = ([], p, ps, refl, refl)
split_at (suc k) (q ∷ ps) h =
    let (before, p, after, e, len) = split_at k ps (omega arith) in
    (q ∷ before, p, after, ap (λ l. q ∷ l) e, ap suc len)

-- What holds in every state: of `n` threads those that are joined have ended.
abbrev OwnerOk : Owner → Bool → List Phase → Type 0
OwnerOk going_on stop ps = Unit
OwnerOk (joining k) stop ps = (stop ≡ true) × AreEnded k ps

record Inv (n : ℕ) (s : NoiseHandle) : Type 0 where
  count : length s.threads ≡ n
  owner : OwnerOk s.owner s.stop s.threads

Step-Inv : {n : ℕ} {s t : NoiseHandle} → Step s t → Inv n s → Inv n t
Step-Inv (work {o = going_on} before after m) v = record {
  count = sym (length_swap before after (working m) (working (noise_steps 256 m))) ∙ v.count;
  owner = tt;
}
Step-Inv (work {o = joining k} before after m) v = absurd (false-true v.owner.0)
Step-Inv (leave {o = going_on} before after m) v = record {
  count = sym (length_swap before after (working m) (ended m)) ∙ v.count;
  owner = tt;
}
Step-Inv (leave {o = joining k} before after m) v = record {
  count = sym (length_swap before after (working m) (ended m)) ∙ v.count;
  owner = (refl, AreEnded-leave k before after m v.owner.1);
}
Step-Inv (store_stop ps) v = record { count = v.count; owner = (refl, tt) }
Step-Inv (join before after m k at) v = record {
  count = v.count;
  owner = (v.owner.0, AreEnded-join k before after m at v.owner.1);
}

length-spawned : (pins : List (Option ℕ)) → length (spawned pins).threads ≡ length pins
unfolding spawned
length-spawned [] = refl
length-spawned (p ∷ pins) = ap suc (length-spawned pins)

Reach-Inv :
    (n : ℕ) (cpus : List ℕ) {s : NoiseHandle} → Reach (spawned (spawn_noise n cpus)) s → Inv n s
unfolding spawned
Reach-Inv n cpus here = record {
  count = length-spawned (spawn_noise n cpus) ∙ length-spawn_noise n cpus;
  owner = tt;
}
Reach-Inv n cpus (next r st) = Step-Inv st (Reach-Inv n cpus r)

-- The thread that is to be joined has ended, or leaves its loop.
step_at :
    (b : Bool) (k : ℕ) (before after : List Phase) (p : Phase)
    → b ≡ true
    → length before ≡ k
    → (t : NoiseHandle) × Step
        (record { threads = before ++ p ∷ after; stop = b; owner = joining k })
        t
step_at false k before after p up at = absurd (false-true up)
step_at true k before after (working m) up at = (_, leave before after m)
step_at true k before after (ended m) up at = (_, join before after m k at)

joining_steps :
    (s : NoiseHandle) (k : ℕ)
    → s.owner ≡ joining k
    → s.stop ≡ true
    → k < length s.threads
    → (t : NoiseHandle) × Step s t
joining_steps s k at up more =
    let (before, p, after, e, len) = split_at k s.threads more in
    let from : NoiseHandle → Type 0 = λ u. (t : NoiseHandle) × Step u t in
    subst (λ o. from (record s { owner = o })) (sym at)
      (subst (λ ps. from (record { threads = ps; stop = s.stop; owner = joining k })) e
        (step_at s.stop k before after p up len))

-- In every interleaving of `n` noise threads with the owner of their handle, once `shutdown` has
-- stored the flag: it has joined all the `n` threads and every one has ended, or some step can be made;
-- every step that can be made leaves one fewer to be made; and at most `2 n` are left.
pub shutdown_ends :
    (n k : ℕ) (cpus : List ℕ) {s : NoiseHandle}
    → Reach (spawned (spawn_noise n cpus)) s
    → s.owner ≡ joining k
    → (((k ≡ n) × (working_count s.threads ≡ 0)) ⊎ ((t : NoiseHandle) × Step s t))
      × ((t : NoiseHandle) → Step s t → left t + 1 ≡ left s)
      × (left s ≤ 2 * n)
shutdown_ends n k cpus {s} r at =
    let v = Reach-Inv n cpus r in
    let (up, ends) : (s.stop ≡ true) × AreEnded k s.threads =
      subst (λ o. OwnerOk o s.stop s.threads) at v.owner in
    let le = AreEnded-le k s.threads ends in
    (
      elim (dec_lt k (length s.threads)) [
        | yes more ↦ inr (joining_steps s k at up more)
        | no all ↦
            inl
              (omega (arith, v.count, le, all), AreEnded-all k s.threads ends (omega (arith, all)))
      ],
      λ t st. Step-left st up,
      omega (
        arith,
        v.count,
        working_count-le s.threads,
        ap (λ o. owner_left o (length s.threads)) at,
      ),
    )
