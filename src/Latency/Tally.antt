-- ===== src/Latency/Tally.antt =====
-- The buckets of crates/shmbus/src/latency.rs against the samples: up to each bound, the buckets
-- together count the samples that do not exceed it.
use dummy_benchmark.Base.{
  ◌≢◌, subst, ℕ, suc, ◌+◌, ◌^◌, ◌≤◌, ◌<◌, ◌≡◌, refl, ◌⊎◌, inl, inr, some, List, [], ◌∷◌, length,
  arith, leb, if◌then◌else◌, add64, dec_le, Option-cases, sym,
}
use dummy_benchmark.Latency.{position, bump}

-- How many samples are at most `b`.
unfoldable pub count_le : ℕ → List ℕ → ℕ
count_le b [] = 0
count_le b (x ∷ xs) = (if leb x b then 1 else 0) + count_le b xs

pub count_le-le-length : (b : ℕ) (xs : List ℕ) → count_le b xs ≤ length xs
unfolding count_le
count_le-le-length b [] = omega arith
count_le-le-length b (x ∷ xs) = ground (arith, count_le-le-length b xs)

abbrev pub Ascending : List ℕ → Type 0
Ascending [] = Unit
Ascending (b ∷ []) = Unit
Ascending (b ∷ c ∷ bs) = (b < c) × Ascending (c ∷ bs)

abbrev pub AllAbove : ℕ → List ℕ → Type 0
AllAbove x [] = Unit
AllAbove x (b ∷ bs) = (x ≤ b) × AllAbove x bs

-- The last bound.
abbrev pub last_bound : List ℕ → ℕ
last_bound [] = 0
last_bound (b ∷ []) = b
last_bound (b ∷ c ∷ bs) = last_bound (c ∷ bs)

pub Ascending-above : (x b : ℕ) (bs : List ℕ) → x ≤ b → Ascending (b ∷ bs) → AllAbove x bs
Ascending-above x b [] h a = tt
Ascending-above x b (c ∷ bs) h a = (omega arith, Ascending-above x c bs (omega arith) a.1)

pub Ascending-tail : (b : ℕ) (bs : List ℕ) → Ascending (b ∷ bs) → Ascending bs
Ascending-tail b [] a = tt
Ascending-tail b (c ∷ bs) a = a.1

-- `lo` samples lie below the first bound's bucket.
abbrev pub Tallied : List ℕ → ℕ → List ℕ → List ℕ → Type 0
Tallied xs lo [] [] = Unit
Tallied xs lo [] (n ∷ ns) = ⊥
Tallied xs lo (b ∷ bs) [] = ⊥
Tallied xs lo (b ∷ bs) (n ∷ ns) = (lo + n ≡ count_le b xs) × Tallied xs (lo + n) bs ns

count_le-add : (x b : ℕ) (xs : List ℕ) → x ≤ b → count_le b (x ∷ xs) ≡ count_le b xs + 1
unfolding count_le
count_le-add x b xs h = ground arith

count_le-skip : (x b : ℕ) (xs : List ℕ) → b < x → count_le b (x ∷ xs) ≡ count_le b xs
unfolding count_le
count_le-skip x b xs h = ground arith

Tallied-shift :
    (x : ℕ) (xs : List ℕ) (lo lo' : ℕ) (bs ns : List ℕ)
    → lo' ≡ lo + 1
    → AllAbove x bs
    → Tallied xs lo bs ns
    → Tallied (x ∷ xs) lo' bs ns
Tallied-shift x xs lo lo' [] [] e h t = tt
Tallied-shift x xs lo lo' [] (n ∷ ns) e h t = t
Tallied-shift x xs lo lo' (b ∷ bs) [] e h t = t
Tallied-shift x xs lo lo' (b ∷ bs) (n ∷ ns) e h t = (
  omega (arith, count_le-add x b xs h.0),
  Tallied-shift x xs (lo + n) (lo' + n) bs ns (omega arith) h.1 t.1,
)

position-at :
    (x b i : ℕ) (bs : List ℕ)
    → position x (b ∷ bs) ≡ some i
    → ((x ≤ b) × (i ≡ 0)) ⊎ ((b < x) × ((j : ℕ) × (i ≡ suc j) × (position x bs ≡ some j)))
unfolding position
position-at x b i bs at = elim (dec_le x b) [
  | yes h ↦ inl (h, ground arith)
  | no h ↦ elim (Option-cases (position x bs)) [
    | inl e ↦ absurd (ground arith)
    | inr found ↦ inr (omega arith, (found.0, ground arith, found.1))
  ]
]

bump-here :
    (x : ℕ) (xs : List ℕ) (lo b n : ℕ) (bs ns : List ℕ)
    → Ascending (b ∷ bs)
    → length xs + 1 < 2 ^ 64
    → x ≤ b
    → Tallied xs lo (b ∷ bs) (n ∷ ns)
    → Tallied (x ∷ xs) lo (b ∷ bs) (bump (n ∷ ns) 0)
unfolding bump
bump-here x xs lo b n bs ns a room h t = (
  omega (arith, count_le-add x b xs h, small),
  Tallied-shift x xs (lo + n) (lo + add64 n 1) bs ns (omega (arith, small))
      (Ascending-above x b bs h a) t.1,
)
  where
    small : n + 1 < 2 ^ 64
    small = omega (arith, count_le-le-length b xs)

bump-later :
    (x : ℕ) (xs : List ℕ) (lo b n j : ℕ) (bs ns : List ℕ)
    → b < x
    → lo + n ≡ count_le b xs
    → Tallied (x ∷ xs) (lo + n) bs (bump ns j)
    → Tallied (x ∷ xs) lo (b ∷ bs) (bump (n ∷ ns) (suc j))
unfolding bump
bump-later x xs lo b n j bs ns h here t = (omega (arith, count_le-skip x b xs h), t)

position-nil : (x i : ℕ) → ¬ (position x [] ≡ some i)
unfolding position
position-nil x i e = cc

-- The bucket of a sample is the first whose bound it does not exceed, and counting it there keeps
-- the tally.
pub Tallied-bump :
    (x : ℕ) (xs : List ℕ) (lo i : ℕ) (bs ns : List ℕ)
    → Ascending bs
    → length xs + 1 < 2 ^ 64
    → position x bs ≡ some i
    → Tallied xs lo bs ns
    → Tallied (x ∷ xs) lo bs (bump ns i)
Tallied-bump x xs lo i [] ns a room at t = absurd (position-nil x i at)
Tallied-bump x xs lo i (b ∷ bs) [] a room at t = absurd t
Tallied-bump x xs lo i (b ∷ bs) (n ∷ ns) a room at t = elim (position-at x b i bs at) [
  | inl (h, e) ↦
      subst (λ k. Tallied (x ∷ xs) lo (b ∷ bs) (bump (n ∷ ns) k)) (sym e)
        (bump-here x xs lo b n bs ns a room h t)
  | inr (h, (j, e, later)) ↦
      subst (λ k. Tallied (x ∷ xs) lo (b ∷ bs) (bump (n ∷ ns) k)) (sym e)
        (bump-later x xs lo b n j bs ns h t.0
          (Tallied-bump x xs (lo + n) j bs ns (Ascending-tail b bs a) room later t.1))
]

-- A sample that does not exceed the last bound has a bucket.
pub position-found :
    (x : ℕ) (bs : List ℕ) → bs ≢ [] → x ≤ last_bound bs → (i : ℕ) × (position x bs ≡ some i)
unfolding position
position-found x [] ne h = absurd (ne refl)
position-found x (b ∷ []) ne h = (0, ground arith)
position-found x (b ∷ c ∷ bs) ne h = elim (dec_le x b) [
  | yes here ↦ (0, ground arith)
  | no later ↦ let (i, e) = position-found x (c ∷ bs) (λ q. cc) h in (suc i, rw e (ground arith))
]
