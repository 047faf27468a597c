-- ===== src/CpuList/Sorted.antt =====
-- `sort_unstable` and `dedup` in `format_cpu_list` of crates/shmbus/src/cpu.rs: the same indices,
-- each once, in ascending order.
use dummy_benchmark.Base.{
  ℕ, ◌≤◌, ◌≡◌, refl, Bool, false, List, [], ◌∷◌, ◌||◌, arith, u64_max, leb, ◌==◌, Bool-cases, inl,
  inr,
}
use dummy_benchmark.CpuList.{insert, sort, dedup_from, dedup}
use dummy_benchmark.CpuList.Runs.{Climbs, IsClimbing}

abbrev pub AreIndices : List ℕ → Type 0
AreIndices [] = Unit
AreIndices (x ∷ xs) = (x ≤ u64_max) × AreIndices xs

unfoldable pub contains : ℕ → List ℕ → Bool
contains c [] = false
contains c (x ∷ xs) = (c == x) || contains c xs

abbrev Rises : ℕ → List ℕ → Type 0
Rises x [] = x ≤ u64_max
Rises x (y ∷ ys) = (x ≤ y) × Rises y ys

abbrev IsRising : List ℕ → Type 0
IsRising [] = Unit
IsRising (x ∷ xs) = Rises x xs

Rises-insert : (a x : ℕ) (xs : List ℕ) → a ≤ x → x ≤ u64_max → Rises a xs → Rises a (insert x xs)
unfolding insert
Rises-insert a x [] h k r = (h, k)
Rises-insert a x (y ∷ ys) h k r = elim (Bool-cases (leb x y)) [
  | inl le ↦ rw le (h, (ground arith, r.1))
  | inr gt ↦ rw gt (r.0, Rises-insert y x ys (ground arith) k r.1)
]

insert-IsRising : (x : ℕ) (xs : List ℕ) → x ≤ u64_max → IsRising xs → IsRising (insert x xs)
unfolding insert
insert-IsRising x [] k r = k
insert-IsRising x (y ∷ ys) k r = elim (Bool-cases (leb x y)) [
  | inl le ↦ rw le (ground arith, r)
  | inr gt ↦ rw gt (Rises-insert y x ys (ground arith) k r)
]

sort-IsRising : (xs : List ℕ) → AreIndices xs → IsRising (sort xs)
unfolding sort
sort-IsRising [] h = tt
sort-IsRising (x ∷ xs) h = insert-IsRising x (sort xs) h.0 (sort-IsRising xs h.1)

Climbs-lower : (x y : ℕ) (ys : List ℕ) → x ≤ y → Climbs y ys → Climbs x ys
Climbs-lower x y [] h c = omega arith
Climbs-lower x y (z ∷ ys) h c = (omega arith, c.1)

dedup_from-Climbs : (x : ℕ) (xs : List ℕ) → Rises x xs → Climbs x (dedup_from x xs)
unfolding dedup_from
dedup_from-Climbs x [] r = r
dedup_from-Climbs x (y ∷ ys) r = elim (Bool-cases (x == y)) [
  | inl same ↦ rw same (Climbs-lower x y (dedup_from y ys) r.0 (dedup_from-Climbs y ys r.1))
  | inr other ↦ rw other (ground arith, dedup_from-Climbs y ys r.1)
]

dedup-IsClimbing : (xs : List ℕ) → IsRising xs → IsClimbing (dedup xs)
unfolding dedup
dedup-IsClimbing [] r = tt
dedup-IsClimbing (x ∷ xs) r = dedup_from-Climbs x xs r

pub dedup-sort-IsClimbing : (xs : List ℕ) → AreIndices xs → IsClimbing (dedup (sort xs))
dedup-sort-IsClimbing xs h = dedup-IsClimbing (sort xs) (sort-IsRising xs h)

contains-insert : (c x : ℕ) (xs : List ℕ) → contains c (insert x xs) ≡ ((c == x) || contains c xs)
unfolding contains insert
contains-insert c x [] = refl
contains-insert c x (y ∷ ys) = ground (arith, contains-insert c x ys)

contains-sort : (c : ℕ) (xs : List ℕ) → contains c (sort xs) ≡ contains c xs
unfolding contains sort
contains-sort c [] = refl
contains-sort c (x ∷ xs) = rw (contains-insert, contains-sort c xs)

contains-dedup_from :
    (c x : ℕ) (xs : List ℕ)
    → ((c == x) || contains c (dedup_from x xs)) ≡ ((c == x) || contains c xs)
unfolding contains dedup_from
contains-dedup_from c x [] = refl
contains-dedup_from c x (y ∷ ys) = ground (arith, contains-dedup_from c y ys)

contains-dedup : (c : ℕ) (xs : List ℕ) → contains c (dedup xs) ≡ contains c xs
unfolding contains dedup
contains-dedup c [] = refl
contains-dedup c (x ∷ xs) = contains-dedup_from c x xs

pub contains-dedup-sort : (c : ℕ) (xs : List ℕ) → contains c (dedup (sort xs)) ≡ contains c xs
contains-dedup-sort c xs = rw (contains-dedup, contains-sort)
