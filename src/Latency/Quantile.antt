-- ===== src/Latency/Quantile.antt =====
-- The quantiles of crates/shmbus/src/latency.rs: which bound the walk over the buckets returns.
use dummy_benchmark.Base.{
  ◌∙◌, ℕ, ◌+◌, ◌^◌, ◌≤◌, ◌<◌, ◌≡◌, ◌≢◌, refl, ◌⊎◌, inl, inr, List, [], ◌∷◌, length, arith, u64_max,
  dec_le,
}
use native.Mathlib.Nat.{mod-eq_of_lt}
use dummy_benchmark.Base.Float.{Float}
use dummy_benchmark.Latency.{bucket_bounds, walk, quantile, quantile_target}
use dummy_benchmark.Latency.Tally.{
  Tallied, count_le, count_le-le-length, Ascending, AllAbove, Ascending-above, last_bound,
}
use dummy_benchmark.Latency.Samples.{
  AreWords, Summarises, record_all, record_all-Summarises, highest,
}

abbrev pub OneOf : ℕ → List ℕ → Type 0
OneOf r [] = ⊥
OneOf r (b ∷ bs) = (r ≡ b) ⊎ OneOf r bs

-- No bound below `r` has `t` samples at or under it.
abbrev pub NoneBefore : ℕ → ℕ → List ℕ → List ℕ → Type 0
NoneBefore r t xs [] = Unit
NoneBefore r t xs (b ∷ bs) = (b < r → count_le b xs < t) × NoneBefore r t xs bs

-- `r` is the least bound with at least `t` samples at or under it.
pub record IsLeastBound (t : ℕ) (xs bs : List ℕ) (r : ℕ) : Type 0 where
  pub listed : OneOf r bs
  pub reached : t ≤ count_le r xs
  pub none_before : NoneBefore r t xs bs

NoneBefore-above : (r t : ℕ) (xs bs : List ℕ) → AllAbove r bs → NoneBefore r t xs bs
NoneBefore-above r t xs [] h = tt
NoneBefore-above r t xs (b ∷ bs) h = (λ lt. absurd (omega arith), NoneBefore-above r t xs bs h.1)

module _ (t lo o b n : ℕ) (bs ns : List ℕ) (small : lo + n < 2 ^ 64) where
  walk_stop : t ≤ lo + n → walk (b ∷ bs) (n ∷ ns) lo t o ≡ b
  unfolding walk
  walk_stop h = ground arith

  walk_go : lo + n < t → walk (b ∷ bs) (n ∷ ns) lo t o ≡ walk bs ns (lo + n) t o
  unfolding walk
  walk_go h = rw (mod-eq_of_lt small) (ground arith)

least_here :
    (t : ℕ) (xs : List ℕ) (b : ℕ) (bs : List ℕ)
    → t ≤ count_le b xs
    → Ascending (b ∷ bs)
    → IsLeastBound t xs (b ∷ bs) b
least_here t xs b bs h a = record {
  listed = inl refl;
  reached = h;
  none_before = (
    λ lt. absurd (omega arith),
    NoneBefore-above b t xs bs (Ascending-above b b bs (omega arith) a),
  );
}

least_later :
    (t : ℕ) (xs : List ℕ) (b : ℕ) (bs : List ℕ) {r : ℕ}
    → count_le b xs < t
    → IsLeastBound t xs bs r
    → IsLeastBound t xs (b ∷ bs) r
least_later t xs b bs h l = record {
  listed = inr l.listed;
  reached = l.reached;
  none_before = (λ _. h, l.none_before);
}

walk_least :
    (t : ℕ) (xs : List ℕ) (lo o : ℕ) (bs ns : List ℕ)
    → Ascending bs
    → length xs < 2 ^ 64
    → bs ≢ []
    → t ≤ count_le (last_bound bs) xs
    → Tallied xs lo bs ns
    → IsLeastBound t xs bs (walk bs ns lo t o)
walk_least t xs lo o [] ns a room ne h k = absurd (ne refl)
walk_least t xs lo o (b ∷ bs) [] a room ne h k = absurd k
walk_least t xs lo o (b ∷ []) (n ∷ ns) a room ne h k =
    rw
      (walk_stop t lo o b n [] ns (omega (arith, k.0, count_le-le-length b xs))
        (omega (arith, k.0)))
      (least_here t xs b [] h a)
walk_least t xs lo o (b ∷ c ∷ bs) (n ∷ ns) a room ne h k =
    let small : lo + n < 2 ^ 64 = omega (arith, k.0, count_le-le-length b xs) in
    elim (dec_le t (lo + n)) [
      | yes here ↦
          rw (walk_stop t lo o b n (c ∷ bs) ns small here)
            (least_here t xs b (c ∷ bs) (omega (arith, k.0)) a)
      | no later ↦ rw (walk_go t lo o b n (c ∷ bs) ns small (omega arith)) (
          least_later t xs b (c ∷ bs) (omega (arith, k.0))
            (walk_least t xs (lo + n) o (c ∷ bs) ns a.1 room (λ q. cc) h k.1))
    ]

-- Past the last bound the walk falls through.
walk_past :
    (t : ℕ) (xs : List ℕ) (lo o : ℕ) (bs ns : List ℕ)
    → length xs < 2 ^ 64
    → length xs < t
    → Tallied xs lo bs ns
    → walk bs ns lo t o ≡ o
unfolding walk
walk_past t xs lo o [] ns room h k = refl
walk_past t xs lo o (b ∷ bs) [] room h k = refl
walk_past t xs lo o (b ∷ bs) (n ∷ ns) room h k =
    walk_go t lo o b n bs ns (omega (arith, k.0, count_le-le-length b xs))
      (omega (arith, k.0, count_le-le-length b xs))
    ∙ walk_past t xs (lo + n) o bs ns room h k.1

-- Every sample is at most the last bound.
count_le_all : (xs : List ℕ) → AreWords xs → count_le u64_max xs ≡ length xs
unfolding count_le
count_le_all [] w = refl
count_le_all (x ∷ xs) w = ground (arith, count_le_all xs w.1)

module _ (fl : Float) (q : fl.F) (xs : List ℕ) where
  quantile-walk :
      Summarises (record_all xs) xs
      → 0 < length xs
      → quantile fl (record_all xs) q
        ≡ walk bucket_bounds
            (record_all xs).buckets
            0
            (quantile_target fl (length xs) q)
            (record_all xs).max_ns
  unfolding quantile
  quantile-walk s h = rw s.counted (ground arith)

  -- A quantile of at least one sample is the least bucket bound under which at least the target
  -- number of samples lie; where the rounded target exceeds the number of samples, it is the largest
  -- sample.
  pub quantile_least :
      AreWords xs
      → length xs < 2 ^ 64
      → 0 < length xs
      → let t = quantile_target fl (length xs) q in
        (t ≤ length xs → IsLeastBound t xs bucket_bounds (quantile fl (record_all xs) q))
        × (length xs < t → quantile fl (record_all xs) q ≡ highest xs)
  quantile_least words room ne =
      let s = record_all-Summarises xs words room in
      rw (quantile-walk s ne) (
        λ h.
            walk_least (quantile_target fl (length xs) q) xs 0 (record_all xs).max_ns bucket_bounds
              (record_all xs).buckets (omega arith) room (λ e. cc)
              (omega (arith, count_le_all xs words)) s.tallied,
        λ h.
            walk_past (quantile_target fl (length xs) q) xs 0 (record_all xs).max_ns bucket_bounds
              (record_all xs).buckets room h s.tallied
            ∙ s.max_at,
      )

  -- With no sample it is 0.
  pub quantile_none : quantile fl (record_all []) q ≡ 0
  unfolding quantile record_all
  quantile_none = refl
