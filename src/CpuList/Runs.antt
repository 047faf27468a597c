-- ===== src/CpuList/Runs.antt =====
-- The runs that `format_cpu_list` of crates/shmbus/src/cpu.rs prints, and the parts that
-- `parse_cpu_list` reads.
use dummy_benchmark.Base.{
  ℕ, suc, ◌+◌, ◌-◌, ◌≤◌, ◌<◌, ◌≡◌, refl, ◌∙◌, ap, sym, ◌≢◌, false, some, none, List, [], ◌∷◌, ◌++◌,
  length, arith, ◌==◌, u64_max, add64, Bool-cases, inl, inr,
}
use mathlib.Core.List.{append-nil}
use dummy_benchmark.Text.{Text, ok, err, is_empty, trim, to_string, split_once}
use dummy_benchmark.Text.Decimal.{to_string-AreDigits, to_string-ne-nil, parse_usize-to_string}
use dummy_benchmark.Text.Pieces.{
  IsPlain, AreDigits-IsPlain, IsPlain-append, trim-plain, split_once-digits, split_once-none,
}
use dummy_benchmark.CpuList.{invalid_range, count_up, parse_index, parse_part, run_end, show_run}

-- Strictly ascending, above `x`, and all of them `usize`.
abbrev pub Climbs : ℕ → List ℕ → Type 0
Climbs x [] = x ≤ u64_max
Climbs x (y ∷ ys) = (x < y) × Climbs y ys

pub Climbs-bound : (x : ℕ) (xs : List ℕ) → Climbs x xs → x ≤ u64_max
Climbs-bound x [] h = h
Climbs-bound x (y ∷ ys) h = omega (arith, Climbs-bound y ys h.1)

abbrev pub IsClimbing : List ℕ → Type 0
IsClimbing [] = Unit
IsClimbing (x ∷ xs) = Climbs x xs

-- A run from `x` up to its end, and the rest of the list.
pub record IsRun (x : ℕ) (xs : List ℕ) (r : ℕ × List ℕ) : Type 0 where
  pub upward : x ≤ r.0
  pub bound : r.0 ≤ u64_max
  pub covers : x ∷ xs ≡ count_up x (r.0 + 1 - x) ++ r.1
  pub shorter : length r.1 ≤ length xs
  pub climbing : IsClimbing r.1

count_up-one : (x y : ℕ) → x < y → count_up x (y + 1 - x) ≡ x ∷ count_up (x + 1) (y + 1 - (x + 1))
unfolding count_up
count_up-one x y h = rw same
  where
    same : y + 1 - x ≡ suc (y + 1 - (x + 1))
    same = omega arith

count_up_self : (x : ℕ) → count_up x (x + 1 - x) ≡ x ∷ []
unfolding count_up
count_up_self x = rw same
  where
    same : x + 1 - x ≡ 1
    same = omega arith

IsRun-stops : (x : ℕ) (xs : List ℕ) → Climbs x xs → IsRun x xs (x, xs)
IsRun-stops x xs h = record {
  upward = omega arith;
  bound = Climbs-bound x xs h;
  covers = rw (count_up_self x);
  shorter = omega arith;
  climbing = rest x xs h;
}
  where
    rest : (x : ℕ) (xs : List ℕ) → Climbs x xs → IsClimbing xs
    rest x [] h = tt
    rest x (y ∷ ys) h = h.1

pub run_end-IsRun : (x : ℕ) (xs : List ℕ) → Climbs x xs → IsRun x xs (run_end x xs)
unfolding run_end
run_end-IsRun x [] h = IsRun-stops x [] h
run_end-IsRun x (y ∷ ys) h = elim (Bool-cases (y == add64 x 1)) [
  | inl goes_on ↦
      let r = run_end-IsRun y ys h.1 in
      let next : y ≡ x + 1 = ground (arith, Climbs-bound y ys h.1) in
      rw goes_on (record {
        upward = omega (arith, r.upward);
        bound = r.bound;
        covers =
            ap (λ t. x ∷ t)
              (r.covers ∙ ap (λ z. count_up z ((run_end y ys).0 + 1 - z) ++ (run_end y ys).1) next)
            ∙ sym (
                ap (λ t. t ++ (run_end y ys).1)
                  (count_up-one x (run_end y ys).0 (omega (arith, r.upward))));
        shorter = omega (arith, r.shorter);
        climbing = r.climbing;
      })
  | inr stops ↦ rw stops (IsRun-stops x (y ∷ ys) h)
]

parse_index-to_string : (n : ℕ) → n ≤ u64_max → parse_index (to_string n) ≡ ok n
unfolding parse_index
parse_index-to_string n h = rw (parse_usize-to_string n h, parse_index)

trim-to_string : (n : ℕ) → trim (to_string n) ≡ to_string n
trim-to_string n =
    trim-plain (to_string n) (AreDigits-IsPlain (to_string n) (to_string-AreDigits n))

pub show_run-IsPlain : (a b : ℕ) → IsPlain (show_run a b)
unfolding show_run
show_run-IsPlain a b = elim (Bool-cases (a == b)) [
  | inl one ↦ rw one (AreDigits-IsPlain (to_string a) (to_string-AreDigits a))
  | inr more ↦ rw more (
      IsPlain-append (to_string a) (b'-' ∷ to_string b)
        (AreDigits-IsPlain (to_string a) (to_string-AreDigits a))
        (inl refl, AreDigits-IsPlain (to_string b) (to_string-AreDigits b)))
]

not_empty : (s t : Text) → s ≢ [] → is_empty (s ++ t) ≡ false
unfolding is_empty
not_empty [] t ne = absurd (ne refl)
not_empty (c ∷ s) t ne = refl

pub show_run-ne-nil : (a b : ℕ) → is_empty (show_run a b) ≡ false
unfolding show_run
show_run-ne-nil a b = elim (Bool-cases (a == b)) [
  | inl one ↦ rw one (rw append-nil at (not_empty (to_string a) [] (to_string-ne-nil a)))
  | inr more ↦ rw more (not_empty (to_string a) (b'-' ∷ to_string b) (to_string-ne-nil a))
]

parse_part-range :
    (p s t : Text) {lo hi : ℕ}
    → split_once b'-' p ≡ some (s, t)
    → parse_index (trim s) ≡ ok lo
    → parse_index (trim t) ≡ ok hi
    → lo ≤ hi
    → parse_part p ≡ ok (count_up lo (hi + 1 - lo))
unfolding parse_part
parse_part-range p s t at first second h = rw (at, parse_part) (rw first (rw second (ground arith)))

parse_part-single :
    (p : Text) {n : ℕ}
    → split_once b'-' p ≡ none
    → parse_index p ≡ ok n
    → parse_part p ≡ ok (n ∷ [])
unfolding parse_part
parse_part-single p at number = rw (at, parse_part) (rw number)

-- What is printed for a run reads back as the run.
pub parse_part-show_run :
    (a b : ℕ) → a ≤ b → b ≤ u64_max → parse_part (show_run a b) ≡ ok (count_up a (b + 1 - a))
unfolding show_run
parse_part-show_run a b h k = elim (Bool-cases (a == b)) [
  | inl one ↦ rw one (
      parse_part-single (to_string a) (split_once-none (to_string a) (to_string-AreDigits a))
        (parse_index-to_string a (omega arith))
      ∙ ap ok (sym (count_up_self a) ∙ ap (λ z. count_up a (z + 1 - a)) (ground arith)))
  | inr more ↦ rw more (
      parse_part-range (to_string a ++ b'-' ∷ to_string b) (to_string a) (to_string b)
        (split_once-digits (to_string a) (to_string b) (to_string-AreDigits a))
        (rw (trim-to_string a) (parse_index-to_string a (omega arith)))
        (rw (trim-to_string b) (parse_index-to_string b k)) h)
]

pub range_text-IsPart :
    (a b : ℕ)
    → IsPlain (to_string a ++ b'-' ∷ to_string b)
      × (is_empty (to_string a ++ b'-' ∷ to_string b) ≡ false)
range_text-IsPart a b = (
  IsPlain-append (to_string a) (b'-' ∷ to_string b)
      (AreDigits-IsPlain (to_string a) (to_string-AreDigits a))
      (inl refl, AreDigits-IsPlain (to_string b) (to_string-AreDigits b)),
  not_empty (to_string a) (b'-' ∷ to_string b) (to_string-ne-nil a),
)

parse_part_refused :
    (p s t : Text) {lo hi : ℕ}
    → split_once b'-' p ≡ some (s, t)
    → parse_index (trim s) ≡ ok lo
    → parse_index (trim t) ≡ ok hi
    → hi < lo
    → parse_part p ≡ err (invalid_range lo hi)
unfolding parse_part
parse_part_refused p s t at first second h =
    rw (at, parse_part) (rw first (rw second (ground arith)))

pub parse_part-inverted :
    (a b : ℕ)
    → a ≤ u64_max
    → b < a
    → parse_part (to_string a ++ b'-' ∷ to_string b) ≡ err (invalid_range a b)
parse_part-inverted a b h k =
    parse_part_refused (to_string a ++ b'-' ∷ to_string b) (to_string a) (to_string b)
      (split_once-digits (to_string a) (to_string b) (to_string-AreDigits a))
      (rw (trim-to_string a) (parse_index-to_string a h))
      (rw (trim-to_string b) (parse_index-to_string b (omega arith))) k
