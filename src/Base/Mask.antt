-- ===== src/Base/Mask.antt =====
-- `&` with a mask of low ones is the remainder by a power of two. The libraries give `bit_and` at
-- variables only through its digits.
use Prim.Native.Nat.{
  ℕ, zero, suc, ◌+◌, ◌-◌, ◌*◌, ◌/◌, ◌%◌, ◌^◌, ◌≤◌, min, bit_and, digits, bit_and-bitwise,
}
use mathlib.Core.Path.{◌≡◌, refl}
use native.Mathlib.Nat.{pow-suc, one-le-pow, mod_def, div-div-eq-div-mul, mul-div-le}
use native.Mathlib.Omega.{arith}

abbrev low_digits : ℕ → ℕ → ℕ → ℕ
low_digits n a b = digits (λ b. zero) min n a b

-- Two amounts of fuel, neither below the number, give the same digits.
low_digits_stable : (a b n m : ℕ) → a ≤ n → a ≤ m → low_digits n a b ≡ low_digits m a b
low_digits_stable a b zero zero hn hm = refl
low_digits_stable zero b zero (suc m) hn hm = refl
low_digits_stable zero b (suc n) zero hn hm = refl
low_digits_stable zero b (suc n) (suc m) hn hm = refl
low_digits_stable (suc a) b zero m hn hm = absurd (omega arith)
low_digits_stable (suc a) b (suc n) zero hn hm = absurd (omega arith)
low_digits_stable (suc a) b (suc n) (suc m) hn hm =
    omega (arith, low_digits_stable (suc a / 2) (b / 2) n m (omega arith) (omega arith))

bit_and_halves : (a b : ℕ) → bit_and a b ≡ bit_and (a / 2) (b / 2) * 2 + min (a % 2) (b % 2)
bit_and_halves zero b = omega (arith, bit_and-bitwise 0 b, bit_and-bitwise 0 (b / 2))
bit_and_halves (suc a) b = omega (
  arith,
  bit_and-bitwise (suc a) b,
  bit_and-bitwise (suc a / 2) (b / 2),
  low_digits_stable (suc a / 2) (b / 2) a (suc a / 2) (omega arith) (omega arith),
)

bit_and-none : (n a : ℕ) → a ≤ n → bit_and a 0 ≡ 0
bit_and-none n zero h = refl
bit_and-none zero (suc a) h = absurd (omega arith)
bit_and-none (suc n) (suc a) h =
    omega (arith, bit_and_halves (suc a) 0, bit_and-none n (suc a / 2) (omega arith))

-- Halving the number halves its remainder too.
mod_halves : (a p : ℕ) → a % (2 * p) ≡ a / 2 % p * 2 + a % 2
mod_halves a p =
    rw (mod_def a (2 * p), ← div-div-eq-div-mul, mod_def (a / 2) p)
      (omega (arith, mul-div-le (a / 2) p))

pub bit_and-low_ones : (k a : ℕ) → bit_and a (2 ^ k - 1) ≡ a % 2 ^ k
bit_and-low_ones zero a = omega (arith, bit_and-none a a (omega arith))
bit_and-low_ones (suc k) a = ground (
  arith,
  pow-suc 2 k,
  one-le-pow k 2,
  bit_and_halves a (2 ^ suc k - 1),
  bit_and-low_ones k (a / 2),
  mod_halves a (2 ^ k),
)
