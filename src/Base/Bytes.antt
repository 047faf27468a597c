-- ===== src/Base/Bytes.antt =====
-- Memory as lists of bytes: what `ptr::copy_nonoverlapping` and `ptr::write_bytes` leave behind, and
-- arrays as functions of the index.
use Prim.Native.Nat.{zero, ◌<◌, ℕ, suc, ◌-◌, ◌≤◌}
use mathlib.Core.Path.{◌≡◌, refl, ap, ap₂}
use mathlib.Core.Logic.{ite}
use mathlib.Core.List.{List, [], ◌∷◌, ◌++◌}
use native.Mathlib.Decide.{ℕ_discrete}
use native.Mathlib.Omega.{arith}
use dummy_benchmark.Base.Lists.{get_or, length-take, length, take, drop, replicate}

abbrev pub Bytes : Type 0
Bytes = List ℕ

-- `copy_nonoverlapping(src, dst, src.len())`, for a `dst` that is at least as long
abbrev pub copy_over : Bytes → Bytes → Bytes
copy_over src dst = src ++ drop (length src) dst

-- `write_bytes(dst.add(n), 0, dst.len() - n)`
abbrev pub zero_from : ℕ → Bytes → Bytes
zero_from n dst = take n dst ++ replicate (length dst - n) 0

-- An array write. The index is in range where the code indexes.
abbrev pub update {ℓ} : {A : Type ℓ} → (ℕ → A) → ℕ → A → ℕ → A
update f i a j = ite (ℕ_discrete i j) a (f j)

module _ {ℓ} {A : Type ℓ} where
  pub take-append_left : (xs ys : List A) → take (length xs) (xs ++ ys) ≡ xs
  take-append_left [] ys = refl
  take-append_left (x ∷ xs) ys = ap (λ t. x ∷ t) (take-append_left xs ys)

  pub drop-append_left : (xs ys : List A) → drop (length xs) (xs ++ ys) ≡ ys
  drop-append_left [] ys = refl
  drop-append_left (x ∷ xs) ys = drop-append_left xs ys

  pub take_all : (xs : List A) → take (length xs) xs ≡ xs
  take_all [] = refl
  take_all (x ∷ xs) = ap (λ t. x ∷ t) (take_all xs)

  pub drop_all : (xs : List A) → drop (length xs) xs ≡ []
  drop_all [] = refl
  drop_all (x ∷ xs) = drop_all xs

pub length-copy_over :
    (src dst : Bytes) → length src ≤ length dst → length (copy_over src dst) ≡ length dst
length-copy_over [] dst h = refl
length-copy_over (x ∷ src) [] h = absurd (omega arith)
length-copy_over (x ∷ src) (y ∷ dst) h = ap suc (length-copy_over src dst (omega arith))

-- The two calls together leave the source padded with zeros, whatever the target held.
pub zero_from-copy_over :
    (src dst : Bytes)
    → length src ≤ length dst
    → zero_from (length src) (copy_over src dst) ≡ src ++ replicate (length dst - length src) 0
zero_from-copy_over src dst h =
    ap₂ ◌++◌ (take-append_left src (drop (length src) dst))
      (ap (λ n. replicate (n - length src) 0) (length-copy_over src dst h))

-- A copy that goes on by one byte.
pub take_next : (n : ℕ) (x : Bytes) → n < length x → take n x ++ get_or x n 0 ∷ [] ≡ take (suc n) x
take_next n [] h = absurd (omega arith)
take_next zero (y ∷ x) h = refl
take_next (suc n) (y ∷ x) h = ap (λ t. y ∷ t) (take_next n x (omega arith))

pub length-take_le {ℓ} : {A : Type ℓ} (n : ℕ) (xs : List A) → n ≤ length xs → length (take n xs) ≡ n
length-take_le n xs h = omega (arith, length-take n xs)
