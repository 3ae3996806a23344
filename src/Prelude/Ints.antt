-- ===== src/Prelude/Ints.antt =====
-- Signed integers, for `i64`: the sign and the size, compared exactly.
use Prim.Native.Nat.{ℕ, compare, Ordering}
use mathlib.Core.Path.{◌≡◌, refl}
use native.Mathlib.Omega.{arith}

-- `negsuc n` is -(n + 1).
pub data ℤ : Type 0 where
  pos : ℕ → ℤ
  negsuc : ℕ → ℤ

-- `i64::cmp`
unfoldable pub cmp_int : ℤ → ℤ → Ordering
cmp_int (pos a) (pos b) = compare a b
cmp_int (pos a) (negsuc b) = Ordering.gt
cmp_int (negsuc a) (pos b) = Ordering.lt
cmp_int (negsuc a) (negsuc b) = compare b a

pub cmp_int_flipped :
    (i j : ℤ)
    → cmp_int j i ≡ (elim (cmp_int i j) [
      | Ordering.lt ↦ Ordering.gt
      | Ordering.eq ↦ Ordering.eq
      | Ordering.gt ↦ Ordering.lt
    ])
unfolding cmp_int
cmp_int_flipped (pos a) (pos b) = ground arith
cmp_int_flipped (pos a) (negsuc b) = refl
cmp_int_flipped (negsuc a) (pos b) = refl
cmp_int_flipped (negsuc a) (negsuc b) = ground arith
