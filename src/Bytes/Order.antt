-- ===== src/Bytes/Order.antt =====
-- The order of byte strings.
use Prim.Native.Nat.{Ordering}
use nookdb.Prelude.{◌≡◌, refl, [], ◌∷◌, arith}
use nookdb.Bytes.{Bytes, cmp}

pub cmp_refl : (a : Bytes) → cmp a a ≡ Ordering.eq
unfolding cmp
cmp_refl [] = refl
cmp_refl (x ∷ xs) = ground (arith, cmp_refl xs)

pub cmp_eq : (a b : Bytes) → cmp a b ≡ Ordering.eq → a ≡ b
unfolding cmp
cmp_eq [] [] h = refl
cmp_eq [] (y ∷ ys) h = ground arith
cmp_eq (x ∷ xs) [] h = ground arith
cmp_eq (x ∷ xs) (y ∷ ys) h = ground (arith, cmp_eq xs ys)

pub cmp_flip : (a b : Bytes) → cmp a b ≡ Ordering.lt → cmp b a ≡ Ordering.gt
unfolding cmp
cmp_flip [] [] h = ground arith
cmp_flip [] (y ∷ ys) h = refl
cmp_flip (x ∷ xs) [] h = ground arith
cmp_flip (x ∷ xs) (y ∷ ys) h = ground (arith, cmp_flip xs ys)

pub cmp_flip_gt : (a b : Bytes) → cmp a b ≡ Ordering.gt → cmp b a ≡ Ordering.lt
unfolding cmp
cmp_flip_gt [] [] h = ground arith
cmp_flip_gt [] (y ∷ ys) h = ground arith
cmp_flip_gt (x ∷ xs) [] h = refl
cmp_flip_gt (x ∷ xs) (y ∷ ys) h = ground (arith, cmp_flip_gt xs ys)

pub cmp_trans :
    (a b c : Bytes) → cmp a b ≡ Ordering.lt → cmp b c ≡ Ordering.lt → cmp a c ≡ Ordering.lt
unfolding cmp
cmp_trans [] [] c h k = ground arith
cmp_trans (x ∷ xs) [] c h k = ground arith
cmp_trans [] (y ∷ ys) [] h k = ground arith
cmp_trans [] (y ∷ ys) (z ∷ zs) h k = refl
cmp_trans (x ∷ xs) (y ∷ ys) [] h k = ground arith
cmp_trans (x ∷ xs) (y ∷ ys) (z ∷ zs) h k = ground (arith, cmp_trans xs ys zs)
