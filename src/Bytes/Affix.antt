-- ===== src/Bytes/Affix.antt =====
-- Prefixes of byte strings, and the half-open range of a prefix.
use nookdb.Prelude.{
  is_some, zero, suc, ◌≡◌, refl, ◌&&◌, not, Bool, [], ◌∷◌, ◌++◌, arith, ◌==◌, if◌then◌else◌, Option,
  none, some,
}
use nookdb.Bytes.{Bytes, cmp, blt}

-- What is left of `k` after `p`.
unfoldable pub after : Bytes → Bytes → Option Bytes
after [] k = some k
after (x ∷ p) [] = none
after (x ∷ p) (y ∷ k) = if x == y then after p k else none

-- `k` begins with `p`.
abbrev pub begins : Bytes → Bytes → Bool
begins p k = is_some (after p k)

-- `k` lies in the half-open range from `lo` to `hi`.
abbrev pub in_range : Bytes → Bytes → Bytes → Bool
in_range lo hi k = not (blt k lo) && blt k hi

pub after_append : (p r : Bytes) → after p (p ++ r) ≡ some r
unfolding after
after_append [] r = refl
after_append (x ∷ p) r = ground (arith, after_append p r)

pub after_sound : (p k r : Bytes) → after p k ≡ some r → k ≡ p ++ r
unfolding after
after_sound [] k r h = ground arith
after_sound (x ∷ p) [] r h = ground arith
after_sound (x ∷ p) (y ∷ k) r h = ground (arith, after_sound p k r)

-- A key lies in the range of a prefix exactly when it begins with the prefix and a 0 byte.
pub in_range_iff : (p k : Bytes) → in_range (p ++ 0 ∷ []) (p ++ 1 ∷ []) k ≡ begins (p ++ 0 ∷ []) k
unfolding after cmp
in_range_iff [] [] = refl
in_range_iff [] (zero ∷ []) = refl
in_range_iff [] (zero ∷ (x ∷ k)) = refl
in_range_iff [] (suc y ∷ []) = ground arith
in_range_iff [] (suc y ∷ (z ∷ k)) = ground arith
in_range_iff (x ∷ p) [] = refl
in_range_iff (x ∷ p) (y ∷ k) = ground (arith, in_range_iff p k)
