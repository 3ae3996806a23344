-- ===== src/Rows/Laws.antt =====
-- Lookup and order after a change.
use nookdb.Prelude.{true, false, ◌≡◌, none, some, [], ◌∷◌, if◌then◌else◌, arith, refl}
use nookdb.Bytes.{Bytes, beq, blt, beq_iff}
use nookdb.Bytes.Order.{cmp_refl, cmp_eq, cmp_flip_gt, cmp_trans}
use nookdb.Rows.{Rows, lookup, insert, remove, Below, IsSorted}

blt_trans : (a b c : Bytes) → blt a b ≡ true → blt b c ≡ true → blt a c ≡ true
blt_trans a b c h k = ground (arith, cmp_trans a b c)

pub blt_ne : (a b : Bytes) → blt a b ≡ true → beq a b ≡ false
blt_ne a b h = ground (arith, beq_iff a b, cmp_refl a)

-- A key that differs and is not below is above.
blt_total : (a b : Bytes) → beq a b ≡ false → blt b a ≡ false → blt a b ≡ true
blt_total a b h k = ground (arith, beq_iff a b, cmp_eq a b, cmp_flip_gt a b)

pub Below-trans : (k j : Bytes) (rows : Rows) → blt k j ≡ true → Below j rows → Below k rows
Below-trans k j [] h b = tt
Below-trans k j ((i, v) ∷ rows) h b = (blt_trans k j i h b.0, Below-trans k j rows h b.1)

pub Below-lookup : (k : Bytes) (rows : Rows) → Below k rows → lookup k rows ≡ none
unfolding lookup
Below-lookup k [] b = refl
Below-lookup k ((i, v) ∷ rows) b =
    ground (arith, blt_ne k i b.0, beq_iff k i, beq_iff i k, Below-lookup k rows b.1)

Below-insert :
    (j k v : Bytes) (rows : Rows) → blt j k ≡ true → Below j rows → Below j (insert k v rows)
unfolding insert
Below-insert j k v [] h b = (h, tt)
Below-insert j k v ((i, w) ∷ rows) h b = ground (arith, Below-insert j k v rows h b.1, beq_iff i k)

Below-remove : (j k : Bytes) (rows : Rows) → Below j rows → Below j (remove k rows)
unfolding remove
Below-remove j k [] b = tt
Below-remove j k ((i, w) ∷ rows) b = ground (arith, Below-remove j k rows b.1)

pub insert-IsSorted : (k v : Bytes) (rows : Rows) → IsSorted rows → IsSorted (insert k v rows)
unfolding insert
insert-IsSorted k v [] s = (tt, tt)
insert-IsSorted k v ((i, w) ∷ rows) s = ground (
  arith,
  insert-IsSorted k v rows s.1,
  beq_iff i k,
  blt_total i k,
  Below-insert i k v rows,
  Below-trans k i rows,
)

pub remove-IsSorted : (k : Bytes) (rows : Rows) → IsSorted rows → IsSorted (remove k rows)
unfolding remove
remove-IsSorted k [] s = tt
remove-IsSorted k ((i, w) ∷ rows) s =
    ground (arith, remove-IsSorted k rows s.1, Below-remove i k rows s.0)

pub lookup-insert :
    (k j v : Bytes) (rows : Rows)
    → lookup j (insert k v rows) ≡ (if beq k j then some v else lookup j rows)
unfolding lookup insert
lookup-insert k j v [] = refl
lookup-insert k j v ((i, w) ∷ rows) =
    ground (arith, lookup-insert k j v rows, beq_iff i k, beq_iff k j, beq_iff i j)

pub lookup-remove :
    (k j : Bytes) (rows : Rows)
    → IsSorted rows
    → lookup j (remove k rows) ≡ (if beq k j then none else lookup j rows)
unfolding lookup remove
lookup-remove k j [] s = ground arith
lookup-remove k j ((i, w) ∷ rows) s = ground (
  arith,
  lookup-remove k j rows s.1,
  beq_iff i k,
  beq_iff k j,
  beq_iff i j,
  Below-lookup i rows s.0,
)
