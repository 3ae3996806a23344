-- ===== src/Rows/Users.antt =====
-- The rows of a collection: lookups, order, and the effect of a write on each collection.
use nookdb.Prelude.{
  Option, subst, ◌≡◌, refl, sym, ◌∙◌, Bool, true, false, none, some, [], ◌∷◌, ◌++◌, arith,
  if◌then◌else◌, Option-cases, inl, inr, append_assoc,
}
use nookdb.Bytes.{Bytes, beq, cmp, beq_iff}
use nookdb.Bytes.Affix.{after, after_append, after_sound}
use nookdb.Rows.{Rows, lookup, insert, remove, Below, IsSorted, user_rows}
use nookdb.Rows.Laws.{lookup-insert, lookup-remove, insert-IsSorted, remove-IsSorted}
use nookdb.Rows.Extent.{rows_ext}
use nookdb.Codec.Keys.{IsName, split_at_nul}

-- The composite key.
abbrev pub composite : Bytes → Bytes → Bytes
composite c k = c ++ 0 ∷ k

composite_regroup : (c k : Bytes) → composite c k ≡ (c ++ 0 ∷ []) ++ k
composite_regroup c k = sym (append_assoc c (0 ∷ []) k)

after-composite : (c k : Bytes) → after (c ++ 0 ∷ []) (composite c k) ≡ some k
after-composite c k = rw (composite_regroup c k, after_append)

-- Two composite keys of one collection compare as their user keys.
cmp-composite : (c k l : Bytes) → cmp (composite c k) (composite c l) ≡ cmp k l
unfolding cmp
cmp-composite [] k l = ground arith
cmp-composite (x ∷ c) k l = ground (arith, cmp-composite c k l)

beq-composite : (c k l : Bytes) → beq (composite c k) (composite c l) ≡ beq k l
unfolding beq
beq-composite [] k l = ground arith
beq-composite (x ∷ c) k l = ground (arith, beq-composite c k l)

after-shape : (c j u : Bytes) → after (c ++ 0 ∷ []) j ≡ some u → j ≡ composite c u
after-shape c j u e = after_sound (c ++ 0 ∷ []) j u e ∙ sym (composite_regroup c u)

-- What a row contributes to the rows of a collection.
abbrev pub user_cons : Bytes → Option Bytes → Rows → Rows
user_cons v none rest = rest
user_cons v (some u) rest = (u, v) ∷ rest

pub user_rows-cons :
    (c j v : Bytes) (rows : Rows)
    → user_rows c ((j, v) ∷ rows) ≡ user_cons v (after (c ++ 0 ∷ []) j) (user_rows c rows)
unfolding user_rows
user_rows-cons c j v rows =
    elim (after (c ++ 0 ∷ []) j)
      as (λ o.
        (elim o [ none ↦ user_rows c rows | some u ↦ (u, v) ∷ user_rows c rows ])
        ≡ user_cons v o (user_rows c rows)) [ none ↦ refl | some u ↦ refl ]

pub lookup-user_rows :
    (c k : Bytes) (rows : Rows) → lookup k (user_rows c rows) ≡ lookup (composite c k) rows
unfolding lookup
lookup-user_rows c k [] = unfold user_rows in refl
lookup-user_rows c k ((j, v) ∷ rows) = elim (Option-cases (after (c ++ 0 ∷ []) j)) [
  | inl e ↦
      rw (user_rows-cons, e)
        (ground (arith, lookup-user_rows c k rows, beq_iff j (composite c k), after-composite c k))
  | inr (u, e) ↦
      rw (user_rows-cons, e)
        (ground (arith, lookup-user_rows c k rows, after-shape c j u e, beq-composite c u k))
]

Below-user_rows :
    (c k : Bytes) (rows : Rows) → Below (composite c k) rows → Below k (user_rows c rows)
Below-user_rows c k [] b = unfold user_rows in tt
Below-user_rows c k ((j, v) ∷ rows) b = elim (Option-cases (after (c ++ 0 ∷ []) j)) [
  | inl e ↦ rw (user_rows-cons, e) (Below-user_rows c k rows b.1)
  | inr (u, e) ↦
      rw (user_rows-cons, e)
        (ground (arith, after-shape c j u e, cmp-composite c k u), Below-user_rows c k rows b.1)
]

pub user_rows-IsSorted : (c : Bytes) (rows : Rows) → IsSorted rows → IsSorted (user_rows c rows)
user_rows-IsSorted c [] s = unfold user_rows in tt
user_rows-IsSorted c ((j, v) ∷ rows) s = elim (Option-cases (after (c ++ 0 ∷ []) j)) [
  | inl e ↦ rw (user_rows-cons, e) (user_rows-IsSorted c rows s.1)
  | inr (u, e) ↦
      rw (user_rows-cons, e)
        (
          Below-user_rows c u rows (subst (λ x. Below x rows) (after-shape c j u e) s.0),
          user_rows-IsSorted c rows s.1,
        )
]

-- Composite keys are equal when the collections and the user keys are.
pub beq-composites :
    (c d k l : Bytes)
    → IsName c
    → IsName d
    → beq (composite d k) (composite c l) ≡ (if beq d c then beq k l else false)
beq-composites c d k l h g = ground (
  arith,
  beq_iff (composite d k) (composite c l),
  beq_iff d c,
  beq_iff k l,
  split_at_nul d c k l g.nul_free h.nul_free,
)

if-IsSorted : (b : Bool) (p q : Rows) → IsSorted p → IsSorted q → IsSorted (if b then p else q)
if-IsSorted true p q h g = h
if-IsSorted false p q h g = g

lookup-if :
    (b : Bool) (j : Bytes) (p q : Rows)
    → lookup j (if b then p else q) ≡ (if b then lookup j p else lookup j q)
lookup-if true j p q = refl
lookup-if false j p q = refl

-- A write under one collection is a write to its rows, and leaves every other collection as it was.
pub user_rows-insert :
    (c d k v : Bytes) (rows : Rows)
    → IsName c
    → IsName d
    → IsSorted rows
    → user_rows c (insert (composite d k) v rows)
      ≡ (if beq d c then insert k v (user_rows c rows) else user_rows c rows)
user_rows-insert c d k v rows h g s =
    rows_ext _ _ (user_rows-IsSorted c _ (insert-IsSorted (composite d k) v rows s))
      (if-IsSorted _ _ _ (insert-IsSorted k v _ (user_rows-IsSorted c rows s))
        (user_rows-IsSorted c rows s))
      λ j.
        simp (lookup-if, lookup-user_rows, lookup-insert, beq-composites c d k j h g) (ground arith)

pub user_rows-remove :
    (c d k : Bytes) (rows : Rows)
    → IsName c
    → IsName d
    → IsSorted rows
    → user_rows c (remove (composite d k) rows)
      ≡ (if beq d c then remove k (user_rows c rows) else user_rows c rows)
user_rows-remove c d k rows h g s =
    rows_ext _ _ (user_rows-IsSorted c _ (remove-IsSorted (composite d k) rows s))
      (if-IsSorted _ _ _ (remove-IsSorted k _ (user_rows-IsSorted c rows s))
        (user_rows-IsSorted c rows s))
      λ j.
        let p = lookup-remove (composite d k) (composite c j) rows s in
        let q = lookup-remove k j (user_rows c rows) (user_rows-IsSorted c rows s) in
        simp (lookup-if, lookup-user_rows, p, q, beq-composites c d k j h g) (ground arith)
