-- ===== src/Rows/Chosen.antt =====
-- Rows that pass a test on their values, found by a scan or through pointers to their keys.
use nookdb.Prelude.{
  Bool, true, ◌≡◌, ◌∙◌, refl, sym, Option, none, some, [], ◌∷◌, ◌⊎◌, inl, inr, All, filter, arith,
  is_some, if◌then◌else◌, Option-cases,
}
use nookdb.Bytes.{Bytes, beq, blt, beq_iff, beq_refl}
use nookdb.Bytes.Order.{cmp_refl}
use nookdb.Rows.{Row, Rows, lookup, Below, IsSorted}
use nookdb.Rows.Laws.{Below-lookup}
use nookdb.Rows.Extent.{rows_ext}

lookup_past :
    (i j v : Bytes) (rows : Rows) → blt j i ≡ true → lookup i ((j, v) ∷ rows) ≡ lookup i rows
unfolding lookup
lookup_past i j v rows h = ground (arith, beq_iff j i, cmp_refl i)

All-lookup_past :
    (j v : Bytes) (rows part : Rows)
    → Below j part
    → All (λ row. lookup row.0 rows ≡ some row.1) part
    → All (λ row. lookup row.0 ((j, v) ∷ rows) ≡ some row.1) part
All-lookup_past j v rows [] b h = tt
All-lookup_past j v rows ((i, w) ∷ part) b h =
    (lookup_past i j v rows b.0 ∙ h.0, All-lookup_past j v rows part b.1 h.1)

-- Every row of sorted rows is found under its key.
pub All-lookup : (rows : Rows) → IsSorted rows → All (λ row. lookup row.0 rows ≡ some row.1) rows
All-lookup [] s = tt
All-lookup ((j, v) ∷ rows) s =
    (unfold lookup in rw beq_refl, All-lookup_past j v rows rows s.0 (All-lookup rows s.1))

module _ (good : Bytes → Bool) where
  abbrev pub chosen : Option Bytes → Option Bytes
  chosen none = none
  chosen (some b) = if good b then some b else none

  Below-filter :
      (k : Bytes) (rows : Rows) → Below k rows → Below k (filter (λ row. good row.1) rows)
  Below-filter k [] b = tt
  Below-filter k ((j, v) ∷ rows) b = ground (arith, Below-filter k rows b.1)

  pub filter-IsSorted : (rows : Rows) → IsSorted rows → IsSorted (filter (λ row. good row.1) rows)
  filter-IsSorted [] s = tt
  filter-IsSorted ((j, v) ∷ rows) s =
      ground (arith, filter-IsSorted rows s.1, Below-filter j rows s.0)

  pub lookup-filter :
      (k : Bytes) (rows : Rows)
      → IsSorted rows
      → lookup k (filter (λ row. good row.1) rows) ≡ chosen (lookup k rows)
  unfolding lookup
  lookup-filter k [] s = refl
  lookup-filter k ((j, v) ∷ rows) s =
      ground (arith, lookup-filter k rows s.1, Below-lookup j rows s.0, beq_iff j k)

  module _ (rows : Rows) where
    -- The rows that an index points to, and that pass the test, in the order of the index.
    abbrev pub gather_onto : Bytes → Option Bytes → Rows → Rows
    gather_onto v none rest = rest
    gather_onto v (some b) rest = (v, b) ∷ rest

    abbrev pub gather : Rows → Rows
    gather [] = []
    gather ((j, v) ∷ index) = gather_onto v (chosen (lookup v rows)) (gather index)

    -- A pointer under the key that it points to, or one that the test makes of no account.
    abbrev pub Points : Row → Type 0
    Points row =
        (row.0 ≡ row.1)
        ⊎ ((chosen (lookup row.0 rows) ≡ none) × (chosen (lookup row.1 rows) ≡ none))

    lookup-gather_cons :
        (k j v : Bytes) (rest : Rows)
        → lookup k (gather_onto v (chosen (lookup v rows)) rest) ≡ (
            if beq v k
            then (elim (chosen (lookup v rows)) [ none ↦ lookup k rest | some b ↦ some b ])
            else lookup k rest)
    unfolding lookup
    lookup-gather_cons k j v rest = ground arith

    lookup-gather :
        (k : Bytes) (index : Rows)
        → All Points index
        → lookup k (gather index)
          ≡ (if is_some (lookup k index) then chosen (lookup k rows) else none)
    unfolding lookup
    lookup-gather k [] h = refl
    lookup-gather k ((j, v) ∷ index) h = elim h.0 [
      | inl e ↦
          rw (lookup-gather_cons k j v (gather index), sym e)
            (ground (arith, lookup-gather k index h.1, beq_iff j k))
      | inr p ↦ rw (p.1) (ground (arith, lookup-gather k index h.1, beq_iff j k, p.0))
    ]

    Below-onto :
        (k v : Bytes) (o : Option Bytes) (rest : Rows)
        → blt k v ≡ true
        → Below k rest
        → Below k (gather_onto v o rest)
    Below-onto k v none rest h b = b
    Below-onto k v (some w) rest h b = (h, b)

    onto-IsSorted :
        (v : Bytes) (o : Option Bytes) (rest : Rows)
        → Below v rest
        → IsSorted rest
        → IsSorted (gather_onto v o rest)
    onto-IsSorted v none rest b s = s
    onto-IsSorted v (some w) rest b s = (b, s)

    Below-gather :
        (k : Bytes) (index : Rows) → All Points index → Below k index → Below k (gather index)
    Below-gather k [] h b = tt
    Below-gather k ((j, v) ∷ index) h b = elim h.0 [
      | inl e ↦ rw (sym e) (
          Below-onto k j (chosen (lookup j rows)) (gather index) b.0 (Below-gather k index h.1 b.1))
      | inr p ↦ rw (p.1) (Below-gather k index h.1 b.1)
    ]

    gather-IsSorted : (index : Rows) → All Points index → IsSorted index → IsSorted (gather index)
    gather-IsSorted [] h s = tt
    gather-IsSorted ((j, v) ∷ index) h s = elim h.0 [
      | inl e ↦ rw (sym e) (
          onto-IsSorted j (chosen (lookup j rows)) (gather index) (Below-gather j index h.1 s.0)
            (gather-IsSorted index h.1 s.1))
      | inr p ↦ rw (p.1) (gather-IsSorted index h.1 s.1)
    ]

    -- The rows that are reached through the index are those that a scan finds, in its order.
    pub gather-filter :
        (index : Rows)
        → IsSorted rows
        → IsSorted index
        → All Points index
        → ((k b : Bytes) → chosen (lookup k rows) ≡ some b → is_some (lookup k index) ≡ true)
        → gather index ≡ filter (λ row. good row.1) rows
    gather-filter index s t h full =
        rows_ext _ _ (gather-IsSorted index h t) (filter-IsSorted rows s) λ k.
          rw (lookup-gather k index h, lookup-filter k rows s)
            (elim (Option-cases (chosen (lookup k rows))) [
              | inl e ↦ ground (arith, e)
              | inr (b, e) ↦ ground (arith, full k b e)
            ])
