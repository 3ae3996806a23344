-- ===== src/Rows/Erased.antt =====
-- Rows from which a list of keys is removed, one after another.
use nookdb.Prelude.{
  ◌≡◌, refl, Bool, not, none, some, [], ◌∷◌, All, filter, arith, is_some, if◌then◌else◌,
}
use nookdb.Bytes.{Bytes}
use nookdb.Rows.{Rows, lookup, remove, Below, IsSorted}
use nookdb.Rows.Laws.{lookup-remove, remove-IsSorted, blt_ne}
use nookdb.Rows.Extent.{rows_ext}
use nookdb.Rows.Chosen.{filter-IsSorted, lookup-filter}

-- The rows without those of a list of keys.
abbrev pub erased : Rows → Rows → Rows
erased [] rows = rows
erased ((j, _) ∷ part) rows = erased part (remove j rows)

erased-IsSorted : (part rows : Rows) → IsSorted rows → IsSorted (erased part rows)
erased-IsSorted [] rows s = s
erased-IsSorted ((j, v) ∷ part) rows s =
    erased-IsSorted part (remove j rows) (remove-IsSorted j rows s)

lookup-erased :
    (k : Bytes) (part rows : Rows)
    → IsSorted rows
    → lookup k (erased part rows) ≡ (if is_some (lookup k part) then none else lookup k rows)
unfolding lookup
lookup-erased k [] rows s = refl
lookup-erased k ((j, v) ∷ part) rows s = ground (
  arith,
  lookup-erased k part (remove j rows) (remove-IsSorted j rows s),
  lookup-remove j k rows s,
)

-- To remove the rows that pass a test is to keep the others.
pub erased-filter :
    (good : Bytes → Bool) (rows : Rows)
    → IsSorted rows
    → erased (filter (λ row. good row.1) rows) rows ≡ filter (λ row. not (good row.1)) rows
erased-filter good rows s =
    let part = filter (λ row. good row.1) rows in
    rows_ext _ _ (erased-IsSorted part rows s) (filter-IsSorted (λ b. not (good b)) rows s) λ k.
      rw
        (
          lookup-erased k part rows s,
          lookup-filter (λ b. not (good b)) k rows s,
          lookup-filter good k rows s,
        )
        (ground arith)

-- Rows that are found are found after a smaller key is removed.
pub found_past :
    (j : Bytes) (rows part : Rows)
    → IsSorted rows
    → Below j part
    → All (λ row. lookup row.0 rows ≡ some row.1) part
    → All (λ row. lookup row.0 (remove j rows) ≡ some row.1) part
found_past j rows [] s b h = tt
found_past j rows ((i, v) ∷ part) s b h =
    (rw (lookup-remove j i rows s, blt_ne j i b.0) h.0, found_past j rows part s b.1 h.1)
