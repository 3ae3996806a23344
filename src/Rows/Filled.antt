-- ===== src/Rows/Filled.antt =====
-- Rows that are put in ascending order, as a restore of crates/nookdb-core/src/backup.rs does.
use nookdb.Prelude.{◌≡◌, refl, true, List, [], ◌∷◌, ◌++◌, append_assoc, append-nil, arith}
use nookdb.Bytes.{Bytes, blt, beq_iff}
use nookdb.Bytes.Order.{cmp_refl, cmp_flip}
use nookdb.Rows.{Row, Rows, insert, Below, IsSorted}

abbrev pub put_rows : Rows → List Row → Rows
put_rows acc [] = acc
put_rows acc (row ∷ rows) = put_rows (insert row.0 row.1 acc) rows

later_above : (j k v : Bytes) (acc rows : Rows) → Below j (acc ++ (k, v) ∷ rows) → blt j k ≡ true
later_above j k v [] rows b = b.0
later_above j k v (row ∷ acc) rows b = later_above j k v acc rows b.1

insert_last :
    (k v : Bytes) (acc rows : Rows)
    → IsSorted (acc ++ (k, v) ∷ rows)
    → insert k v acc ≡ acc ++ (k, v) ∷ []
unfolding insert
insert_last k v [] rows s = refl
insert_last k v ((j, w) ∷ acc) rows s = ground (
  arith,
  insert_last k v acc rows s.1,
  later_above j k v acc rows s.0,
  beq_iff j k,
  cmp_refl k,
  cmp_flip j k,
)

-- Rows put in their order behind smaller ones end there in that order.
pub put_rows_lem : (acc rows : Rows) → IsSorted (acc ++ rows) → put_rows acc rows ≡ acc ++ rows
put_rows_lem acc [] s = rw (append-nil acc)
put_rows_lem acc (row ∷ rows) s =
    let e : insert row.0 row.1 acc ≡ acc ++ row ∷ [] = insert_last row.0 row.1 acc rows s in
    let n : (acc ++ row ∷ []) ++ rows ≡ acc ++ row ∷ rows = append_assoc acc (row ∷ []) rows in
    rw (e, put_rows_lem (acc ++ row ∷ []) rows (rw n s), n)
