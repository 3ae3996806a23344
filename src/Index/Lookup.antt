-- ===== src/Index/Lookup.antt =====
-- About `lookup_eq` and `index_value_exists` of crates/nookdb-core/src/index/engine.rs over a lawful
-- engine: which entries they see.
use nookdb.Prelude.{◌≡◌, refl, [], ◌∷◌, ◌++◌, map, filter, arith}
use nookdb.Bytes.{Bytes}
use nookdb.Bytes.Affix.{begins}
use nookdb.Error.{ok}
use nookdb.Index.{prefix, encode_index_value, lookup_eq, index_value_exists}
use nookdb.Index.Exact.{stem, range_of_prefix, has_entry, nonempty-has_entry}
use nookdb.Json.{Value, External}
use nookdb.Redb.{Redb, IsLawful}
use nookdb.Rows.{Rows, slice}
use nookdb.Storage.Pure.{table_rows, read_index}
use nookdb.Storage.Tx.{ReadTx}

-- The rows whose key begins with the names and the text, each with a NUL after it.
abbrev pub entries_of : Bytes → Bytes → Bytes → Rows → Rows
entries_of c f e index = filter (λ row. begins (stem c f e ++ 0 ∷ []) row.0) index

slice-entries_of :
    (c f e : Bytes) (index : Rows)
    → (let (lo, hi) = prefix c f e in slice lo hi index ≡ entries_of c f e index)
slice-entries_of c f e [] = refl
slice-entries_of c f e ((k, v) ∷ index) =
    ground (arith, range_of_prefix c f e k, slice-entries_of c f e index)

module _ {N F T : Type 0} (x : External N F) (r : Redb T) (law : IsLawful r) where
  -- Over a lawful engine: an equality lookup returns, in key order, the ids of exactly the index rows
  -- whose key begins with the collection, the field and the text of the value, each followed by a
  -- NUL, and the test for existence answers whether there is such a row.
  pub lookup_eq_lem :
      (c f : Bytes) (v : Value N) (tx : ReadTx T)
      → (lookup_eq x r c f v tx
          ≡ ok (
              map
                (λ row. row.1)
                (entries_of c f (encode_index_value x v) (table_rows r law tx.index_table))))
        × (index_value_exists x r c f v tx
            ≡ ok (has_entry c f (encode_index_value x v) (table_rows r law tx.index_table)))
  unfolding lookup_eq index_value_exists
  lookup_eq_lem c f v tx =
      let e = encode_index_value x v in
      let (lo, hi) = prefix c f e in
      let index = table_rows r law tx.index_table in
      (
        rw (read_index r law tx lo hi, slice-entries_of c f e index) refl,
        rw (read_index r law tx lo hi, nonempty-has_entry c f e index) refl,
      )
