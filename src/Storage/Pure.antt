-- ===== src/Storage/Pure.antt =====
-- What the transaction handles of crates/nookdb-core/src/storage.rs compute over a lawful engine.
use nookdb.Prelude.{
  ◌≡◌, refl, Bool, true, false, Option, none, some, List, [], ◌∷◌, ◌++◌, map, arith, is_some,
  Option-cases, inl, inr,
}
use nookdb.Bytes.{Bytes}
use nookdb.Bytes.Affix.{in_range_iff, after}
use nookdb.Codec.Keys.{IsName, encode_key_lem, lower_lem, upper_lem, strip-after}
use nookdb.Error.{ok}
use nookdb.Notify.{DocChange, ChangeOp}
use nookdb.Redb.{Redb, IsLawful, done}
use nookdb.Rows.{Rows, IsSorted, lookup, slice, user_rows}
use nookdb.Rows.Users.{composite, lookup-user_rows, user_rows-cons}
use nookdb.Storage.Read
use nookdb.Storage.Write
use nookdb.Storage.Tx.{ReadTx, WriteTx, collect, collect_values, collect_stripped}

pub collect_done : (rows : Rows) → collect (map (λ row. done row) rows) ≡ ok rows
unfolding collect
collect_done [] = refl
collect_done (row ∷ rows) = rw (collect_done rows)

pub collect_values_done :
    (rows : Rows) → collect_values (map (λ row. done row) rows) ≡ ok (map (λ row. row.1) rows)
unfolding collect_values
collect_values_done [] = refl
collect_values_done (row ∷ rows) = rw (collect_values_done rows)

-- The scan of a collection's range, stripped, is the collection's rows.
pub collect_stripped_done :
    (c : Bytes) (rows : Rows)
    → collect_stripped c (map (λ row. done row) (slice (c ++ 0 ∷ []) (c ++ 1 ∷ []) rows))
      ≡ ok (user_rows c rows)
unfolding collect_stripped
collect_stripped_done c [] = unfold user_rows in refl
collect_stripped_done c ((j, v) ∷ rows) = elim (Option-cases (after (c ++ 0 ∷ []) j)) [
  | inl e ↦ rw (in_range_iff, e, user_rows-cons, e) (collect_stripped_done c rows)
  | inr (u, e) ↦
      rw (in_range_iff, e, strip-after, e, user_rows-cons, e, collect_stripped_done c rows)
]

-- The values of an index range are those of the rows below its prefix.
pub values_of_slice :
    (c : Bytes) (rows : Rows)
    → map (λ row. row.1) (slice (c ++ 0 ∷ []) (c ++ 1 ∷ []) rows)
      ≡ map (λ row. row.1) (user_rows c rows)
values_of_slice c [] = unfold user_rows in refl
values_of_slice c ((j, v) ∷ rows) = elim (Option-cases (after (c ++ 0 ∷ []) j)) [
  | inl e ↦ rw (in_range_iff, e, user_rows-cons, e) (values_of_slice c rows)
  | inr (u, e) ↦ rw (in_range_iff, e, user_rows-cons, e, values_of_slice c rows)
]

abbrev pub change : Bytes → ChangeOp → Bytes → DocChange
change c op k = record { collection = c; op = op; doc_id = k }

abbrev pub touched_by_delete : Bytes → Bytes → Bool → List DocChange → List DocChange
touched_by_delete c k true l = l ++ change c ChangeOp.delete k ∷ []
touched_by_delete c k false l = l

module _ {T : Type 0} (r : Redb T) (law : IsLawful r) where
  open law use {rows, inserted, removed}

  unfoldable pub table_rows : Option T → Rows
  table_rows none = []
  table_rows (some t) = rows t

  pub table_rows-some : (t : T) → table_rows (some t) ≡ rows t
  unfolding table_rows
  table_rows-some t = refl

  pub table_rows-IsSorted : (o : Option T) → IsSorted (table_rows o)
  unfolding table_rows
  table_rows-IsSorted none = tt
  table_rows-IsSorted (some t) = law.rows-IsSorted t

  get_from_ok :
      (o : Option T) (c k : Bytes)
      → IsName c
      → Read.get_from r o c k ≡ ok (lookup k (user_rows c (table_rows o)))
  unfolding Read.get_from table_rows
  get_from_ok none c k h = rw (encode_key_lem c k h) (unfold lookup user_rows in refl)
  get_from_ok (some t) c k h = rw (encode_key_lem c k h, law.get_ok, lookup-user_rows)

  -- A read returns what the rows of its collection hold.
  pub read_get :
      (tx : ReadTx T) (c k : Bytes)
      → IsName c
      → Read.get r tx c k ≡ ok (lookup k (user_rows c (table_rows tx.table)))
  unfolding Read.get
  read_get tx c k h = get_from_ok tx.table c k h

  list_from_ok :
      (o : Option T) (c : Bytes) → IsName c → Read.list_from r o c ≡ ok (user_rows c (table_rows o))
  unfolding Read.list_from table_rows
  list_from_ok none c h = rw (lower_lem c h) (unfold user_rows in refl)
  list_from_ok (some t) c h = rw (lower_lem c h, upper_lem c h, law.range_ok, collect_stripped_done)

  pub read_list :
      (tx : ReadTx T) (c : Bytes)
      → IsName c
      → Read.list_collection r tx c ≡ ok (user_rows c (table_rows tx.table))
  unfolding Read.list_collection
  read_list tx c h = list_from_ok tx.table c h

  raw_from_ok : (o : Option T) → Read.raw_from r o ≡ ok (table_rows o)
  unfolding Read.raw_from table_rows
  raw_from_ok none = refl
  raw_from_ok (some t) = rw (law.iter_ok, collect_done)

  pub read_raw : (tx : ReadTx T) → Read.list_entries_raw r tx ≡ ok (table_rows tx.table)
  unfolding Read.list_entries_raw
  read_raw tx = raw_from_ok tx.table

  values_from_ok :
      (o : Option T) (lo hi : Bytes)
      → Read.values_from r o lo hi ≡ ok (map (λ row. row.1) (slice lo hi (table_rows o)))
  unfolding Read.values_from table_rows
  values_from_ok none lo hi = refl
  values_from_ok (some t) lo hi = rw (law.range_ok, collect_values_done)

  pub read_index :
      (tx : ReadTx T) (lo hi : Bytes)
      → Read.index_range_values r tx lo hi
        ≡ ok (map (λ row. row.1) (slice lo hi (table_rows tx.index_table)))
  unfolding Read.index_range_values
  read_index tx lo hi = values_from_ok tx.index_table lo hi

  -- `put` and `delete` for an accepted name, and the index writes: the state that they leave.
  pub put_ok :
      (c k v : Bytes) (tx : WriteTx T)
      → IsName c
      → Write.put r c k v tx
        ≡ ok (
          tt,
          record tx {
            table = inserted tx.table (composite c k) v;
            touched = tx.touched ++ change c ChangeOp.insert k ∷ [];
          },
        )
  unfolding Write.put
  put_ok c k v tx h = ground (arith, encode_key_lem c k h, law.insert_ok tx.table (composite c k) v)

  pub write_get :
      (c k : Bytes) (tx : WriteTx T)
      → IsName c
      → Write.get r c k tx ≡ ok (lookup k (user_rows c (rows tx.table)), tx)
  unfolding Write.get
  write_get c k tx h = rw (encode_key_lem c k h, law.get_ok, lookup-user_rows)

  pub delete_ok :
      (c k : Bytes) (tx : WriteTx T)
      → IsName c
      → (let there = is_some (lookup k (user_rows c (rows tx.table))) in
          Write.delete r c k tx
          ≡ ok (
            there,
            record tx {
              table = removed tx.table (composite c k);
              touched = touched_by_delete c k there tx.touched;
            },
          ))
  unfolding Write.delete
  delete_ok c k tx h = ground (
    arith,
    encode_key_lem c k h,
    law.remove_ok tx.table (composite c k),
    lookup-user_rows c k (rows tx.table),
  )

  pub index_put_ok :
      (k v : Bytes) (tx : WriteTx T)
      → Write.index_put r k v tx ≡ ok (tt, record tx { index_table = inserted tx.index_table k v })
  unfolding Write.index_put
  index_put_ok k v tx = ground (arith, law.insert_ok tx.index_table k v)

  pub index_delete_ok :
      (k : Bytes) (tx : WriteTx T)
      → Write.index_delete r k tx ≡ ok (tt, record tx { index_table = removed tx.index_table k })
  unfolding Write.index_delete
  index_delete_ok k tx = ground (arith, law.remove_ok tx.index_table k)

  pub write_index :
      (lo hi : Bytes) (tx : WriteTx T)
      → Write.index_range_values r lo hi tx
        ≡ ok (map (λ row. row.1) (slice lo hi (rows tx.index_table)), tx)
  unfolding Write.index_range_values
  write_index lo hi tx = ground (
    arith,
    law.range_ok tx.index_table lo hi,
    collect_values_done (slice lo hi (rows tx.index_table)),
  )
