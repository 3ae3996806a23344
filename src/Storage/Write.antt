-- ===== src/Storage/Write.antt =====
-- `impl WriteTx` of crates/nookdb-core/src/storage.rs.
use nookdb.Prelude.{Bool, true, false, Option, List, [], ◌∷◌, ◌++◌, is_some}
use nookdb.Bytes.{Bytes}
use nookdb.Rows.{Row}
use nookdb.Redb.{Redb, Store}
use nookdb.Error
use nookdb.Error.{Result, ok, err}
use nookdb.Codec.{encode_key, collection_prefix_lower, collection_prefix_upper}
use nookdb.Notify.{DocChange, ChangeOp}
use nookdb.Storage.Tx.{
  WriteTx, Tx, ◌>>=◌, ◌>>◌, pure, lift, map_err, collect_values, collect_stripped,
  map_redb_storage_error, map_redb_table_error,
}

module _ {T : Type 0} where
  unfoldable pub take_touched : WriteTx T → List DocChange × WriteTx T
  take_touched tx = (tx.touched, record tx { touched = [] })

  abbrev pub with_table : T → Tx T (Unit {0})
  with_table t tx = ok (tt, record tx { table = t })

  abbrev pub with_index : T → Tx T (Unit {0})
  with_index t tx = ok (tt, record tx { index_table = t })

  -- `self.touched.push(…)`
  abbrev pub touch : Bytes → ChangeOp → Bytes → Tx T (Unit {0})
  touch collection op key tx = ok (
    tt,
    record tx {
      touched = tx.touched ++ record { collection = collection; op = op; doc_id = key } ∷ [];
    },
  )

  -- a call of the engine on the entries, or on the index
  abbrev pub on_table : {A : Type 0} → (T → Result A) → Tx T A
  on_table f tx = lift (f tx.table) tx

  abbrev pub on_index : {A : Type 0} → (T → Result A) → Tx T A
  on_index f tx = lift (f tx.index_table) tx

abbrev is_nonempty : {A : Type 0} → List A → Bool
is_nonempty [] = false
is_nonempty (x ∷ xs) = true

module _ {T : Type 0} (r : Redb T) where
  unfoldable pub new : Store T → Result (WriteTx T)
  unfolding map_redb_table_error
  new s = Error.◌>>=◌ (map_err map_redb_table_error (r.open_write s.entries)) λ table.
      Error.◌>>=◌ (map_err map_redb_table_error (r.open_write s.index))
        λ index_table. ok (record { table = table; index_table = index_table; touched = [] })

  unfoldable pub put : Bytes → Bytes → Bytes → Tx T (Unit {0})
  put collection key value = do
    composite ← lift (encode_key collection key)
    t ← on_table (λ t. map_err map_redb_storage_error (r.insert t composite value))
    with_table t
    touch collection ChangeOp.insert key

  unfoldable pub get : Bytes → Bytes → Tx T (Option Bytes)
  get collection key = do
    composite ← lift (encode_key collection key)
    on_table (λ t. map_err map_redb_storage_error (r.get t composite))

  abbrev pub touch_if : Bool → Bytes → ChangeOp → Bytes → Tx T (Unit {0})
  touch_if true collection op key = touch collection op key
  touch_if false collection op key = pure tt

  unfoldable pub delete : Bytes → Bytes → Tx T Bool
  delete collection key = do
    composite ← lift (encode_key collection key)
    removed ← on_table (λ t. map_err map_redb_storage_error (r.remove t composite))
    with_table removed.0
    touch_if (is_some removed.1) collection ChangeOp.delete key
    pure (is_some removed.1)

  unfoldable pub index_put : Bytes → Bytes → Tx T (Unit {0})
  index_put k v = do
    t ← on_index (λ t. map_err map_redb_storage_error (r.insert t k v))
    with_index t

  unfoldable pub index_delete : Bytes → Tx T (Unit {0})
  index_delete k = do
    removed ← on_index (λ t. map_err map_redb_storage_error (r.remove t k))
    with_index removed.0

  unfoldable pub index_range_values : Bytes → Bytes → Tx T (List Bytes)
  index_range_values lo hi = do
    items ← on_index (λ t. map_err map_redb_storage_error (r.range t lo hi))
    lift (collect_values items)

  unfoldable pub has_any_entry : Tx T Bool
  has_any_entry = do
    items ← on_table (λ t. map_err map_redb_storage_error (r.iter t))
    pure (is_nonempty items)

  unfoldable pub clear_entries : Tx T (Unit {0})
  clear_entries = do
    t ← on_table (λ t. map_err map_redb_storage_error (r.retain_none t))
    with_table t
    i ← on_index (λ t. map_err map_redb_storage_error (r.retain_none t))
    with_index i

  unfoldable pub put_raw : Bytes → Bytes → Tx T (Unit {0})
  put_raw composite_key value = do
    t ← on_table (λ t. map_err map_redb_storage_error (r.insert t composite_key value))
    with_table t

  unfoldable pub list_collection : Bytes → Tx T (List Row)
  list_collection collection = do
    lower ← lift (collection_prefix_lower collection)
    upper ← lift (collection_prefix_upper collection)
    items ← on_table (λ t. map_err map_redb_storage_error (r.range t lower upper))
    lift (collect_stripped collection items)
