-- ===== src/Storage/Read.antt =====
-- `impl ReadTx` of crates/nookdb-core/src/storage.rs.
use nookdb.Prelude.{Option, none, some, List, []}
use nookdb.Bytes.{Bytes}
use nookdb.Rows.{Row}
use nookdb.Redb.{Redb, Store}
use nookdb.Error.{Result, ok, ◌>>=◌, ◌>>◌}
use nookdb.Codec.{encode_key, collection_prefix_lower, collection_prefix_upper}
use nookdb.Storage.Tx.{
  ReadTx, map_err, absent_ok, collect, collect_values, collect_stripped, map_redb_storage_error,
}

module _ {T : Type 0} (r : Redb T) where
  unfoldable pub new : Store T → Result (ReadTx T)
  new s = do
    table ← absent_ok (r.open_read s.entries)
    index_table ← absent_ok (r.open_read s.index)
    ok (record { table = table; index_table = index_table })

  -- the body of `get` on each case of the table
  unfoldable pub get_from : Option T → Bytes → Bytes → Result (Option Bytes)
  get_from none collection key = do encode_key collection key; ok none
  get_from (some t) collection key = do
    composite ← encode_key collection key
    map_err map_redb_storage_error (r.get t composite)

  unfoldable pub get : ReadTx T → Bytes → Bytes → Result (Option Bytes)
  unfolding get_from
  get tx collection key = get_from tx.table collection key

  unfoldable pub list_from : Option T → Bytes → Result (List Row)
  list_from none collection = do collection_prefix_lower collection; ok []
  list_from (some t) collection = do
    lower ← collection_prefix_lower collection
    upper ← collection_prefix_upper collection
    items ← map_err map_redb_storage_error (r.range t lower upper)
    collect_stripped collection items

  unfoldable pub list_collection : ReadTx T → Bytes → Result (List Row)
  unfolding list_from
  list_collection tx collection = list_from tx.table collection

  unfoldable pub raw_from : Option T → Result (List Row)
  raw_from none = ok []
  raw_from (some t) = do items ← map_err map_redb_storage_error (r.iter t); collect items

  unfoldable pub list_entries_raw : ReadTx T → Result (List Row)
  unfolding raw_from
  list_entries_raw tx = raw_from tx.table

  unfoldable pub values_from : Option T → Bytes → Bytes → Result (List Bytes)
  values_from none lo hi = ok []
  values_from (some t) lo hi = do
    items ← map_err map_redb_storage_error (r.range t lo hi)
    collect_values items

  unfoldable pub index_range_values : ReadTx T → Bytes → Bytes → Result (List Bytes)
  unfolding values_from
  index_range_values tx lo hi = values_from tx.index_table lo hi
