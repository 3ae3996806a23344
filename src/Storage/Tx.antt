-- ===== src/Storage/Tx.antt =====
-- The transaction handles of crates/nookdb-core/src/storage.rs, and the error maps of
-- crates/nookdb-core/src/database.rs. A write transaction is a state monad over `WriteTx` that stops
-- at the first error; what a failed transaction had written is dropped with it.
use nookdb.Prelude.{Option, none, some, List, [], ◌∷◌}
use nookdb.Bytes.{Bytes}
use nookdb.Rows.{Row}
use nookdb.Redb.{Try, done, failed, StorageError, TableError, EngineError, table_does_not_exist}
use nookdb.Error
use nookdb.Error.{
  NookError, Result, ok, err, io_failure, corrupted, transactional, engine, missing_prefix, ok_or,
}
use nookdb.Codec.{strip_collection_prefix}
use nookdb.Notify.{DocChange}

unfoldable pub map_redb_storage_error : StorageError → NookError
map_redb_storage_error (StorageError.io n) = io_failure n
map_redb_storage_error (StorageError.corrupted n) = corrupted (engine n)
map_redb_storage_error (StorageError.other n) = transactional (engine n)

unfoldable pub map_redb_table_error : TableError → NookError
unfolding map_redb_storage_error
map_redb_table_error (TableError.storage s) = map_redb_storage_error s
map_redb_table_error table_does_not_exist = transactional (engine 0)
map_redb_table_error (TableError.other n) = transactional (engine n)

unfoldable pub map_redb_tx_error : EngineError → NookError
unfolding map_redb_storage_error
map_redb_tx_error (EngineError.storage s) = map_redb_storage_error s
map_redb_tx_error (EngineError.other n) = transactional (engine n)

unfoldable pub map_redb_commit_error : EngineError → NookError
unfolding map_redb_storage_error
map_redb_commit_error (EngineError.storage s) = map_redb_storage_error s
map_redb_commit_error (EngineError.other n) = transactional (engine n)

-- `io::Error::other(…)` of the message
unfoldable pub map_redb_db_error : EngineError → NookError
unfolding map_redb_storage_error
map_redb_db_error (EngineError.storage s) = map_redb_storage_error s
map_redb_db_error (EngineError.other n) = io_failure n

-- `r.map_err(f)?`
abbrev pub map_err : {E A : Type 0} → (E → NookError) → Try E A → Result A
map_err f (done a) = ok a
map_err f (failed e) = err (f e)

pub record ReadTx (T : Type 0) : Type 0 where
  pub table : Option T
  pub index_table : Option T

pub record WriteTx (T : Type 0) : Type 0 where
  pub table : T
  pub index_table : T
  pub touched : List DocChange

abbrev pub Tx : Type 0 → Type 0 → Type 0
Tx T A = WriteTx T → Result (A × WriteTx T)

infixl 5 ◌>>=◌ ◌>>◌
abbrev pub ◌>>=◌ : {T A B : Type 0} → Tx T A → (A → Tx T B) → Tx T B
◌>>=◌ m f tx = elim (m tx) [ ok r ↦ f r.0 r.1 | err e ↦ err e ]

abbrev pub ◌>>◌ : {T B : Type 0} → Tx T (Unit {0}) → Tx T B → Tx T B
m >> k = m >>= λ _. k

abbrev pub pure : {T A : Type 0} → A → Tx T A
pure a tx = ok (a, tx)

abbrev pub lift : {T A : Type 0} → Result A → Tx T A
lift m tx = elim m [ ok a ↦ ok (a, tx) | err e ↦ err e ]

-- The loop that copies scanned rows out, and stops at the first that cannot be read.
unfoldable pub collect : List (Try StorageError Row) → Result (List Row)
unfolding map_redb_storage_error
collect [] = ok []
collect (item ∷ items) =
    Error.◌>>=◌ (map_err map_redb_storage_error item)
      λ row. Error.◌>>=◌ (collect items) λ rows. ok (row ∷ rows)

unfoldable pub collect_values : List (Try StorageError Row) → Result (List Bytes)
unfolding map_redb_storage_error
collect_values [] = ok []
collect_values (item ∷ items) =
    Error.◌>>=◌ (map_err map_redb_storage_error item)
      λ row. Error.◌>>=◌ (collect_values items) λ vs. ok (row.1 ∷ vs)

-- The loop of `list_collection`: each key without the prefix of its collection.
unfoldable pub collect_stripped : Bytes → List (Try StorageError Row) → Result (List Row)
unfolding map_redb_storage_error
collect_stripped c [] = ok []
collect_stripped c (item ∷ items) = Error.◌>>=◌ (map_err map_redb_storage_error item) λ row.
    Error.◌>>=◌ (ok_or (strip_collection_prefix row.0 c) (corrupted (missing_prefix c)))
      λ key. Error.◌>>=◌ (collect_stripped c items) λ rows. ok ((key, row.1) ∷ rows)

-- A table that was never created reads as absent.
abbrev pub absent_ok : {T : Type 0} → Try TableError T → Result (Option T)
absent_ok (done t) = ok (some t)
absent_ok (failed table_does_not_exist) = ok none
absent_ok (failed (TableError.storage s)) = err (map_redb_table_error (TableError.storage s))
absent_ok (failed (TableError.other n)) = err (map_redb_table_error (TableError.other n))
