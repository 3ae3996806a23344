-- ===== src/Redb.antt =====
-- The storage engine, the crate `redb`: a parameter of the model. `T` is an open table; `Store` is
-- what a database file holds between transactions. The engine may fail at every call.
pub mod Memory
use nookdb.Prelude.{ℕ, ◌≡◌, Option, none, some, List, [], map}
use nookdb.Bytes.{Bytes}
use nookdb.Rows.{Row, Rows, lookup, insert, remove, slice, IsSorted}

pub data StorageError : Type 0 where
  io corrupted other : ℕ → StorageError

pub data TableError : Type 0 where
  storage : StorageError → TableError
  table_does_not_exist : TableError
  other : ℕ → TableError

-- `TransactionError`, `CommitError` and `DatabaseError`: a storage error or something else
pub data EngineError : Type 0 where
  storage : StorageError → EngineError
  other : ℕ → EngineError

-- `Result<A, E>` of the engine
pub data Try (E A : Type 0) : Type 0 where
  done : A → Try E A
  failed : E → Try E A

-- The two tables of a database file. `none` is a table that was never opened for writing.
pub record Store (T : Type 0) : Type 0 where
  pub entries : Option T
  pub index : Option T

pub record Redb (T : Type 0) : Type 0 where
  pub get : T → Bytes → Try StorageError (Option Bytes)
  pub insert : T → Bytes → Bytes → Try StorageError T
  pub remove : T → Bytes → Try StorageError (T × Option Bytes)
  pub range : T → Bytes → Bytes → Try StorageError (List (Try StorageError Row))
  pub iter : T → Try StorageError (List (Try StorageError Row))
  -- `retain(|_, _| false)`
  pub retain_none : T → Try StorageError T
  pub begin_read : Store T → Try EngineError (Unit {0})
  pub begin_write : Store T → Try EngineError (Unit {0})
  pub open_read : Option T → Try TableError T
  -- creates the table if it is not there
  pub open_write : Option T → Try TableError T
  -- the file with the two tables as the transaction leaves them
  pub commit : Store T → T → T → Try EngineError (Store T)
  pub abort : Store T → Try EngineError (Unit {0})

-- The documented behaviour of a table while no fault occurs: an ordered map from byte strings to
-- byte strings, whose scans go in ascending key order.
pub record IsLawful {T : Type 0} (r : Redb T) : Type 0 where
  pub rows : T → Rows
  pub rows-IsSorted : (t : T) → IsSorted (rows t)
  pub inserted : T → Bytes → Bytes → T
  pub removed : T → Bytes → T
  pub emptied : T → T
  pub new_table : T
  pub get_ok : (t : T) (k : Bytes) → r.get t k ≡ done (lookup k (rows t))
  pub insert_ok : (t : T) (k v : Bytes) → r.insert t k v ≡ done (inserted t k v)
  pub rows-inserted : (t : T) (k v : Bytes) → rows (inserted t k v) ≡ insert k v (rows t)
  pub remove_ok : (t : T) (k : Bytes) → r.remove t k ≡ done (removed t k, lookup k (rows t))
  pub rows-removed : (t : T) (k : Bytes) → rows (removed t k) ≡ remove k (rows t)
  pub range_ok :
      (t : T) (lo hi : Bytes)
      → r.range t lo hi ≡ done (map (λ row. done row) (slice lo hi (rows t)))
  pub iter_ok : (t : T) → r.iter t ≡ done (map (λ row. done row) (rows t))
  pub retain_ok : (t : T) → r.retain_none t ≡ done (emptied t)
  pub rows-emptied : (t : T) → rows (emptied t) ≡ []
  pub begin_read_ok : (s : Store T) → r.begin_read s ≡ done tt
  pub begin_write_ok : (s : Store T) → r.begin_write s ≡ done tt
  pub open_read_none : r.open_read none ≡ failed table_does_not_exist
  pub open_read_some : (t : T) → r.open_read (some t) ≡ done t
  pub open_write_none : r.open_write none ≡ done new_table
  pub rows-new_table : rows new_table ≡ []
  pub open_write_some : (t : T) → r.open_write (some t) ≡ done t
  pub commit_ok :
      (s : Store T) (t i : T) → r.commit s t i ≡ done (record { entries = some t; index = some i })
  pub abort_ok : (s : Store T) → r.abort s ≡ done tt
