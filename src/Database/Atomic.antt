-- ===== src/Database/Atomic.antt =====
-- About `Database::write` and `Database::read` of crates/nookdb-core/src/database.rs for any closure.
use nookdb.Prelude.{◌≡◌, refl, Option, none, some, [], arith}
use nookdb.Bytes.{Bytes}
use nookdb.Database.{Database, Outcome, read, write, settle, run, started, notify}
use nookdb.Error.{NookError, Result, ok, err}
use nookdb.Notify.{Observers}
use nookdb.Redb.{Redb, IsLawful, Store, done}
use nookdb.Rows.{Rows, user_rows, IsSorted}
use nookdb.Rows.Users.{user_rows-IsSorted}
use nookdb.Storage.Pure.{table_rows, table_rows-IsSorted}
use nookdb.Storage.Read
use nookdb.Storage.Tx.{absent_ok, ReadTx, WriteTx, Tx}
use nookdb.Storage.Write

module _ {T W A : Type 0} (r : Redb T) (obs : Observers W) where
  -- What is left where the result is an error: the database and the world of before.
  abbrev pub Unchanged : Database T → W → Outcome r obs A → Type 0
  Unchanged db w out = (e : NookError) → out.0 ≡ err e → (out.1 ≡ db) × (out.2 ≡ w)

  settle-Unchanged :
      (db : Database T) (w : W) (res : Result (A × WriteTx T))
      → Unchanged db w (settle r obs db w res)
  unfolding settle
  settle-Unchanged db w (ok (a, tx)) e h = ground arith
  settle-Unchanged db w (err x) e h = ground arith

  run-Unchanged :
      (db : Database T) (w : W) (f : Tx T A) (start : Result (WriteTx T))
      → Unchanged db w (run r obs db w f start)
  run-Unchanged db w f (ok tx) e h = settle-Unchanged db w (f tx) e h
  run-Unchanged db w f (err x) e h = (refl, refl)

  -- If a write transaction returns an error, whatever step failed and for every engine, the
  -- database is the one before it, and no observer has been called.
  pub write-rollback :
      (db : Database T) (w : W) (f : Tx T A) (e : NookError)
      → (write r obs db w f).0 ≡ err e
      → ((write r obs db w f).1 ≡ db) × ((write r obs db w f).2 ≡ w)
  unfolding write
  write-rollback db w f e h = run-Unchanged db w f (started r obs db) e h

module _ {T : Type 0} (r : Redb T) (law : IsLawful r) where
  open law use {rows, new_table, inserted, removed}

  -- The table that a write transaction opens.
  abbrev pub opened : Option T → T
  opened none = new_table
  opened (some t) = t

  -- A fresh write transaction.
  abbrev pub fresh : Database T → WriteTx T
  fresh db = record {
    table = opened db.store.entries;
    index_table = opened db.store.index;
    touched = [];
  }

  -- The rows of a collection in the committed state.
  unfoldable pub view : Database T → Bytes → Rows
  view db c = user_rows c (table_rows r law db.store.entries)

  pub view-IsSorted : (db : Database T) (c : Bytes) → IsSorted (view db c)
  unfolding view
  view-IsSorted db c =
      user_rows-IsSorted c (table_rows r law db.store.entries)
        (table_rows-IsSorted r law db.store.entries)

  pub rows-opened : (o : Option T) → rows (opened o) ≡ table_rows r law o
  unfolding table_rows
  rows-opened none = law.rows-new_table
  rows-opened (some t) = refl

  open_write_ok : (o : Option T) → r.open_write o ≡ done (opened o)
  open_write_ok none = law.open_write_none
  open_write_ok (some t) = law.open_write_some t

  open_read_ok : (o : Option T) → absent_ok (r.open_read o) ≡ ok o
  open_read_ok none = rw law.open_read_none
  open_read_ok (some t) = rw law.open_read_some

  pub read_new :
      (s : Store T) → Read.new r s ≡ ok (record { table = s.entries; index_table = s.index })
  unfolding Read.new
  read_new s = rw (open_read_ok s.entries, open_read_ok s.index)

  pub write_new :
      (s : Store T)
      → Write.new r s
        ≡ ok (record { table = opened s.entries; index_table = opened s.index; touched = [] })
  unfolding Write.new
  write_new s = rw (open_write_ok s.entries, open_write_ok s.index)

  -- A read sees the committed state.
  pub read_lem :
      {A : Type 0} (db : Database T) (f : ReadTx T → Result A)
      → read r db f ≡ f (record { table = db.store.entries; index_table = db.store.index })
  unfolding read
  read_lem db f = rw (law.begin_read_ok, read_new)

  module _ {W : Type 0} (obs : Observers W) where
    -- Over a lawful engine: if the closure of a write succeeds on a fresh transaction, its value
    -- is the result, its tables become the committed state, and its changes are dispatched in one
    -- event, or not at all if there are none.
    pub write-commit :
        {A : Type 0} (db : Database T) (w : W) (f : Tx T A) (a : A) (tx : WriteTx T)
        → f (fresh db) ≡ ok (a, tx)
        → write r obs db w f ≡ (
          ok a,
          record db { store = record { entries = some tx.table; index = some tx.index_table } },
          notify r obs db.notifier tx.touched w,
        )
    unfolding write Write.take_touched
    write-commit db w f a tx h = rw (law.begin_write_ok, write_new, h, law.commit_ok)

    pub write-fail :
        {A : Type 0} (db : Database T) (w : W) (f : Tx T A) (e : NookError)
        → f (fresh db) ≡ err e
        → write r obs db w f ≡ (err e, db, w)
    unfolding write
    write-fail db w f e h = rw (law.begin_write_ok, write_new, h, law.abort_ok)
