-- ===== src/Database.antt =====
-- crates/nookdb-core/src/database.rs: `Database::{add_observer, read, write}`. The redb file is its
-- two tables; the world `W` is what observers may change.
pub mod Atomic
pub mod Bytewise
pub mod Opened
use nookdb.Prelude.{ℕ, Bool, true, false, List, [], ◌∷◌}
use nookdb.Redb.{Redb, Store, Try, done, failed, StorageError, EngineError}
use nookdb.Error.{NookError, Result, ok, err, transactional, rollback_failed, kind, ◌>>=◌, ◌>>◌}
use nookdb.Notify
use nookdb.Notify.{Notifier, Observers, ObserverHandle, DocChange, dispatch}
use nookdb.Storage.Read
use nookdb.Storage.Write
use nookdb.Storage.Tx.{ReadTx, WriteTx, Tx, map_err, map_redb_tx_error, map_redb_commit_error}

pub record Database (T : Type 0) : Type 0 where
  pub store : Store T
  pub notifier : Notifier

-- The number by which the engine's error prints itself.
abbrev pub code : EngineError → ℕ
code (EngineError.storage (StorageError.io n)) = n
code (EngineError.storage (StorageError.corrupted n)) = n
code (EngineError.storage (StorageError.other n)) = n
code (EngineError.other n) = n

unfoldable pub add_observer : {T : Type 0} → Database T → ℕ → Database T × ObserverHandle
add_observer db obs =
    let (n, handle) = Notify.add_observer db.notifier obs in (record db { notifier = n }, handle)

-- `db.read(f)`
unfoldable pub read : {T A : Type 0} → Redb T → Database T → (ReadTx T → Result A) → Result A
read r db f = do map_err map_redb_tx_error (r.begin_read db.store); tx ← Read.new r db.store; f tx

module _ {T W : Type 0} (r : Redb T) (obs : Observers W) where
  -- what a call of `write` leaves: its result, the database and the world
  abbrev pub Outcome : Type 0 → Type 0
  Outcome A = Result A × Database T × W

  -- `if !touched.is_empty()`
  abbrev pub notify : Notifier → List DocChange → W → W
  notify n [] w = w
  notify n (c ∷ touched) w = dispatch obs n (record { changes = c ∷ touched }) w

  abbrev pub started : Database T → Result (WriteTx T)
  started db = do map_err map_redb_tx_error (r.begin_write db.store); Write.new r db.store

  module _ {A : Type 0} where
    abbrev pub after_commit : Database T → W → A → List DocChange → Result (Store T) → Outcome A
    after_commit db w value touched (ok store) =
        (ok value, record db { store = store }, notify db.notifier touched w)
    after_commit db w value touched (err e) = (err e, db, w)

    abbrev pub after_abort : Database T → W → NookError → Try EngineError (Unit {0}) → Outcome A
    after_abort db w user_err (done _) = (err user_err, db, w)
    after_abort db w user_err (failed e) =
        (err (transactional (rollback_failed (code e) (kind user_err))), db, w)

    -- the two branches of `match result`
    unfoldable pub settle : Database T → W → Result (A × WriteTx T) → Outcome A
    settle db w (ok (value, tx)) =
        let (touched, tx') = Write.take_touched tx in
        after_commit db w value touched
          (map_err map_redb_commit_error (r.commit db.store tx'.table tx'.index_table))
    settle db w (err user_err) = after_abort db w user_err (r.abort db.store)

    abbrev pub run : Database T → W → Tx T A → Result (WriteTx T) → Outcome A
    run db w f (ok tx) = settle db w (f tx)
    run db w f (err e) = (err e, db, w)

    -- `db.write(f)`
    unfoldable pub write : Database T → W → Tx T A → Outcome A
    unfolding settle
    write db w f = run db w f (started db)
