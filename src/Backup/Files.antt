-- ===== src/Backup/Files.antt =====
-- `backup_to_path` and `restore_from_path` of crates/nookdb-core/src/backup.rs, over a file system as a
-- parameter.
pub mod Kept
pub mod Atomic
use nookdb.Prelude.{ℕ, ◌≡◌, ◌≢◌, Option, none, some, List, [], ◌++◌}
use nookdb.Bytes.{Bytes, bytes}
use nookdb.Database.{Database}
use nookdb.Error.{NookError, Result, io_failure}
use nookdb.Notify.{Observers}
use nookdb.Redb.{Redb, Try, done}
use nookdb.Redb
use nookdb.Backup.{Run, finished, failed, panicked, endless}
use nookdb.Backup.Copy.{BackupStats, RestoreOptions, Restored, write_backup, read_backup}
use nookdb.Backup.Format.Writes.{IsBuffer}

-- What the code uses of `std::fs`, `std::io` and `std::path`: `D` is the disk, `H` an open file on it,
-- and `B` what a buffered writer keeps of it. An `io::Error` is its number, with the disk that the
-- failed call leaves.
pub record FileSystem (D H B : Type 0) : Type 0 where
  -- `File::create` with `BufWriter::new`, and `write_all` on it
  pub create : D → Bytes → Try (ℕ × D) (H × B)
  pub sink : H → B → Bytes → Result B
  pub into_inner : H → B → Try (ℕ × D) B
  pub flush : H → B → Try (ℕ × D) B
  pub sync_all : H → B → Try (ℕ × D) B
  -- the disk when the complete file is closed
  pub close : H → B → D
  -- the disk when a file is dropped in the midst of its writes
  pub abandoned : H → D
  pub rename : D → Bytes → Bytes → Try (ℕ × D) D
  -- the bytes that a reader of the file yields, and the fault that it meets after them
  pub open_file : D → Bytes → Try ℕ (Bytes × Option ℕ)
  -- `path.extension()` as text, and `path.with_extension(…)`
  pub extension : Bytes → Option Bytes
  pub with_extension : Bytes → Bytes → Bytes

-- What each call on a file that was created at a path may do to the files at other paths: nothing. A
-- rename that fails changes no file.
pub record IsIsolated {D H B : Type 0} (fs : FileSystem D H B) : Type 0 where
  pub content : D → Bytes → Option Bytes
  pub create_failed :
      (d : D) (p q : Bytes) (f : ℕ × D)
      → fs.create d p ≡ Redb.failed f
      → p ≢ q
      → content f.1 q ≡ content d q
  pub into_inner_failed :
      (d : D) (p q : Bytes) (h : H) (b b' : B) (f : ℕ × D)
      → fs.create d p ≡ done (h, b)
      → fs.into_inner h b' ≡ Redb.failed f
      → p ≢ q
      → content f.1 q ≡ content d q
  pub flush_failed :
      (d : D) (p q : Bytes) (h : H) (b b' : B) (f : ℕ × D)
      → fs.create d p ≡ done (h, b)
      → fs.flush h b' ≡ Redb.failed f
      → p ≢ q
      → content f.1 q ≡ content d q
  pub sync_all_failed :
      (d : D) (p q : Bytes) (h : H) (b b' : B) (f : ℕ × D)
      → fs.create d p ≡ done (h, b)
      → fs.sync_all h b' ≡ Redb.failed f
      → p ≢ q
      → content f.1 q ≡ content d q
  pub content-close :
      (d : D) (p q : Bytes) (h : H) (b b' : B)
      → fs.create d p ≡ done (h, b)
      → p ≢ q
      → content (fs.close h b') q ≡ content d q
  pub content-abandoned :
      (d : D) (p q : Bytes) (h : H) (b : B)
      → fs.create d p ≡ done (h, b)
      → p ≢ q
      → content (fs.abandoned h) q ≡ content d q
  pub rename_failed :
      (d : D) (p q k : Bytes) (f : ℕ × D)
      → fs.rename d p q ≡ Redb.failed f
      → content f.1 k ≡ content d k

-- The documented behaviour while no fault occurs: what is written to a file is its content, and a
-- rename moves it.
pub record IsFileSystem {D H B : Type 0} (fs : FileSystem D H B) : Type 0 where
  pub content : D → Bytes → Option Bytes
  pub buffer : (h : H) → IsBuffer (fs.sink h)
  pub created : D → Bytes → H
  pub fresh : B
  pub create_ok : (d : D) (p : Bytes) → fs.create d p ≡ done (created d p, fresh)
  pub content-fresh : (h : H) → (buffer h).content fresh ≡ []
  pub into_inner_ok : (h : H) (b : B) → fs.into_inner h b ≡ done b
  pub flush_ok : (h : H) (b : B) → fs.flush h b ≡ done b
  pub sync_all_ok : (h : H) (b : B) → fs.sync_all h b ≡ done b
  pub content-close :
      (d : D) (p b : Bytes)
      → content (fs.close (created d p) ((buffer (created d p)).extended fresh b)) p ≡ some b
  pub renamed : D → Bytes → Bytes → D
  pub rename_ok : (d : D) (p q : Bytes) → fs.rename d p q ≡ done (renamed d p q)
  pub content-renamed : (d : D) (p q : Bytes) → content (renamed d p q) q ≡ content d p
  pub open_ok : (d : D) (p b : Bytes) → content d p ≡ some b → fs.open_file d p ≡ done (b, none)

module _ {D H B : Type 0} (fs : FileSystem D H B) where
  unfoldable pub tmp_path : Bytes → Bytes
  tmp_path path =
      fs.with_extension path
        (elim (fs.extension path) [ none ↦ bytes "tmp" | some e ↦ e ++ bytes ".tmp" ])

  module _ (crc32 : Bytes → ℕ) where
    -- `?` on an `io::Error`
    abbrev pub give_up : ℕ × D → Run BackupStats × D
    give_up (e, d) = (failed (io_failure e), d)

    -- `fs::rename(&tmp_path, path)?`
    abbrev pub moved : BackupStats → Try (ℕ × D) D → Run BackupStats × D
    moved stats (done d) = (finished stats, d)
    moved stats (Redb.failed f) = give_up f

    -- `file.sync_all()?`, and the end of the block that holds the file
    abbrev pub synced : Bytes → Bytes → BackupStats → H → Try (ℕ × D) B → Run BackupStats × D
    synced tmp path stats h (done b) = moved stats (fs.rename (fs.close h b) tmp path)
    synced tmp path stats h (Redb.failed f) = give_up f

    -- `file.flush()?`
    abbrev pub flushed : Bytes → Bytes → BackupStats → H → Try (ℕ × D) B → Run BackupStats × D
    flushed tmp path stats h (done b) = synced tmp path stats h (fs.sync_all h b)
    flushed tmp path stats h (Redb.failed f) = give_up f

    -- `bw.into_inner()?`
    abbrev pub unwrapped : Bytes → Bytes → BackupStats → H → Try (ℕ × D) B → Run BackupStats × D
    unwrapped tmp path stats h (done b) = flushed tmp path stats h (fs.flush h b)
    unwrapped tmp path stats h (Redb.failed f) = give_up f

    -- `write_backup(db, &mut bw, schema_hash)?`
    abbrev pub written : Bytes → Bytes → H → Run (BackupStats × B) → Run BackupStats × D
    written tmp path h (finished (stats, b)) = unwrapped tmp path stats h (fs.into_inner h b)
    written tmp path h (failed e) = (failed e, fs.abandoned h)
    written tmp path h panicked = (panicked, fs.abandoned h)
    written tmp path h endless = (endless, fs.abandoned h)

    module _ {T : Type 0} (r : Redb T) where
      abbrev pub opened_tmp :
          Bytes → Bytes → Database T → ℕ → Option Bytes → Try (ℕ × D) (H × B) → Run BackupStats × D
      opened_tmp tmp path db created_ms schema_hash (done (h, b)) =
          written tmp path h (write_backup (fs.sink h) crc32 r db created_ms schema_hash b)
      opened_tmp tmp path db created_ms schema_hash (Redb.failed f) = give_up f

      unfoldable pub backup_to_path :
          D → Database T → ℕ → Bytes → Option Bytes → Run BackupStats × D
      unfolding tmp_path
      backup_to_path d db created_ms path schema_hash =
          let tmp = tmp_path path in opened_tmp tmp path db created_ms schema_hash (fs.create d tmp)

      module _ {V : Type 0} (obs : Observers V) where
        abbrev pub read_opened :
            Database T → V → RestoreOptions → Try ℕ (Bytes × Option ℕ) → Restored r obs
        read_opened db v opts (done (source, fault)) =
            read_backup r obs fault crc32 db v source opts
        read_opened db v opts (Redb.failed e) = (failed (io_failure e), db, v)

        unfoldable pub restore_from_path :
            D → Database T → V → Bytes → RestoreOptions → Restored r obs
        restore_from_path d db v path opts = read_opened db v opts (fs.open_file d path)
