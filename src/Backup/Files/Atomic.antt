-- ===== src/Backup/Files/Atomic.antt =====
-- About the failures of `backup_to_path` of crates/nookdb-core/src/backup.rs.
use nookdb.Prelude.{ℕ, ◌≡◌, ◌≢◌, ◌∙◌, refl, Option, ◌⊎◌, inl, inr}
use nookdb.Bytes.{Bytes}
use nookdb.Database.{Database}
use nookdb.Redb.{Redb, Try, done}
use nookdb.Redb
use nookdb.Backup.{Run, finished, failed, panicked, endless}
use nookdb.Backup.Copy.{BackupStats, write_backup}
use nookdb.Backup.Files.{
  FileSystem, IsIsolated, tmp_path, backup_to_path, opened_tmp, written, unwrapped, flushed, synced,
  moved,
}

module _ {D H B : Type 0} (fs : FileSystem D H B) (law : IsIsolated fs) (crc32 : Bytes → ℕ) (d : D)
    (tmp path : Bytes) (apart : tmp ≢ path) where
  -- It has returned its counts, or the file at the path is as it was.
  abbrev pub IsAtomic : Run BackupStats × D → Type 0
  IsAtomic out =
      ((stats : BackupStats) × (out.0 ≡ finished stats))
      ⊎ (law.content out.1 path ≡ law.content d path)

  module _ (h : H) (b : B) (made : fs.create d tmp ≡ done (h, b)) where
    moved-IsAtomic :
        (stats : BackupStats) (b' : B) (t : Try (ℕ × D) D)
        → fs.rename (fs.close h b') tmp path ≡ t
        → IsAtomic (moved fs crc32 stats t)
    moved-IsAtomic stats b' (done d') e = inl (stats, refl)
    moved-IsAtomic stats b' (Redb.failed f) e = inr (
        law.rename_failed (fs.close h b') tmp path path f e
        ∙ law.content-close d tmp path h b b' made apart)

    synced-IsAtomic :
        (stats : BackupStats) (b' : B) (t : Try (ℕ × D) B)
        → fs.sync_all h b' ≡ t
        → IsAtomic (synced fs crc32 tmp path stats h t)
    synced-IsAtomic stats b' (done c) e =
        moved-IsAtomic stats c (fs.rename (fs.close h c) tmp path) refl
    synced-IsAtomic stats b' (Redb.failed f) e =
        inr (law.sync_all_failed d tmp path h b b' f made e apart)

    flushed-IsAtomic :
        (stats : BackupStats) (b' : B) (t : Try (ℕ × D) B)
        → fs.flush h b' ≡ t
        → IsAtomic (flushed fs crc32 tmp path stats h t)
    flushed-IsAtomic stats b' (done c) e = synced-IsAtomic stats c (fs.sync_all h c) refl
    flushed-IsAtomic stats b' (Redb.failed f) e =
        inr (law.flush_failed d tmp path h b b' f made e apart)

    unwrapped-IsAtomic :
        (stats : BackupStats) (b' : B) (t : Try (ℕ × D) B)
        → fs.into_inner h b' ≡ t
        → IsAtomic (unwrapped fs crc32 tmp path stats h t)
    unwrapped-IsAtomic stats b' (done c) e = flushed-IsAtomic stats c (fs.flush h c) refl
    unwrapped-IsAtomic stats b' (Redb.failed f) e =
        inr (law.into_inner_failed d tmp path h b b' f made e apart)

    written-IsAtomic : (run : Run (BackupStats × B)) → IsAtomic (written fs crc32 tmp path h run)
    written-IsAtomic (finished (stats, c)) = unwrapped-IsAtomic stats c (fs.into_inner h c) refl
    written-IsAtomic (failed e) = inr (law.content-abandoned d tmp path h b made apart)
    written-IsAtomic panicked = inr (law.content-abandoned d tmp path h b made apart)
    written-IsAtomic endless = inr (law.content-abandoned d tmp path h b made apart)

  module _ {T : Type 0} (r : Redb T) (db : Database T) (created_ms : ℕ)
      (schema_hash : Option Bytes) where
    pub opened_tmp-IsAtomic :
        (t : Try (ℕ × D) (H × B))
        → fs.create d tmp ≡ t
        → IsAtomic (opened_tmp fs crc32 r tmp path db created_ms schema_hash t)
    opened_tmp-IsAtomic (done (h, b)) e =
        written-IsAtomic h b e (write_backup (fs.sink h) crc32 r db created_ms schema_hash b)
    opened_tmp-IsAtomic (Redb.failed f) e = inr (law.create_failed d tmp path f e apart)

-- For every engine and every fault, where a call on a file changes no file at another path, a
-- rename that fails changes no file, and the temporary path is not the destination:
-- `backup_to_path` returns its counts, or the file at the destination is as it was.
pub backup_to_path-IsAtomic :
    {D H B T : Type 0} (fs : FileSystem D H B) (law : IsIsolated fs) (crc32 : Bytes → ℕ)
    (r : Redb T) (d : D) (db : Database T) (created_ms : ℕ) (path : Bytes)
    (schema_hash : Option Bytes) (apart : tmp_path fs path ≢ path)
    → IsAtomic fs law crc32 d
        (tmp_path fs path)
        path
        apart
        (backup_to_path fs crc32 r d db created_ms path schema_hash)
unfolding backup_to_path
backup_to_path-IsAtomic fs law crc32 r d db created_ms path schema_hash apart =
    opened_tmp-IsAtomic fs law crc32 d (tmp_path fs path) path apart r db created_ms schema_hash
      (fs.create d (tmp_path fs path)) refl
