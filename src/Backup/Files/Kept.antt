-- ===== src/Backup/Files/Kept.antt =====
-- About `backup_to_path` and `restore_from_path` of crates/nookdb-core/src/backup.rs: a restore from a
-- path brings back what was saved there.
use nookdb.Prelude.{◌^◌, ◌<◌, ◌&&◌, not, ℕ, ◌≡◌, ◌∙◌, refl, false, Option, none, some, All, length}
use nookdb.Bytes.{Bytes}
use nookdb.Database.{Database}
use nookdb.Notify.{Observers}
use nookdb.Redb.{Redb, IsLawful}
use nookdb.Storage.Pure.{table_rows}
use nookdb.Backup.{finished}
use nookdb.Backup.Copy.{RestoreOptions, clamp_u64, hashes_differ}
use nookdb.Backup.Copy.RoundTrip.{
  header_for, backup_bytes, HasRoom, write_backup_lem, read_backup-write_backup,
}
use nookdb.Backup.Copy.Stream.{covered}
use nookdb.Backup.Format.Reads.Header.{IsHeader}
use nookdb.Backup.Format.Reads.Entries.{IsFrame}
use nookdb.Backup.Files.{FileSystem, IsFileSystem, tmp_path, backup_to_path, restore_from_path}

module _ {D H B T : Type 0} (fs : FileSystem D H B) (law : IsFileSystem fs) (crc32 : Bytes → ℕ)
    (r : Redb T) (lawr : IsLawful r) where
  open law use {content, buffer}

  module _ (d : D) (src : Database T) (created_ms : ℕ) (path : Bytes)
      (schema_hash : Option Bytes) where
    -- The temporary file, and what the backup writes to it.
    abbrev pub file : H
    file = law.created d (tmp_path fs path)

    abbrev pub saved_bytes : Bytes
    saved_bytes = backup_bytes r lawr (fs.sink file) (buffer file) crc32 src created_ms schema_hash

    -- The disk with the backup in place.
    abbrev pub saved_disk : D
    saved_disk =
        law.renamed (fs.close file ((buffer file).extended law.fresh saved_bytes))
          (tmp_path fs path) path

    backup_done :
        All IsFrame (table_rows r lawr src.store.entries)
        → backup_to_path fs crc32 r d src created_ms path schema_hash ≡ (
          finished (record {
            entry_count = length (table_rows r lawr src.store.entries);
            bytes_written = length saved_bytes;
          }),
          saved_disk,
        )
    unfolding backup_to_path
    backup_done fits =
        rw
          (
            law.create_ok,
            write_backup_lem r lawr (fs.sink file) (buffer file) crc32 src created_ms schema_hash
                law.fresh fits,
            law.into_inner_ok,
            law.flush_ok,
            law.sync_all_ok,
            law.rename_ok,
          )
          refl

    content-saved_disk : content saved_disk path ≡ some saved_bytes
    content-saved_disk =
        law.content-renamed (fs.close file ((buffer file).extended law.fresh saved_bytes))
          (tmp_path fs path) path
        ∙ law.content-close d (tmp_path fs path) saved_bytes

    module _ {U V : Type 0} (q : Redb U) (lawq : IsLawful q) (obs : Observers V) where
      -- Over lawful engines and a lawful disk: a backup to a path of a database whose rows fit
      -- their frames succeeds, and a restore from that path into a database that has room, where
      -- the schema check passes, succeeds and counts the same entries; the target then has
      -- exactly the source's rows, and no observer is called.
      pub restore_from_path-backup_to_path :
          (dst : Database U) (v : V) (opts : RestoreOptions)
          → All IsFrame (table_rows r lawr src.store.entries)
          → IsHeader (header_for r lawr src created_ms schema_hash)
          → crc32 (
              covered
                (header_for r lawr src created_ms schema_hash)
                (table_rows r lawr src.store.entries))
            < 2 ^ 32
          → HasRoom q lawq opts.allow_overwrite dst
          → (not opts.skip_schema_check && hashes_differ schema_hash opts.current_schema_hash)
            ≡ false
          → (let rows = table_rows r lawr src.store.entries in
              let saved = backup_to_path fs crc32 r d src created_ms path schema_hash in
              let out = restore_from_path fs crc32 q obs saved.1 dst v path opts in
              (saved.0
                ≡ finished
                    (record { entry_count = length rows; bytes_written = length saved_bytes }))
              × (out.0
                  ≡ finished (record {
                    entry_count = clamp_u64 (length rows);
                    bytes_read = clamp_u64 (length saved_bytes);
                  }))
              × (table_rows q lawq out.1.store.entries ≡ rows)
              × (out.2 ≡ v))
      unfolding restore_from_path
      restore_from_path-backup_to_path dst v opts fits head crc room same =
          let whole =
            read_backup-write_backup r lawr (fs.sink file) (buffer file) crc32 q lawq obs src dst v
              created_ms schema_hash law.fresh none opts (law.content-fresh file) fits head crc room
              same in
          let held : (buffer file).content ((buffer file).extended law.fresh saved_bytes)
              ≡ saved_bytes =
            rw ((buffer file).content-extended law.fresh saved_bytes, law.content-fresh file)
              refl in
          rw (backup_done fits, law.open_ok saved_disk path saved_bytes content-saved_disk)
            (refl, rw held at whole.1, rw held at whole.2, rw held at whole.4)
