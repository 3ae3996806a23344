-- ===== src/Backup/Copy/RoundTrip.antt =====
-- A backup that is written and restored: crates/nookdb-core/src/backup.rs.
use nookdb.Prelude.{
  ℕ, ◌^◌, ◌<◌, ◌≡◌, ◌∙◌, refl, Bool, true, false, not, ◌&&◌, Option, List, [], ◌∷◌, All, length,
  arith,
}
use nookdb.Bytes.{Bytes}
use nookdb.Database.{Database}
use nookdb.Database.Atomic.{fresh, opened, rows-opened, read_lem, write-commit}
use nookdb.Error.{Result, ok}
use nookdb.Notify.{Observers}
use nookdb.Redb.{Redb, IsLawful}
use nookdb.Rows.{Row, Rows, IsSorted}
use nookdb.Rows.Filled.{put_rows, put_rows_lem}
use nookdb.Storage.Read
use nookdb.Storage.Pure.{table_rows, table_rows-IsSorted, read_raw}
use nookdb.Storage.Tx.{WriteTx}
use nookdb.Storage.Write
use nookdb.Backup.{In, finished}
use nookdb.Backup.Format.{BackupHeader}
use nookdb.Backup.Format.Reads.Header.{IsHeader}
use nookdb.Backup.Format.Reads.Entries.{IsFrame}
use nookdb.Backup.Format.Writes.{IsBuffer}
use nookdb.Backup.Copy.{
  read, RestoreOptions, clamp_u64, header_of, hashes_differ, write_backup, read_backup, put_all,
  replay, restore_read,
}
use nookdb.Backup.Format.Reads.{at}
use nookdb.Backup.Copy.{read_stream}
use nookdb.Backup.Copy.Received.{read_stream_lem}
use nookdb.Backup.Copy.Stream.{length_read, covered, stream_bytes, write_stream_lem}

module _ {T : Type 0} (r : Redb T) (law : IsLawful r) where
  open law use {rows, inserted, emptied}

  -- What a backup of the database has: its header, and its bytes.
  abbrev pub header_for : Database T → ℕ → Option Bytes → BackupHeader
  header_for db created_ms schema_hash =
      header_of created_ms schema_hash (table_rows r law db.store.entries)

  filled : T → List Row → T
  filled t [] = t
  filled t (row ∷ rows) = filled (inserted t row.0 row.1) rows

  put_all_ok :
      (rows : List Row) (tx : WriteTx T)
      → put_all r rows tx ≡ ok (tt, record tx { table = filled tx.table rows })
  unfolding put_all filled Write.put_raw
  put_all_ok [] tx = refl
  put_all_ok (row ∷ rows) tx = ground (
    arith,
    law.insert_ok tx.table row.0 row.1,
    put_all_ok rows (record tx { table = inserted tx.table row.0 row.1 }),
  )

  rows-filled : (new : List Row) (t : T) → rows (filled t new) ≡ put_rows (rows t) new
  unfolding filled
  rows-filled [] t = refl
  rows-filled (row ∷ new) t =
      rw (rows-filled new (inserted t row.0 row.1), law.rows-inserted t row.0 row.1)

  -- The index where room is made by emptying both tables, or is there already.
  abbrev index_left : Bool → T → T
  index_left true i = emptied i
  index_left false i = i

  -- A restore may take the database: it overwrites, or there is no entry.
  abbrev pub HasRoom : Bool → Database T → Type 0
  HasRoom true db = Unit {0}
  HasRoom false db = table_rows r law db.store.entries ≡ []

  rows_given : (t : T) (new : List Row) → IsSorted new → rows t ≡ [] → rows (filled t new) ≡ new
  rows_given t new s e = rw (rows-filled new t, e) (put_rows_lem [] new s)

  -- What the closure of a restore leaves of a fresh transaction.
  replay_ok :
      (b : Bool) (db : Database T) (new : List Row)
      → HasRoom b db
      → IsSorted new
      → (t : T) × (replay r b new (fresh r law db)
          ≡ ok (
            tt,
            record {
              table = t;
              index_table = index_left b (opened r law db.store.index);
              touched = [];
            },
          ))
        × (rows t ≡ new)
  unfolding replay Write.clear_entries Write.has_any_entry
  replay_ok true db new room s =
      let t : T = emptied (opened r law db.store.entries) in
      let i : T = emptied (opened r law db.store.index) in
      (
        filled t new,
        ground (
          arith,
          law.retain_ok (opened r law db.store.entries),
          law.retain_ok (opened r law db.store.index),
          put_all_ok new (record { table = t; index_table = i; touched = [] }),
        ),
        rows_given t new s (law.rows-emptied (opened r law db.store.entries)),
      )
  replay_ok false db new room s =
      let t : T = opened r law db.store.entries in
      let none_there : rows t ≡ [] = rows-opened r law db.store.entries ∙ room in
      (
        filled t new,
        ground (arith, law.iter_ok t, none_there, put_all_ok new (fresh r law db)),
        rows_given t new s none_there,
      )

  -- The index after a restore.
  abbrev pub index_after : Bool → Database T → Rows
  index_after true db = []
  index_after false db = table_rows r law db.store.index

  rows-index_left :
      (b : Bool) (db : Database T)
      → rows (index_left b (opened r law db.store.index)) ≡ index_after b db
  rows-index_left true db = law.rows-emptied (opened r law db.store.index)
  rows-index_left false db = rows-opened r law db.store.index

  module _ {W : Type 0} (obs : Observers W) where
    -- What a restore leaves of the entries that were read.
    restore_read_ok :
        (db : Database T) (w : W) (opts : RestoreOptions) (new : List Row) (s : In)
        → HasRoom opts.allow_overwrite db
        → IsSorted new
        → (let out = restore_read r obs db w opts (finished (new, s)) in
            (out.0
              ≡ finished
                  (record { entry_count = clamp_u64 (length new); bytes_read = clamp_u64 s.count }))
            × (table_rows r law out.1.store.entries ≡ new)
            × (table_rows r law out.1.store.index ≡ index_after opts.allow_overwrite db)
            × (out.2 ≡ w))
    unfolding restore_read table_rows
    restore_read_ok db w opts new s room sorted =
        let left = replay_ok opts.allow_overwrite db new room sorted in
        rw (write-commit r law obs db w (replay r opts.allow_overwrite new) tt _ left.1)
          (refl, left.2, rows-index_left opts.allow_overwrite db, refl)

module _ {T S : Type 0} (r : Redb T) (law : IsLawful r) (sink : S → Bytes → Result S)
    (buf : IsBuffer sink) (crc32 : Bytes → ℕ) where
  open buf use {extended}

  -- The bytes of a backup.
  abbrev pub backup_bytes : Database T → ℕ → Option Bytes → Bytes
  backup_bytes db created_ms schema_hash =
      stream_bytes crc32 (header_for r law db created_ms schema_hash)
        (table_rows r law db.store.entries)

  pub write_backup_lem :
      (db : Database T) (created_ms : ℕ) (schema_hash : Option Bytes) (o : S)
      → All IsFrame (table_rows r law db.store.entries)
      → write_backup sink crc32 r db created_ms schema_hash o
        ≡ finished (
          record {
            entry_count = length (table_rows r law db.store.entries);
            bytes_written = length (backup_bytes db created_ms schema_hash);
          },
          extended o (backup_bytes db created_ms schema_hash),
        )
  unfolding write_backup
  write_backup_lem db created_ms schema_hash o fits =
      let found : read r db (λ tx. Read.list_entries_raw r tx)
          ≡ ok (table_rows r law db.store.entries) =
        rw (read_lem r law, read_raw r law) refl in
      rw
        (
          found,
          write_stream_lem sink buf crc32 (header_for r law db created_ms schema_hash)
              (table_rows r law db.store.entries) o fits,
        )
        refl

  content_written :
      (db : Database T) (created_ms : ℕ) (schema_hash : Option Bytes) (o : S)
      → buf.content o ≡ []
      → buf.content (extended o (backup_bytes db created_ms schema_hash))
        ≡ backup_bytes db created_ms schema_hash
  content_written db created_ms schema_hash o e =
      rw (buf.content-extended o (backup_bytes db created_ms schema_hash), e) refl

  module _ {U W : Type 0} (q : Redb U) (lawq : IsLawful q) (obs : Observers W) where
    -- Over lawful engines and a buffer that is empty: a backup of a database whose rows fit their
    -- frames succeeds, and a restore of its bytes into a database that has room, where the schema
    -- check passes, succeeds too and counts the same entries; the target then has exactly the
    -- source's rows, and no observer is called.
    pub read_backup-write_backup :
        (src : Database T) (dst : Database U) (w : W) (created_ms : ℕ) (schema_hash : Option Bytes)
        (o : S) (fault : Option ℕ) (opts : RestoreOptions)
        → buf.content o ≡ []
        → All IsFrame (table_rows r law src.store.entries)
        → IsHeader (header_for r law src created_ms schema_hash)
        → crc32 (
            covered
              (header_for r law src created_ms schema_hash)
              (table_rows r law src.store.entries))
          < 2 ^ 32
        → HasRoom q lawq opts.allow_overwrite dst
        → (not opts.skip_schema_check && hashes_differ schema_hash opts.current_schema_hash) ≡ false
        → (let rows = table_rows r law src.store.entries in
            let bytes = backup_bytes src created_ms schema_hash in
            let o' = extended o bytes in
            let out = read_backup q obs fault crc32 dst w (buf.content o') opts in
            (write_backup sink crc32 r src created_ms schema_hash o
              ≡ finished (record { entry_count = length rows; bytes_written = length bytes }, o'))
            × (out.0
                ≡ finished (record {
                  entry_count = clamp_u64 (length rows);
                  bytes_read = clamp_u64 (length bytes);
                }))
            × (table_rows q lawq out.1.store.entries ≡ rows)
            × (table_rows q lawq out.1.store.index ≡ index_after q lawq opts.allow_overwrite dst)
            × (out.2 ≡ w))
    unfolding read_backup
    read_backup-write_backup src dst w created_ms schema_hash o fault opts e fits head crc room
          same =
        let rows = table_rows r law src.store.entries in
        let d = header_for r law src created_ms schema_hash in
        let s : read_stream fault crc32 opts
              (at (buf.content (extended o (backup_bytes src created_ms schema_hash))) 0 [])
            ≡ finished
                (rows, at [] (length (backup_bytes src created_ms schema_hash)) (covered d rows)) =
          rw (content_written src created_ms schema_hash o e, length_read crc32 d rows)
            (read_stream_lem fault crc32 opts d rows head fits same crc) in
        let done =
          restore_read_ok q lawq obs dst w opts rows
            (at [] (length (backup_bytes src created_ms schema_hash)) (covered d rows)) room
            (table_rows-IsSorted r law src.store.entries) in
        rw s (write_backup_lem src created_ms schema_hash o fits, done.0, done.1, done.2, done.3)
