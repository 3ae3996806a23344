-- ===== src/Examples/Backups.antt =====
-- Witnesses: a backup of the notes, and its restore.
use nookdb.Prelude.{
  ◌<◌, ℕ, ◌≡◌, refl, false, true, none, List, [], ◌∷◌, ◌++◌, append-nil, append_assoc, All, take,
  length, arith,
}
use nookdb.Bytes.{Bytes}
use nookdb.Error.{Result, ok, corrupted, truncated}
use nookdb.Examples.{note_db, log, empty_db}
use nookdb.Redb.Memory.{memory, memory-IsLawful}
use nookdb.Rows.{Row}
use nookdb.Storage.Pure.{table_rows}
use nookdb.Backup.{finished, failed, at_end}
use nookdb.Backup.Words.{to_be}
use nookdb.Backup.Format.{BackupHeader}
use nookdb.Backup.Format.Reads.Ends.{returns}
use nookdb.Backup.Format.Reads.Header.{IsHeader}
use nookdb.Backup.Format.Reads.Entries.{IsFrame}
use nookdb.Backup.Format.Writes.{IsBuffer}
use nookdb.Backup.Copy.{RestoreOptions, header_of, write_backup, read_backup, clamp_u64}
use nookdb.Backup.Copy.RoundTrip.{header_for, backup_bytes, index_after, read_backup-write_backup}
use nookdb.Backup.Copy.Refused.{read_backup-returns, read_backup-rollback, read_backup-take}
use nookdb.Backup.Copy.Stream.{stream_bytes}

-- A `Vec<u8>`, and a sum that counts the bytes.
abbrev pub vec : Bytes → Bytes → Result Bytes
vec w b = ok (w ++ b)

abbrev pub vec-IsBuffer : IsBuffer vec
vec-IsBuffer = record {
  extended = λ w b. w ++ b;
  content = λ w. w;
  sink_ok = λ w b. refl;
  content-extended = λ w b. refl;
  extended-extended = λ w a b. append_assoc w a b;
  extended-nil = λ w. append-nil w;
}

abbrev pub sum : Bytes → ℕ
sum b = length b

abbrev pub over : RestoreOptions
over = record { allow_overwrite = true; skip_schema_check = false; current_schema_hash = none }

abbrev pub saved : List Row
saved = (7 ∷ 0 ∷ 9 ∷ [], 5 ∷ []) ∷ []

abbrev pub saved-IsFrame : All IsFrame saved
saved-IsFrame =
    (record { key_given = omega arith; key_fits = omega arith; value_fits = omega arith }, tt)

abbrev pub head : BackupHeader
head = header_of 1700000000000 none saved

abbrev pub head-IsHeader : IsHeader head
head-IsHeader = record {
  version = refl;
  created_fits = omega arith;
  hash_fits = tt;
  marker_fits = omega arith;
  hint_fits = omega arith;
}

pub note_rows-IsFrame : All IsFrame (table_rows memory memory-IsLawful note_db.store.entries)
unfolding table_rows nookdb.Rows.insert
note_rows-IsFrame =
    (record { key_given = omega arith; key_fits = omega arith; value_fits = omega arith }, tt)

pub note_head-IsHeader : IsHeader (header_for memory memory-IsLawful note_db 1700000000000 none)
unfolding table_rows nookdb.Rows.insert
note_head-IsHeader = record {
  version = refl;
  created_fits = omega arith;
  hash_fits = tt;
  marker_fits = omega arith;
  hint_fits = omega arith;
}

read_backup-write_backup_example :
    (let rows = table_rows memory memory-IsLawful note_db.store.entries in
      let bytes =
        backup_bytes memory memory-IsLawful vec vec-IsBuffer sum note_db 1700000000000 none in
      let out = read_backup memory log none sum empty_db [] ([] ++ bytes) over in
      (write_backup vec sum memory note_db 1700000000000 none []
        ≡ finished
            (record { entry_count = length rows; bytes_written = length bytes }, [] ++ bytes))
      × (out.0
          ≡ finished (record {
            entry_count = clamp_u64 (length rows);
            bytes_read = clamp_u64 (length bytes);
          }))
      × (table_rows memory memory-IsLawful out.1.store.entries ≡ rows)
      × (table_rows memory memory-IsLawful out.1.store.index
          ≡ index_after memory memory-IsLawful true empty_db)
      × (out.2 ≡ []))
unfolding table_rows nookdb.Rows.insert nookdb.Backup.Words.be_onto
read_backup-write_backup_example =
    read_backup-write_backup memory memory-IsLawful vec vec-IsBuffer sum memory memory-IsLawful log
      note_db empty_db [] 1700000000000 none [] none over refl note_rows-IsFrame note_head-IsHeader
      (omega arith) tt refl

read_backup-returns_example :
    returns (read_backup memory log none sum note_db [] (stream_bytes sum head saved) over).0 ≡ true
read_backup-returns_example =
    read_backup-returns memory log none sum note_db [] (stream_bytes sum head saved) over

-- bytes that are no backup
no_backup :
    (read_backup memory log none sum note_db [] (1 ∷ 2 ∷ []) over).0 ≡ failed (corrupted truncated)
unfolding read_backup nookdb.Backup.◌>>=◌ nookdb.Backup.Format.read_from nookdb.Backup.read_exact
no_backup = refl

read_backup-rollback_example :
    (let out = read_backup memory log none sum note_db [] (1 ∷ 2 ∷ []) over in
      (out.1 ≡ note_db) × (out.2 ≡ []))
read_backup-rollback_example =
    read_backup-rollback memory log none sum note_db [] (1 ∷ 2 ∷ []) over (corrupted truncated)
      no_backup

long_enough : 30 < length (stream_bytes sum head saved)
unfolding nookdb.Backup.Words.be_onto
long_enough = omega arith

read_backup-take_example :
    read_backup memory log none sum note_db [] (take 30 (stream_bytes sum head saved)) over
    ≡ (failed (at_end none), note_db, [])
read_backup-take_example =
    read_backup-take memory log none sum note_db [] over head saved head-IsHeader saved-IsFrame refl
      30 long_enough
