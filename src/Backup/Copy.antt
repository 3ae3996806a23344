-- ===== src/Backup/Copy.antt =====
-- `write_backup` and `read_backup` of crates/nookdb-core/src/backup.rs. The clock and the check sum,
-- the crate `crc32fast`, are parameters: `crc32` is the sum of a hasher that was fed the bytes.
pub mod Stream
pub mod Received
pub mod RoundTrip
pub mod Refused
use nookdb.Prelude.{
  ◌-◌, ℕ, ◌^◌, Bool, true, false, not, ◌&&◌, Option, none, some, List, [], ◌∷◌, length, min,
  if◌then◌else◌,
}
use nookdb.Bytes.{Bytes, beq}
use nookdb.Database.{Database, Outcome, read, write}
use nookdb.Error
use nookdb.Error.{
  NookError, Result, ok, err, bad_schema, conflicting, hash_mismatch, target_not_empty, refuse_if,
}
use nookdb.Notify.{Observers}
use nookdb.Redb.{Redb}
use nookdb.Rows.{Row}
use nookdb.Storage.Read
use nookdb.Storage.Write
use nookdb.Storage.Tx
use nookdb.Storage.Tx.{Tx}
use nookdb.Backup.{
  Run, finished, failed, panicked, endless, On, ◌>>=◌, ◌>>◌, pure, fail_if, Out, In,
}
use nookdb.Backup.Format.{
  BackupHeader, format_version, redb_marker, write_to, write_entries, write_sentinel, finish,
  read_from, read_all, finish_and_verify,
}

pub record BackupStats : Type 0 where
  pub entry_count : ℕ
  pub bytes_written : ℕ

pub record RestoreStats : Type 0 where
  pub entry_count : ℕ
  pub bytes_read : ℕ

pub record RestoreOptions : Type 0 where
  pub allow_overwrite : Bool
  pub skip_schema_check : Bool
  pub current_schema_hash : Option Bytes

-- `u64::try_from(n).unwrap_or(u64::MAX)`
abbrev pub clamp_u64 : ℕ → ℕ
clamp_u64 n = min n (2 ^ 64 - 1)

abbrev pub header_of : ℕ → Option Bytes → List Row → BackupHeader
header_of created_ms schema_hash entries = record {
  format_ver = format_version;
  created_ms = created_ms;
  schema_hash = schema_hash;
  redb_marker = redb_marker;
  entry_count_hint = length entries;
}

module _ {W : Type 0} (sink : W → Bytes → Result W) (crc32 : Bytes → ℕ) where
  -- what is written of the entries that were read
  unfoldable pub write_stream : BackupHeader → List Row → On (Out W) (Unit {0})
  write_stream header entries = do
    write_to sink header
    write_entries sink entries
    write_sentinel sink
    finish sink crc32

  abbrev pub stats_of : List Row → Run (Unit {0} × Out W) → Run (BackupStats × W)
  stats_of entries (finished (_, o)) =
      finished (record { entry_count = length entries; bytes_written = o.count }, o.inner)
  stats_of entries (failed e) = failed e
  stats_of entries panicked = panicked
  stats_of entries endless = endless

  abbrev pub write_found : ℕ → Option Bytes → W → Result (List Row) → Run (BackupStats × W)
  write_found created_ms schema_hash w (ok entries) = stats_of entries (
      write_stream (header_of created_ms schema_hash entries) entries
        (record { inner = w; count = 0; hashed = [] }))
  write_found created_ms schema_hash w (err e) = failed e

  unfoldable pub write_backup :
      {T : Type 0} → Redb T → Database T → ℕ → Option Bytes → W → Run (BackupStats × W)
  unfolding write_stream
  write_backup r db created_ms schema_hash w =
      write_found created_ms schema_hash w (read r db λ tx. Read.list_entries_raw r tx)

-- `if let (Some(bh), Some(ch)) = …`
abbrev pub hashes_differ : Option Bytes → Option Bytes → Bool
hashes_differ (some bh) (some ch) = not (beq bh ch)
hashes_differ (some bh) none = false
hashes_differ none ch = false

-- Everything before the write transaction: the entries of the stream.
unfoldable pub read_stream : Option ℕ → (Bytes → ℕ) → RestoreOptions → On In (List Row)
read_stream fault crc32 opts = do
  header ← read_from fault
  fail_if (not opts.skip_schema_check && hashes_differ header.schema_hash opts.current_schema_hash)
      (bad_schema hash_mismatch)
  entries ← read_all fault
  finish_and_verify fault crc32
  pure entries

module _ {T : Type 0} (r : Redb T) where
  -- the loop of `put_raw`
  unfoldable pub put_all : List Row → Tx T (Unit {0})
  put_all [] = Tx.pure tt
  put_all (row ∷ rows) = Tx.◌>>◌ (Write.put_raw r row.0 row.1) (put_all rows)

  abbrev pub make_room : Bool → Tx T (Unit {0})
  make_room true = Write.clear_entries r
  make_room false =
      Tx.◌>>=◌ (Write.has_any_entry r)
        λ there. Tx.lift (refuse_if there (conflicting target_not_empty))

  -- the closure of the write
  unfoldable pub replay : Bool → List Row → Tx T (Unit {0})
  unfolding put_all
  replay allow_overwrite entries = Tx.◌>>◌ (make_room allow_overwrite) (put_all entries)

  module _ {W : Type 0} (obs : Observers W) where
    abbrev pub Restored : Type 0
    Restored = Run RestoreStats × Database T × W

    abbrev pub counted : List Row → ℕ → Outcome r obs (Unit {0}) → Restored
    counted entries count (ok _, db, w) = (
      finished (record { entry_count = clamp_u64 (length entries); bytes_read = clamp_u64 count }),
      db,
      w,
    )
    counted entries count (err e, db, w) = (failed e, db, w)

    unfoldable pub restore_read : Database T → W → RestoreOptions → Run (List Row × In) → Restored
    unfolding replay
    restore_read db w opts (finished (entries, s)) =
        counted entries s.count (write r obs db w (replay opts.allow_overwrite entries))
    restore_read db w opts (failed e) = (failed e, db, w)
    restore_read db w opts panicked = (panicked, db, w)
    restore_read db w opts endless = (endless, db, w)

    -- `source` is what the reader yields, and `fault` what it meets after it
    unfoldable pub read_backup :
        Option ℕ → (Bytes → ℕ) → Database T → W → Bytes → RestoreOptions → Restored
    unfolding restore_read read_stream
    read_backup fault crc32 db w source opts =
        restore_read db w opts
          (read_stream fault crc32 opts (record { rest = source; count = 0; hashed = [] }))
