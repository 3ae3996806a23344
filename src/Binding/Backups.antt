-- ===== src/Binding/Backups.antt =====
-- `backup` and `restore` of crates/nookdb-napi/src/database.rs, with the structs of
-- crates/nookdb-napi/src/backup.rs and `map_join_error` of crates/nookdb-napi/src/error.rs. The disk is
-- a second state of the calls.
pub mod Foreign
use nookdb.Prelude.{ℕ, ◌-◌, ◌^◌, min, Bool, false, Option, none, some}
use nookdb.Bytes.{Bytes, bytes}
use nookdb.Database.{Database}
use nookdb.Redb.{Redb}
use nookdb.Schema.Hash.{schema_hash}
use nookdb.Schema.Ir.{SchemaIr}
use nookdb.Backup.{Run, finished, failed, panicked, endless}
use nookdb.Backup.Copy.{BackupStats, RestoreStats, RestoreOptions, Restored}
use nookdb.Backup.Files.{FileSystem, backup_to_path, restore_from_path}
use nookdb.Binding.{
  NapiError, Settled, resolved, rejected, map_nook_error, join_failed, JsDatabase, engine_observer,
}
use nookdb.Binding.Handles.{get_db_and_optional_schema}

pub record JsBackupStats : Type 0 where
  pub entry_count : ℕ
  pub bytes_written : ℕ

pub record JsRestoreStats : Type 0 where
  pub entry_count : ℕ
  pub bytes_read : ℕ

pub record JsRestoreOptions : Type 0 where
  pub allow_overwrite : Option Bool
  pub skip_schema_check : Option Bool

abbrev pub map_join_error : NapiError
map_join_error = record { slug = bytes "transaction"; body = join_failed }

-- `i64::try_from(n).unwrap_or(i64::MAX)`
unfoldable pub clamp_i64 : ℕ → ℕ
clamp_i64 n = min n (2 ^ 63 - 1)

-- `o.unwrap_or(false)`
abbrev pub or_false : Option Bool → Bool
or_false none = false
or_false (some b) = b

-- What `spawn_blocking` gives back; a panic of the closure is a failed join, and a closure that does
-- not end leaves the promise open.
pub data Awaited (A : Type 0) : Type 0 where
  settled : Settled A → Awaited A
  pending : Awaited A

abbrev pub awaited : {A B : Type 0} → (A → B) → Run A → Awaited B
awaited f (finished a) = settled (resolved (f a))
awaited f (failed e) = settled (rejected (map_nook_error e))
awaited f panicked = settled (rejected map_join_error)
awaited f endless = pending

abbrev pub backup_stats : BackupStats → JsBackupStats
backup_stats s = record {
  entry_count = clamp_i64 s.entry_count;
  bytes_written = clamp_i64 s.bytes_written;
}

abbrev pub restore_stats : RestoreStats → JsRestoreStats
restore_stats s = record {
  entry_count = clamp_i64 s.entry_count;
  bytes_read = clamp_i64 s.bytes_read;
}

abbrev pub flag : (JsRestoreOptions → Option Bool) → Option JsRestoreOptions → Bool
flag f none = false
flag f (some o) = or_false (f o)

module _ {F : Type 0} (sha256 : Bytes → Bytes) (f64_bytes : F → Bytes) where
  -- `schema.as_ref().map(|s| s.schema_hash())`
  abbrev pub hash_of : Option (SchemaIr F) → Option Bytes
  hash_of none = none
  hash_of (some schema) = some (schema_hash f64_bytes sha256 schema)

  abbrev pub restore_opts : Option JsRestoreOptions → Option (SchemaIr F) → RestoreOptions
  restore_opts opts schema = record {
    allow_overwrite = flag (λ o. o.allow_overwrite) opts;
    skip_schema_check = flag (λ o. o.skip_schema_check) opts;
    current_schema_hash = hash_of schema;
  }

module _ {F T D H B : Type 0} (fs : FileSystem D H B) (crc32 : Bytes → ℕ) (sha256 : Bytes → Bytes)
    (f64_bytes : F → Bytes) (r : Redb T) where
  abbrev pub backed_up :
      D → ℕ → Bytes → Settled (Database T × Option (SchemaIr F)) → Awaited JsBackupStats × D
  backed_up d created_ms dest_path (rejected e) = (settled (rejected e), d)
  backed_up d created_ms dest_path (resolved (db, schema)) =
      let out =
        backup_to_path fs crc32 r d db created_ms dest_path (hash_of sha256 f64_bytes schema) in
      (awaited backup_stats out.0, out.1)

module _ {N F T D H B : Type 0} (fs : FileSystem D H B) (crc32 : Bytes → ℕ) (sha256 : Bytes → Bytes)
    (f64_bytes : F → Bytes) (r : Redb T) where
  unfoldable pub backup : D → ℕ → Bytes → JsDatabase N F T → Awaited JsBackupStats × D
  backup d created_ms dest_path s =
      backed_up fs crc32 sha256 f64_bytes r d created_ms dest_path (get_db_and_optional_schema s)

  abbrev pub restored :
      JsDatabase N F T
      → Restored r (engine_observer {N = N})
      → Awaited JsRestoreStats × JsDatabase N F T
  restored s out = (awaited restore_stats out.0, record s { core = out.1; engine = out.2 })

  abbrev pub read_back :
      D
      → Bytes
      → Option JsRestoreOptions
      → JsDatabase N F T
      → Settled (Database T × Option (SchemaIr F))
      → Awaited JsRestoreStats × JsDatabase N F T
  read_back d src_path opts s (rejected e) = (settled (rejected e), s)
  read_back d src_path opts s (resolved (db, schema)) = restored s (
      restore_from_path fs crc32 r engine_observer d db s.engine src_path
        (restore_opts sha256 f64_bytes opts schema))

  unfoldable pub restore :
      D
      → Bytes
      → Option JsRestoreOptions
      → JsDatabase N F T
      → Awaited JsRestoreStats × JsDatabase N F T
  restore d src_path opts s = read_back d src_path opts s (get_db_and_optional_schema s)
