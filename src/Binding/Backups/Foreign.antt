-- ===== src/Binding/Backups/Foreign.antt =====
-- About `restore` of crates/nookdb-napi/src/database.rs for a backup that was made under another
-- schema.
use nookdb.Prelude.{
  ℕ, ◌≡◌, ◌≢◌, refl, true, false, not, ◌&&◌, Option, some, ◌++◌, All, Bool-cases, inl, inr,
}
use nookdb.Bytes.{Bytes, beq, beq_sound}
use nookdb.Error.{bad_schema, hash_mismatch}
use nookdb.Redb.{Redb, done}
use nookdb.Schema.Hash.{feed_schema, schema_hash}
use nookdb.Schema.Hash.Injective.{IsEncoding, SmallCollection, feed_schema-injective}
use nookdb.Schema.Ir.{SchemaIr}
use nookdb.Backup.Copy.{read_backup, restore_read, hashes_differ}
use nookdb.Backup.Copy.Received.{foreign_stream}
use nookdb.Backup.Files.{FileSystem, restore_from_path}
use nookdb.Backup.Format.{BackupHeader}
use nookdb.Backup.Format.Reads.Header.{header_bytes, IsHeader}
use nookdb.Binding.{rejected, map_nook_error, JsDatabase, DbHandle}
use nookdb.Binding.Backups.{settled, restore, restore_opts, flag, JsRestoreOptions}
use nookdb.Binding.Handles.{get_db_and_optional_schema}

module _ {F : Type 0} (f64_bytes : F → Bytes) (code : IsEncoding f64_bytes) (sha256 : Bytes → Bytes)
    (s t : SchemaIr F) (small : All (λ c. SmallCollection c) s.collections)
    (small' : All (λ c. SmallCollection c) t.collections)
    (apart : sha256 (feed_schema f64_bytes s) ≡ sha256 (feed_schema f64_bytes t)
      → feed_schema f64_bytes s ≡ feed_schema f64_bytes t)
    (other : s ≢ t) where
  hash_differs : beq (schema_hash f64_bytes sha256 s) (schema_hash f64_bytes sha256 t) ≡ false
  unfolding schema_hash
  hash_differs =
      elim (Bool-cases (beq (schema_hash f64_bytes sha256 s) (schema_hash f64_bytes sha256 t))) [
        | inr e ↦ e
        | inl e ↦ absurd (
            other (
              feed_schema-injective f64_bytes code s t small small' (
                apart
                  (beq_sound (schema_hash f64_bytes sha256 s) (schema_hash f64_bytes sha256 t) e))))
      ]

  module _ {N T D H B : Type 0} (fs : FileSystem D H B) (crc32 : Bytes → ℕ) (r : Redb T) where
    -- For every engine and disk: where the file begins with the header of a backup made under the
    -- schema `s`, the object was opened with another schema `t`, SHA-256 tells these two apart, and
    -- the options do not skip the check, `restore` is rejected on the schema hash, and the object
    -- and its database are as they were.
    pub restore-foreign :
        (d : D) (path : Bytes) (opts : Option JsRestoreOptions) (o : JsDatabase N F T)
        (h : DbHandle F) (head : BackupHeader) (rest : Bytes) (fault : Option ℕ)
        → o.inner ≡ some h
        → h.schema ≡ some t
        → IsHeader head
        → head.schema_hash ≡ some (schema_hash f64_bytes sha256 s)
        → fs.open_file d path ≡ done (header_bytes head ++ rest, fault)
        → flag (λ p. p.skip_schema_check) opts ≡ false
        → restore fs crc32 sha256 f64_bytes r d path opts o
          ≡ (settled (rejected (map_nook_error (bad_schema hash_mismatch))), o)
    unfolding restore get_db_and_optional_schema restore_from_path read_backup restore_read
    restore-foreign d path opts o h head rest fault opened schema hd hash file check =
        let differ : (not (restore_opts sha256 f64_bytes opts (some t)).skip_schema_check
              && hashes_differ head.schema_hash
                  (restore_opts sha256 f64_bytes opts (some t)).current_schema_hash)
            ≡ true =
          rw (check, hash, hash_differs) refl in
        rw
          (
            opened,
            schema,
            file,
            foreign_stream fault crc32 (restore_opts sha256 f64_bytes opts (some t)) head rest hd
                differ,
          )
          refl
