-- ===== src/Examples/Files.antt =====
-- Witnesses: backups on a disk that maps paths to their content.
use nookdb.Prelude.{
  Bool, ◌==◌, ◌%◌, Bool-cases, inl, inr, ◌≡◌, ◌≢◌, ℕ, refl, false, Option, none, some, [], ◌∷◌,
  ◌++◌, sym, subst, length, arith, if◌then◌else◌, ap,
}
use nookdb.Bytes.{Bytes, bytes, beq, beq_refl, beq_sound}
use nookdb.Error.{ok, bad_schema, hash_mismatch}
use nookdb.Database.{add_observer}
use nookdb.Examples.{note_db, log, empty_db}
use nookdb.Examples.Backups.{vec-IsBuffer, sum, over, note_rows-IsFrame, note_head-IsHeader}
use nookdb.Redb.{Try, done, failed}
use nookdb.Redb.Memory.{Table, memory, memory-IsLawful}
use nookdb.Storage.Pure.{table_rows}
use nookdb.Backup
use nookdb.Backup.Copy.{clamp_u64, header_of}
use nookdb.Backup.Format.{BackupHeader, zeros}
use nookdb.Backup.Format.Reads.Header.{IsHeader, header_bytes}
use nookdb.Binding.{JsDatabase, rejected, map_nook_error}
use nookdb.Binding.Backups.{restore, settled}
use nookdb.Binding.Backups.Foreign.{restore-foreign}
use nookdb.Binding.Handles.{bound}
use nookdb.Examples.Checks.{schema, one_place, one_place-IsEncoding, notes-SmallCollection}
use nookdb.Schema.Hash.{feed_schema, schema_hash}
use nookdb.Schema.Hash.Code.{uncons}
use nookdb.Schema.Ir.{SchemaIr}
use nookdb.Backup.Files.{
  FileSystem, IsFileSystem, IsIsolated, tmp_path, backup_to_path, restore_from_path,
}
use nookdb.Backup.Files.Kept.{saved_bytes, restore_from_path-backup_to_path}
use nookdb.Backup.Files.Atomic.{IsAtomic, backup_to_path-IsAtomic}

abbrev Disk : Type 0
Disk = Bytes → Option Bytes

-- the disk and the path of the open file
abbrev File : Type 0
File = Disk × Bytes

abbrev written_at : Bytes → Option Bytes → Disk → Disk
written_at p o d q = if beq p q then o else d q

abbrev found_at : Option Bytes → Try ℕ (Bytes × Option ℕ)
found_at none = failed 2
found_at (some b) = done (b, none)

abbrev pub disk : FileSystem Disk File Bytes
disk = record {
  create = λ d p. done ((d, p), []);
  sink = λ h b more. ok (b ++ more);
  into_inner = λ h b. done b;
  flush = λ h b. done b;
  sync_all = λ h b. done b;
  close = λ h b. written_at h.1 (some b) h.0;
  abandoned = λ h. written_at h.1 (some []) h.0;
  rename = λ d p q. done (written_at q (d p) (written_at p none d));
  open_file = λ d p. found_at (d p);
  extension = λ p. none;
  with_extension = λ p e. p ++ 46 ∷ e;
}

written_at_same : (p : Bytes) (o : Option Bytes) (d : Disk) → written_at p o d p ≡ o
written_at_same p o d = rw beq_refl

written_at_other : (p q : Bytes) (o : Option Bytes) (d : Disk) → p ≢ q → written_at p o d q ≡ d q
written_at_other p q o d n = elim (Bool-cases (beq p q)) [
  | inl e ↦ absurd (n (beq_sound p q e))
  | inr e ↦ rw e
]

found_there : (d : Disk) (p b : Bytes) → d p ≡ some b → found_at (d p) ≡ done (b, none)
found_there d p b h = rw h

abbrev disk-IsFileSystem : IsFileSystem disk
disk-IsFileSystem = record {
  content = λ d p. d p;
  buffer = λ h. vec-IsBuffer;
  created = λ d p. (d, p);
  fresh = [];
  create_ok = λ d p. refl;
  content-fresh = λ h. refl;
  into_inner_ok = λ h b. refl;
  flush_ok = λ h b. refl;
  sync_all_ok = λ h b. refl;
  content-close = λ d p b. written_at_same p (some b) d;
  renamed = λ d p q. written_at q (d p) (written_at p none d);
  rename_ok = λ d p q. refl;
  content-renamed = λ d p q. written_at_same q (d p) (written_at p none d);
  open_ok = found_there;
}

abbrev no_files : Disk
no_files p = none

abbrev nightly : Bytes
nightly = bytes "n"

restore_from_path-backup_to_path_example :
    (let rows = table_rows memory memory-IsLawful note_db.store.entries in
      let size = length (
        saved_bytes disk disk-IsFileSystem sum memory memory-IsLawful no_files note_db 1700000000000
          nightly none) in
      let saved = backup_to_path disk sum memory no_files note_db 1700000000000 nightly none in
      let out = restore_from_path disk sum memory log saved.1 empty_db [] nightly over in
      (saved.0 ≡ Backup.finished (record { entry_count = length rows; bytes_written = size }))
      × (out.0
          ≡ Backup.finished
              (record { entry_count = clamp_u64 (length rows); bytes_read = clamp_u64 size }))
      × (table_rows memory memory-IsLawful out.1.store.entries ≡ rows)
      × (out.2 ≡ []))
unfolding table_rows nookdb.Rows.insert nookdb.Backup.Words.be_onto
restore_from_path-backup_to_path_example =
    restore_from_path-backup_to_path disk disk-IsFileSystem sum memory memory-IsLawful no_files
      note_db 1700000000000 nightly none memory memory-IsLawful log empty_db [] over
      note_rows-IsFrame note_head-IsHeader (omega arith) tt refl

-- a disk whose renames fail
abbrev full : FileSystem Disk File Bytes
full = record disk { rename = λ d p q. failed (28, d) }

full-other :
    (d : Disk) (p q : Bytes) (h : File) (b : Bytes) (o : Option Bytes)
    → full.create d p ≡ done (h, b)
    → p ≢ q
    → written_at h.1 o h.0 q ≡ d q
full-other d p q h b o e n =
    let same : (d, p) ≡ h = ap (λ t. elim t [ done c ↦ c.0 | failed f ↦ (d, p) ]) e in
    subst (λ k. written_at k.1 o k.0 q ≡ d q) same (written_at_other p q o d n)

full-IsIsolated : IsIsolated full
full-IsIsolated = record {
  content = λ d p. d p;
  create_failed = λ d p q f e n. absurd (ground (arith, e));
  into_inner_failed = λ d p q h b b' f m e n. absurd (ground (arith, e));
  flush_failed = λ d p q h b b' f m e n. absurd (ground (arith, e));
  sync_all_failed = λ d p q h b b' f m e n. absurd (ground (arith, e));
  content-close = λ d p q h b b' m n. full-other d p q h b (some b') m n;
  content-abandoned = λ d p q h b m n. full-other d p q h b (some []) m n;
  rename_failed = λ d p q k f e. ap (λ t. elim t [ done c ↦ d k | failed g ↦ g.1 k ]) (sym e);
}

nightly-apart : tmp_path full nightly ≢ nightly
unfolding tmp_path
nightly-apart e = cc

backup_to_path-IsAtomic_example :
    IsAtomic full full-IsIsolated sum no_files
      (tmp_path full nightly)
      nightly
      nightly-apart
      (backup_to_path full sum memory no_files note_db 1700000000000 nightly none)
backup_to_path-IsAtomic_example =
    backup_to_path-IsAtomic full full-IsIsolated sum memory no_files note_db 1700000000000 nightly
      none nightly-apart

abbrev pub digest : Bytes → Bytes
digest b = length b % 256 ∷ zeros 31

abbrev no_schema : SchemaIr ℕ
no_schema = record { collections = [] }

abbrev other_object : JsDatabase ℕ ℕ Table
other_object = bound (empty_db, no_schema)

abbrev foreign_head : BackupHeader
foreign_head = header_of 1700000000000 (some (schema_hash one_place digest schema)) []

foreign_head-IsHeader : IsHeader foreign_head
unfolding schema_hash
foreign_head-IsHeader = record {
  version = refl;
  created_fits = omega arith;
  hash_fits = refl;
  marker_fits = omega arith;
  hint_fits = omega arith;
}

sizes :
    ◌≡◌ {A = Bool}
      (length (feed_schema one_place schema) % 256
        == length (feed_schema one_place no_schema) % 256)
      false
unfolding feed_schema nookdb.Schema.Hash.feed_all nookdb.Schema.Hash.feed
    nookdb.Schema.Hash.le_bytes nookdb.Schema.Hash.feed_counted nookdb.Schema.Hash.feed_field_type
    nookdb.Schema.Hash.feed_bool nookdb.Schema.Hash.feed_option
sizes = refl

digest-apart :
    digest (feed_schema one_place schema) ≡ digest (feed_schema one_place no_schema)
    → feed_schema one_place schema ≡ feed_schema one_place no_schema
digest-apart e = absurd (ground (arith, (uncons _ _ _ _ e).0, sizes))

schema-other : schema ≢ no_schema
schema-other e = let f = ap (λ s. s.collections) e in cc

abbrev shelf : Disk
shelf = written_at nightly (some (header_bytes foreign_head ++ [])) no_files

restore-foreign_example :
    restore disk sum digest one_place memory shelf nightly none other_object
    ≡ (settled (rejected (map_nook_error (bad_schema hash_mismatch))), other_object)
unfolding beq
restore-foreign_example =
    restore-foreign one_place one_place-IsEncoding digest schema no_schema
      (notes-SmallCollection, tt) tt digest-apart schema-other disk sum memory shelf nightly none
      other_object
      (record {
        schema = some no_schema;
        live = some (record { schema = no_schema; observer = (add_observer empty_db 0).1 });
      })
      foreign_head [] none refl refl foreign_head-IsHeader refl refl refl
