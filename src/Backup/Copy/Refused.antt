-- ===== src/Backup/Copy/Refused.antt =====
-- How `read_backup` of crates/nookdb-core/src/backup.rs ends, and what it leaves where it fails.
use nookdb.Prelude.{
  ℕ, ◌^◌, ◌<◌, ◌≡◌, ◌≢◌, refl, true, false, not, ◌&&◌, Option, List, [], ◌++◌, All, take, length,
  arith,
}
use nookdb.Bytes.{Bytes}
use nookdb.Database.{Database, Outcome, write}
use nookdb.Database.Atomic.{write-rollback}
use nookdb.Error.{NookError, ok, err, corrupted, bad_checksum}
use nookdb.Notify.{Observers}
use nookdb.Redb.{Redb}
use nookdb.Rows.{Row}
use nookdb.Backup.{Run, finished, failed, panicked, endless, In, at_end}
use nookdb.Backup.Words.{to_be}
use nookdb.Backup.Format.{BackupHeader}
use nookdb.Backup.Format.Reads.{at}
use nookdb.Backup.Format.Reads.Ends.{
  returns, Sheds, bind-Sheds, fail_if-Sheds, pure-Sheds, read_from-Sheds, read_all-Sheds,
  finish_and_verify-Sheds, sheds,
}
use nookdb.Backup.Format.Reads.Header.{IsHeader}
use nookdb.Backup.Format.Reads.Entries.{IsFrame}
use nookdb.Backup.Copy.{
  RestoreOptions, counted, hashes_differ, replay, restore_read, read_stream, read_backup,
}
use nookdb.Backup.Copy.Stream.{covered, stream_bytes}
use nookdb.Backup.Copy.Received.{wrong_footer, cut_stream}

read_stream-Sheds :
    (fault : Option ℕ) (crc32 : Bytes → ℕ) (opts : RestoreOptions)
    → Sheds (read_stream fault crc32 opts) 0
unfolding read_stream
read_stream-Sheds fault crc32 opts = bind-Sheds _ (read_from-Sheds fault) λ header.
    bind-Sheds _ (fail_if-Sheds _ _) λ _.
      bind-Sheds _ (read_all-Sheds fault)
        λ entries. bind-Sheds _ (finish_and_verify-Sheds fault crc32) λ _. pure-Sheds entries

module _ {T W : Type 0} (r : Redb T) (obs : Observers W) where
  counted-returns :
      (entries : List Row) (n : ℕ) (out : Outcome r obs (Unit {0}))
      → returns (counted r obs entries n out).0 ≡ true
  counted-returns entries n (ok a, db, w) = refl
  counted-returns entries n (err e, db, w) = refl

  restore_read-returns :
      (db : Database T) (w : W) (opts : RestoreOptions) (n : ℕ) (x : Run (List Row × In))
      → sheds 0 n x ≡ true
      → returns (restore_read r obs db w opts x).0 ≡ true
  unfolding restore_read
  restore_read-returns db w opts n (finished (rows, s)) h =
      counted-returns rows s.count (write r obs db w (replay r opts.allow_overwrite rows))
  restore_read-returns db w opts n (failed e) h = refl
  restore_read-returns db w opts n panicked h = h
  restore_read-returns db w opts n endless h = h

  -- A restore comes back with its counts or with an error, for every engine, every stream and
  -- every end of it: its loop over the entries ends, and it does not panic.
  pub read_backup-returns :
      (fault : Option ℕ) (crc32 : Bytes → ℕ) (db : Database T) (w : W) (source : Bytes)
      (opts : RestoreOptions)
      → returns (read_backup r obs fault crc32 db w source opts).0 ≡ true
  unfolding read_backup
  read_backup-returns fault crc32 db w source opts =
      restore_read-returns db w opts (length source) _
        ((read_stream-Sheds fault crc32 opts).shed (at source 0 []))

  counted-rollback :
      (entries : List Row) (n : ℕ) (db : Database T) (w : W) (opts : RestoreOptions) (e : NookError)
      (out : Outcome r obs (Unit {0}))
      → ((x : NookError) → out.0 ≡ err x → (out.1 ≡ db) × (out.2 ≡ w))
      → (counted r obs entries n out).0 ≡ failed e
      → ((counted r obs entries n out).1 ≡ db) × ((counted r obs entries n out).2 ≡ w)
  counted-rollback entries n db w opts e (ok a, db', w') f h = ground (arith, h)
  counted-rollback entries n db w opts e (err x, db', w') f h = f x refl

  restore_read-rollback :
      (db : Database T) (w : W) (opts : RestoreOptions) (e : NookError) (x : Run (List Row × In))
      → (restore_read r obs db w opts x).0 ≡ failed e
      → ((restore_read r obs db w opts x).1 ≡ db) × ((restore_read r obs db w opts x).2 ≡ w)
  unfolding restore_read
  restore_read-rollback db w opts e (finished (rows, s)) h =
      counted-rollback rows s.count db w opts e
        (write r obs db w (replay r opts.allow_overwrite rows))
        (λ x. write-rollback r obs db w (replay r opts.allow_overwrite rows) x) h
  restore_read-rollback db w opts e (failed x) h = (refl, refl)
  restore_read-rollback db w opts e panicked h = (refl, refl)
  restore_read-rollback db w opts e endless h = (refl, refl)

  -- If a restore fails, at the stream, at a check or in the transaction, and for every engine, the
  -- database is the one before it, and no observer has been called.
  pub read_backup-rollback :
      (fault : Option ℕ) (crc32 : Bytes → ℕ) (db : Database T) (w : W) (source : Bytes)
      (opts : RestoreOptions) (e : NookError)
      → (read_backup r obs fault crc32 db w source opts).0 ≡ failed e
      → (let out = read_backup r obs fault crc32 db w source opts in (out.1 ≡ db) × (out.2 ≡ w))
  unfolding read_backup
  read_backup-rollback fault crc32 db w source opts e h = restore_read-rollback db w opts e _ h

  module _ (fault : Option ℕ) (crc32 : Bytes → ℕ) (db : Database T) (w : W) (opts : RestoreOptions)
      (d : BackupHeader) (rows : List Row) (hd : IsHeader d) (fits : All IsFrame rows)
      (same : (not opts.skip_schema_check && hashes_differ d.schema_hash opts.current_schema_hash)
        ≡ false) where
    -- Where the schema check of a backup passes: if its stream is cut short at any byte, the
    -- restore fails with the end that it meets, a truncation if nothing follows, and leaves the
    -- database and the observers alone.
    pub read_backup-take :
        (k : ℕ)
        → k < length (stream_bytes crc32 d rows)
        → read_backup r obs fault crc32 db w (take k (stream_bytes crc32 d rows)) opts
          ≡ (failed (at_end fault), db, w)
    unfolding read_backup restore_read
    read_backup-take k h = rw (cut_stream fault crc32 opts d rows hd fits same k h) refl

    -- Where the schema check of a backup passes: if the footer is any word but the check sum of
    -- what comes before it, the restore fails on the check sum, and leaves the database and the
    -- observers alone.
    pub read_backup-damaged :
        (v : ℕ)
        → v < 2 ^ 32
        → v ≢ crc32 (covered d rows)
        → read_backup r obs fault crc32 db w (covered d rows ++ to_be 4 v) opts
          ≡ (failed (corrupted bad_checksum), db, w)
    unfolding read_backup restore_read
    read_backup-damaged v h ne = rw (wrong_footer fault crc32 opts d rows hd fits same v h ne) refl
