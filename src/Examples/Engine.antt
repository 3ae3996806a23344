-- ===== src/Examples/Engine.antt =====
-- Witnesses: the stored bytes and their transactions.
use nookdb.Error.{invalid_argument, collection_empty}
use nookdb.Prelude.{map, Bool, false, Option, none, some, ◌≡◌, refl, true, [], ◌∷◌, if◌then◌else◌}
use nookdb.Bytes.{Bytes, bytes, beq}
use nookdb.Codec.{encode_key}
use nookdb.Database.{Database, write}
use nookdb.Database.Atomic.{view, write-rollback}
use nookdb.Database.Bytewise.{put_lem}
use nookdb.Database.Opened.{Disk, content}
use nookdb.Redb.{Store, done, failed, EngineError}
use nookdb.Error.{ok, err}
use nookdb.Examples.{plain, note_db, log, watched, empty_db, notes-IsName}
use nookdb.Index.Lookup.{entries_of, lookup_eq_lem}
use nookdb.Index.Exact.{has_entry}
use nookdb.Json.{string}
use nookdb.Storage.Pure.{table_rows}
use nookdb.Storage.Tx.{ReadTx}
use nookdb.Index.{encode_index_value, lookup_eq, index_value_exists}
use nookdb.Notify.{ChangeOp, CommitEvent, dispatch}
use nookdb.Redb.Memory.{Table, memory, memory-IsLawful}
use nookdb.Rows.{insert}
use nookdb.Storage.Pure.{change}
use nookdb.Storage.Write
use nookdb.Storage.Tx.{Tx}

abbrev key_a : Bytes
key_a = bytes "a"

abbrev value_x : Bytes
value_x = bytes "x"

abbrev in_notes : Bytes
in_notes = bytes "notes"

abbrev put_x : Tx Table (Unit {0})
put_x = Write.put memory in_notes key_a value_x

-- the database after the first put
abbrev one_db : Database Table
one_db = (write memory log empty_db [] put_x).1

put_lem_example :
    (let out = write memory log empty_db [] put_x in
      (out.0 ≡ ok tt)
      × (view memory memory-IsLawful out.1 in_notes
          ≡ insert key_a value_x (view memory memory-IsLawful empty_db in_notes))
      × (out.2
          ≡ dispatch log watched
              (record { changes = change in_notes ChangeOp.insert key_a ∷ [] })
              []))
unfolding insert beq
put_lem_example =
    put_lem memory memory-IsLawful log empty_db [] in_notes key_a value_x in_notes notes-IsName
      notes-IsName

-- a put under the empty name fails
abbrev bad_put : Tx Table (Unit {0})
bad_put = Write.put memory [] key_a value_x

bad_put_fails : (write memory log empty_db [] bad_put).0 ≡ err (invalid_argument collection_empty)
unfolding write Write.new Write.put encode_key
bad_put_fails = refl

write-rollback_example :
    ((write memory log empty_db [] bad_put).1 ≡ empty_db)
    × ((write memory log empty_db [] bad_put).2 ≡ [])
write-rollback_example =
    write-rollback memory log empty_db [] bad_put (invalid_argument collection_empty) bad_put_fails

abbrev noted : ReadTx Table
noted = record { table = note_db.store.entries; index_table = note_db.store.index }

lookup_eq_lem_example :
    (lookup_eq plain memory in_notes key_a (string value_x) noted
      ≡ ok (
          map
            (λ row. row.1)
            (entries_of in_notes key_a value_x
              (table_rows memory memory-IsLawful noted.index_table))))
    × (index_value_exists plain memory in_notes key_a (string value_x) noted
        ≡ ok (
            has_entry in_notes key_a value_x (table_rows memory memory-IsLawful noted.index_table)))
unfolding encode_index_value
lookup_eq_lem_example =
    lookup_eq_lem plain memory memory-IsLawful in_notes key_a (string value_x) noted

abbrev event : CommitEvent
event = record { changes = change in_notes ChangeOp.insert key_a ∷ [] }

-- the path of every database file is in the directory `data`
abbrev in_data : Bytes
in_data = bytes "data"

abbrev Files : Type 0
Files = (Bytes → Bool) × (Bytes → Option (Store Table))

abbrev touch_file : Files → Bytes → Files
touch_file d p = (d.0, λ q. if beq p q then some (content (d.1 p)) else d.1 q)

abbrev files : Disk Files Table
files = record {
  parent = λ p. some in_data;
  exists = λ d p. d.0 p;
  create_dir_all = λ d p. (done tt, ((λ q. if beq p q then true else d.0 q), d.1));
  create = λ d p.
      if d.0 in_data
      then (done (content (d.1 p)), touch_file d p)
      else (failed (EngineError.other 0), d);
}

-- no file and no directory
abbrev bare_disk : Files
bare_disk = (λ q. false, λ q. none)
