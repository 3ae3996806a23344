-- ===== src/Examples/Documents.antt =====
-- Witnesses: collections, their schema and their documents.
use nookdb.Index.{key}
use nookdb.Collection.Filter.{doc_id}
use nookdb.Prelude.{◌≡◌, ◌↔◌, refl, true, false, List, [], ◌∷◌, ℕ, Option, some, none, find}
use nookdb.Bytes.{Bytes, bytes, beq}
use nookdb.Collection.Inserted.{taken, insert_lem, by_id-insert, insert-conflict}
use nookdb.Collection.Reads.{by_id}
use nookdb.Collection.Writes.{prepare, insert}
use nookdb.Database.Atomic.{view}
use nookdb.Doc.{encode_document, decode_document, identity_codec}
use nookdb.Error.{ok, err, conflicting, duplicate}
use nookdb.Examples.{
  note_db, plain, log, watched, empty_db, notes, notes_ir, by_id_index, note, notes-IsName,
}
use nookdb.Json.{Value, null, get, object, Members, member, end, string}
use nookdb.Notify.{ChangeOp, dispatch}
use nookdb.Redb.Memory.{memory, memory-IsLawful}
use nookdb.Rows
use nookdb.Schema.Accepted.{validate_document_iff, Conforms}
use nookdb.Schema.Compile.{compile}
use nookdb.Schema.Ir.{
  SchemaIr, CollectionIr, RawCollection, RawIndex, RawField, raw_field, no_items, collection,
}
use nookdb.Schema.Validate.{validate_document}
use nookdb.Schema.WellFormed.{IsWellFormed, compile-IsWellFormed}
use nookdb.Storage.Pure.{change, table_rows}

abbrev key_a : Bytes
key_a = bytes "a"

abbrev in_notes : Bytes
in_notes = bytes "notes"

note_a-prepared : prepare plain memory notes (note key_a) ≡ ok (key_a, key_a)
unfolding prepare validate_document nookdb.Schema.Ir.field beq nookdb.Json.get_member doc_id get
    encode_document
note_a-prepared = refl

free :
    find
      (taken plain memory memory-IsLawful notes
        (table_rows memory memory-IsLawful none)
        (note key_a))
      notes_ir.indexes
    ≡ none
unfolding table_rows
free = refl

insert_lem_example :
    (let out = insert plain memory notes log empty_db [] (note key_a) in
      (out.0 ≡ ok tt)
      × (view memory memory-IsLawful out.1 in_notes
          ≡ Rows.insert key_a key_a (view memory memory-IsLawful empty_db in_notes))
      × (out.2
          ≡ dispatch log watched
              (record { changes = change in_notes ChangeOp.insert key_a ∷ [] })
              []))
unfolding Rows.insert beq
insert_lem_example =
    insert_lem plain memory memory-IsLawful notes log empty_db [] (note key_a) key_a key_a in_notes
      notes-IsName notes-IsName note_a-prepared free

decoded : decode_document plain key_a identity_codec ≡ ok (note key_a)
unfolding decode_document
decoded = refl

by_id-insert_example :
    by_id plain memory notes (insert plain memory notes log empty_db [] (note key_a)).1 key_a
    ≡ ok (note key_a ∷ [])
by_id-insert_example =
    by_id-insert plain memory memory-IsLawful notes log empty_db [] (note key_a) key_a key_a
      notes-IsName note_a-prepared free decoded

held :
    find
      (taken plain memory memory-IsLawful notes
        (table_rows memory memory-IsLawful note_db.store.index)
        (note key_a))
      notes_ir.indexes
    ≡ some by_id_index
unfolding table_rows Rows.insert nookdb.Bytes.cmp key nookdb.Index.prefix
    nookdb.Index.encode_index_value get beq nookdb.Bytes.Affix.after
held = refl

insert-conflict_example :
    insert plain memory notes log note_db [] (note key_a)
    ≡ (err (conflicting (duplicate in_notes (bytes "_id"))), note_db, [])
insert-conflict_example =
    insert-conflict plain memory memory-IsLawful notes log note_db [] (note key_a) key_a key_a
      by_id_index note_a-prepared held

abbrev note_members : Members ℕ
note_members = member (bytes "_id") (string key_a) end

validate_document_iff_example :
    (validate_document plain notes_ir (object note_members) ≡ ok tt)
    ↔ Conforms plain notes_ir note_members
validate_document_iff_example = validate_document_iff plain notes_ir note_members

abbrev raw_notes : RawCollection ℕ
raw_notes = record {
  id_field = bytes "_id";
  fields =
      raw_field (bytes "_id") (bytes "id") false false none none false false none [] no_items ∷ [];
  indexes = record { field = bytes "_id"; unique = true } ∷ [];
}

abbrev notes_schema : SchemaIr ℕ
notes_schema = record { collections = (in_notes, notes_ir) ∷ [] }

abbrev decode_notes : Bytes → Option (List (Bytes × RawCollection ℕ))
decode_notes text = some ((in_notes, raw_notes) ∷ [])

compile-IsWellFormed_example : IsWellFormed in_notes notes_ir
unfolding compile collection beq nookdb.Schema.Compile.parse_field_type_recursive
compile-IsWellFormed_example =
    compile-IsWellFormed decode_notes (bytes "{}") notes_schema in_notes notes_ir refl refl
