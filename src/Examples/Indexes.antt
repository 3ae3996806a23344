-- ===== src/Examples/Indexes.antt =====
-- Witnesses: a collection with an index on the field `tag`.
use nookdb.Prelude.{
  ap, subst, All, ◌≡◌, ◌∙◌, refl, sym, false, Option, none, some, [], ◌∷◌, ℕ, filter, arith,
  Bool-cases, inl, inr,
}
use nookdb.Bytes.{Bytes, bytes, beq}
use nookdb.Collection.{Collection}
use nookdb.Collection.Consistent.{Consistent, insert-IsConsistent}
use nookdb.Collection.Deleted.{IsDeleted, delete-IsDeleted}
use nookdb.Collection.Filter.{matches, doc_id}
use nookdb.Collection.History.{IsSchema, History, History-Consistent}
use nookdb.Collection.Kept.{NulFree}
use nookdb.Codec.Keys.{IsName}
use nookdb.Collection.Planned.{HasTexts, documents, find_with-filter, string-SameText}
use nookdb.Collection.Reads.{find_with, field_ty}
use nookdb.Collection.Unique.{AllUnique, insert-AllUnique}
use nookdb.Collection.Writes.{prepare, insert, delete}
use nookdb.Database.{Database}
use nookdb.Database.Atomic.{view}
use nookdb.Doc.{decode_document, encode_document, identity_codec}
use nookdb.Error.{ok}
use nookdb.Examples.{notes, note, plain, log, empty_db, id_field, notes-IsName, watched}
use nookdb.Json.{Value, External, member, end, object, string, get, get_member}
use nookdb.Query.{default, apply}
use nookdb.Redb.Memory.{Table, memory, memory-IsLawful}
use nookdb.Schema.Ir.{FieldType, FieldIr, CollectionIr, IndexIr}
use nookdb.Schema.Validate.{validate_document}
use nookdb.Storage.Pure.{table_rows}

-- a note with the tag `t`; its stored bytes are its id
abbrev tagged : Bytes → Value ℕ
tagged id =
    object (member (bytes "_id") (string id) (member (bytes "tag") (string (bytes "t")) end))

abbrev tagged_text : Value ℕ → Option Bytes
tagged_text (object (member k (string id) ms)) = some id
tagged_text _ = none

abbrev json : External ℕ ℕ
json = record plain { to_vec = tagged_text; from_slice = λ s. some (tagged s) }

abbrev tag_field : FieldIr ℕ
tag_field = record id_field { name = bytes "tag"; ty = FieldType.string }

abbrev pub by_tag : IndexIr
by_tag = record { field = bytes "tag"; unique = false }

abbrev pub tagged_notes : Collection ℕ
tagged_notes = record {
  ir = record { id_field = bytes "_id"; fields = id_field ∷ tag_field ∷ []; indexes = by_tag ∷ [] };
  name = bytes "notes";
  codec = identity_codec;
}

abbrev pub key_a : Bytes
key_a = bytes "a"

empty-Consistent : Consistent json memory memory-IsLawful tagged_notes empty_db
unfolding view table_rows nookdb.Rows.user_rows nookdb.Rows.lookup
empty-Consistent = record { filed = tt; nul_free = tt; agrees = (λ e id h. refl, tt) }

tagged-prepared : prepare json memory tagged_notes (tagged key_a) ≡ ok (key_a, key_a)
unfolding prepare validate_document nookdb.Schema.Ir.field beq get_member doc_id get encode_document
tagged-prepared = refl

is_new :
    (id stored : Bytes)
    → prepare json memory tagged_notes (tagged key_a) ≡ ok (id, stored)
    → (nookdb.Rows.lookup id (view memory memory-IsLawful empty_db (bytes "notes")) ≡ none)
      × (decode_document json stored identity_codec ≡ ok (tagged key_a))
unfolding view table_rows nookdb.Rows.user_rows nookdb.Rows.lookup decode_document
is_new id stored h =
    let p : ok (key_a, key_a) ≡ ok (id, stored) = sym tagged-prepared ∙ h in
    let same : stored ≡ key_a = ground (arith, p) in (refl, ap (λ s. ok (tagged s)) same)

-- the database after the insert of one note
abbrev one_db : Database Table
one_db = (insert json memory tagged_notes log empty_db [] (tagged key_a)).1

insert-IsConsistent_example : Consistent json memory memory-IsLawful tagged_notes one_db
insert-IsConsistent_example =
    insert-IsConsistent json memory memory-IsLawful tagged_notes log empty_db [] (tagged key_a)
      notes-IsName (refl, tt) empty-Consistent is_new

one_db-Consistent : Consistent json memory memory-IsLawful tagged_notes one_db
one_db-Consistent =
    insert-IsConsistent json memory memory-IsLawful tagged_notes log empty_db [] (tagged key_a)
      notes-IsName (refl, tt) empty-Consistent is_new

abbrev Ours : Collection ℕ → Type 0
Ours c = c ≡ tagged_notes

Ours-IsSchema : IsSchema Ours
Ours-IsSchema = record {
  names = λ c o. subst (λ d. IsName d.name) (sym o) notes-IsName;
  fields = λ c o. subst (λ d. All NulFree d.ir.indexes) (sym o) (refl, tt);
  one_for_name = λ c e o o' h. o ∙ sym o';
}

one_insert : History json memory memory-IsLawful log Ours one_db
one_insert = History.inserts tagged_notes [] (tagged key_a) (History.start watched) refl is_new

History-Consistent_example : Consistent json memory memory-IsLawful tagged_notes one_db
History-Consistent_example =
    History-Consistent json memory memory-IsLawful log Ours Ours-IsSchema one_insert tagged_notes
      refl

-- the filter `{"tag": "t"}`, which takes the path over the index
abbrev by_t : Value ℕ
by_t = object (member (bytes "tag") (string (bytes "t")) end)

by_t-HasTexts : HasTexts json by_t
unfolding get get_member
by_t-HasTexts f v g o = elim (Bool-cases (beq (bytes "tag") f)) [
  | inl e ↦
      let same : string (bytes "t") ≡ v = ground (arith, g, e) in
      rw (sym same) (string-SameText json (bytes "t"))
  | inr e ↦ absurd (ground (arith, g, e))
]

find_with-filter_example :
    find_with json memory tagged_notes one_db by_t default
    ≡ apply json default
        (filter
          (λ d. matches json d by_t)
          (documents json memory memory-IsLawful tagged_notes one_db notes-IsName
            one_db-Consistent))
        (bytes "_id")
        (field_ty tagged_notes.ir)
find_with-filter_example =
    find_with-filter json memory memory-IsLawful tagged_notes one_db notes-IsName one_db-Consistent
      by_t default by_t-HasTexts

delete-IsDeleted_example :
    IsDeleted json memory memory-IsLawful tagged_notes one_db notes-IsName
      (refl, tt)
      one_db-Consistent
      by_t
      log
      []
      (delete json memory tagged_notes log one_db [] by_t)
delete-IsDeleted_example =
    delete-IsDeleted json memory memory-IsLawful tagged_notes one_db notes-IsName (refl, tt)
      one_db-Consistent by_t log [] by_t-HasTexts

empty_notes-Consistent : Consistent plain memory memory-IsLawful notes empty_db
unfolding view table_rows nookdb.Rows.user_rows nookdb.Rows.lookup
empty_notes-Consistent = record { filed = tt; nul_free = tt; agrees = (λ e id h. refl, tt) }

empty-AllUnique : AllUnique plain memory memory-IsLawful notes empty_db
unfolding view table_rows nookdb.Rows.user_rows nookdb.Rows.lookup
empty-AllUnique = (λ u e j k hj hk p q. absurd (ground (arith, p)), tt)

note-prepared : prepare plain memory notes (note key_a) ≡ ok (key_a, key_a)
unfolding prepare validate_document nookdb.Schema.Ir.field beq get_member doc_id get encode_document
note-prepared = refl

note_back :
    (id stored : Bytes)
    → prepare plain memory notes (note key_a) ≡ ok (id, stored)
    → decode_document plain stored identity_codec ≡ ok (note key_a)
unfolding decode_document
note_back id stored h =
    let p : ok (key_a, key_a) ≡ ok (id, stored) = sym note-prepared ∙ h in
    let same : stored ≡ key_a = ground (arith, p) in ap (λ s. ok (note s)) same

insert-AllUnique_example :
    AllUnique plain memory memory-IsLawful notes
      (insert plain memory notes log empty_db [] (note key_a)).1
insert-AllUnique_example =
    insert-AllUnique plain memory memory-IsLawful notes log empty_db [] (note key_a) notes-IsName
      empty_notes-Consistent empty-AllUnique note_back
