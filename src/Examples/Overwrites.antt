-- ===== src/Examples/Overwrites.antt =====
-- Witness: two inserts of a note under one id, with different tags.
use nookdb.Prelude.{◌≡◌, ◌∙◌, ap, refl, sym, Option, none, some, [], ℕ, arith}
use nookdb.Bytes.{Bytes, bytes, beq}
use nookdb.Collection.Consistent.{Consistent, insert-IsConsistent}
use nookdb.Collection.Filter.{doc_id}
use nookdb.Collection.Indexed.{encoded}
use nookdb.Collection.Inserted.{insert_lem}
use nookdb.Collection.Overwritten.{insert-overwrite}
use nookdb.Collection.Writes.{prepare, insert}
use nookdb.Database.{Database}
use nookdb.Database.Atomic.{view}
use nookdb.Doc.{decode_document, encode_document, identity_codec}
use nookdb.Error.{ok}
use nookdb.Examples.{plain, log, empty_db, notes-IsName}
use nookdb.Examples.Indexes.{by_tag, tagged_notes, key_a}
use nookdb.Index.{key}
use nookdb.Json.{Value, External, member, end, object, string, get, get_member}
use nookdb.Redb.Memory.{Table, memory, memory-IsLawful}
use nookdb.Rows.{lookup}
use nookdb.Schema.Ir.{FieldType, FieldIr, IndexIr}
use nookdb.Schema.Validate.{validate_document}
use nookdb.Storage.Pure.{table_rows}

-- the note `a` with a tag; its stored bytes are the tag
abbrev tagged : Bytes → Value ℕ
tagged tag = object (member (bytes "_id") (string key_a) (member (bytes "tag") (string tag) end))

abbrev tag_text : Value ℕ → Option Bytes
tag_text (object (member k id (member j (string tag) end))) = some tag
tag_text _ = none

abbrev json : External ℕ ℕ
json = record plain { to_vec = tag_text; from_slice = λ s. some (tagged s) }

abbrev tag_t : Bytes
tag_t = bytes "t"

abbrev tag_u : Bytes
tag_u = bytes "u"

t-prepared : prepare json memory tagged_notes (tagged tag_t) ≡ ok (key_a, tag_t)
unfolding prepare validate_document nookdb.Schema.Ir.field beq get_member doc_id get encode_document
t-prepared = refl

u-prepared : prepare json memory tagged_notes (tagged tag_u) ≡ ok (key_a, tag_u)
unfolding prepare validate_document nookdb.Schema.Ir.field beq get_member doc_id get encode_document
u-prepared = refl

empty-Consistent : Consistent json memory memory-IsLawful tagged_notes empty_db
unfolding view table_rows nookdb.Rows.user_rows lookup
empty-Consistent = record { filed = tt; nul_free = tt; agrees = (λ e id h. refl, tt) }

is_new :
    (id stored : Bytes)
    → prepare json memory tagged_notes (tagged tag_t) ≡ ok (id, stored)
    → (lookup id (view memory memory-IsLawful empty_db (bytes "notes")) ≡ none)
      × (decode_document json stored identity_codec ≡ ok (tagged tag_t))
unfolding view table_rows nookdb.Rows.user_rows lookup decode_document
is_new id stored h =
    let p : ok (key_a, tag_t) ≡ ok (id, stored) = sym t-prepared ∙ h in
    let same : stored ≡ tag_t = ground (arith, p) in (refl, ap (λ s. ok (tagged s)) same)

-- the database that holds the note with the tag `t`
abbrev t_db : Database Table
t_db = (insert json memory tagged_notes log empty_db [] (tagged tag_t)).1

t_db-Consistent : Consistent json memory memory-IsLawful tagged_notes t_db
t_db-Consistent =
    insert-IsConsistent json memory memory-IsLawful tagged_notes log empty_db [] (tagged tag_t)
      notes-IsName (refl, tt) empty-Consistent is_new

t-held : lookup key_a (view memory memory-IsLawful t_db (bytes "notes")) ≡ some tag_t
unfolding view table_rows nookdb.Rows.user_rows lookup nookdb.Rows.insert beq
t-held =
    rw
      (insert_lem json memory memory-IsLawful tagged_notes log empty_db [] (tagged tag_t) key_a
        tag_t (bytes "notes") notes-IsName notes-IsName t-prepared refl).1
      refl

-- the key of the entry of the tag `t`
abbrev old_key : Bytes
old_key =
    key (bytes "notes") (bytes "tag") (encoded json tagged_notes (bytes "tag") (tagged tag_t)) key_a

-- the database after the second insert
abbrev u_db : Database Table
u_db = (insert json memory tagged_notes log t_db [] (tagged tag_u)).1

insert-overwrite_example :
    (lookup key_a (view memory memory-IsLawful u_db (bytes "notes")) ≡ some tag_u)
    × (lookup old_key (table_rows memory memory-IsLawful u_db.store.index) ≡ some key_a)
    × (¬ Consistent json memory memory-IsLawful tagged_notes u_db)
unfolding decode_document get get_member beq nookdb.Index.encode_index_value
insert-overwrite_example =
    insert-overwrite json memory memory-IsLawful tagged_notes log t_db [] (tagged tag_u)
      (tagged tag_t) key_a tag_u tag_t notes-IsName t_db-Consistent u-prepared refl refl t-held refl
      [] [] by_tag refl refl
