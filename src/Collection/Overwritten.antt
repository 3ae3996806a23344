-- ===== src/Collection/Overwritten.antt =====
-- About an `insert` of crates/nookdb-core/src/collection.rs under an id that a document has already: the
-- code puts the new entries and does not delete those of the old document.
use nookdb.Prelude.{
  subst, ◌≡◌, ◌∙◌, refl, sym, false, none, some, List, [], ◌∷◌, ◌++◌, All, find, arith,
}
use nookdb.Bytes.{Bytes, beq, beq_refl}
use nookdb.Codec.Keys.{IsName}
use nookdb.Collection.{Collection}
use nookdb.Collection.Consistent.{Consistent, index-insert, prepare-id}
use nookdb.Collection.Indexed.{Agrees, encoded, entry}
use nookdb.Collection.Inserted.{taken, insert_lem}
use nookdb.Collection.Kept.{lookup-with_rows}
use nookdb.Collection.Writes.{prepare, insert}
use nookdb.Database.{Database}
use nookdb.Database.Atomic.{view}
use nookdb.Doc.{decode_document}
use nookdb.Error.{ok}
use nookdb.Index.{key}
use nookdb.Json.{Value, External}
use nookdb.Notify.{Observers}
use nookdb.Redb.{Redb, IsLawful}
use nookdb.Rows.{lookup}
use nookdb.Rows.Laws.{lookup-insert}
use nookdb.Schema.Ir.{IndexIr}
use nookdb.Storage.Pure.{table_rows}

All-middle :
    {A : Type 0} (P : A → Type 0) (before after : List A) (a : A)
    → All P (before ++ a ∷ after)
    → P a
All-middle P [] after a h = h.0
All-middle P (b ∷ before) after a h = All-middle P before after a h.1

module _ {N F T W : Type 0} (x : External N F) (r : Redb T) (law : IsLawful r) (c : Collection F)
    (obs : Observers W) (db : Database T) (w : W) (doc old : Value N) (id stored b : Bytes)
    (name : IsName c.name) (con : Consistent x r law c db)
    (prepared : prepare x r c doc ≡ ok (id, stored))
    (back : decode_document x stored c.codec ≡ ok doc)
    (free : find (taken x r law c (table_rows r law db.store.index) doc) c.ir.indexes ≡ none)
    (there : lookup id (view r law db c.name) ≡ some b)
    (held : decode_document x b c.codec ≡ ok old) (before after : List IndexIr) (idx : IndexIr)
    (indexed : c.ir.indexes ≡ before ++ idx ∷ after)
    (changed : beq (encoded x c idx.field doc) (encoded x c idx.field old) ≡ false) where
  abbrev old_key : Bytes
  old_key = key c.name idx.field (encoded x c idx.field old) id

  -- What a consistent state tells of the entry.
  agreed :
      (now : Database T)
      → Consistent x r law c now
      → lookup old_key (table_rows r law now.store.index)
        ≡ entry x c idx.field (encoded x c idx.field old) id (lookup id (view r law now c.name))
  agreed now h =
      let P : IndexIr → Type 0 =
        Agrees x c (table_rows r law now.store.index) (view r law now c.name) in
      All-middle P before after idx (subst (All P) indexed h.agrees) (encoded x c idx.field old) id
        (prepare-id x r law c doc id stored prepared).1

  old_entry : lookup old_key (table_rows r law db.store.index) ≡ some id
  old_entry = agreed db con ∙ rw (there, held, beq_refl (encoded x c idx.field old)) refl

  entry_left : lookup old_key (table_rows r law (insert x r c obs db w doc).1.store.index) ≡ some id
  entry_left =
      rw
        (
          index-insert x r law c obs db w doc id stored name prepared free,
          lookup-with_rows x c doc id old_key c.ir.indexes (table_rows r law db.store.index),
          old_entry,
        )
        (ground arith)

  overwritten : lookup id (view r law (insert x r c obs db w doc).1 c.name) ≡ some stored
  overwritten =
      rw
        (
          (insert_lem x r law c obs db w doc id stored c.name name name prepared free).1,
          beq_refl c.name,
        )
        (lookup-insert id id stored (view r law db c.name) ∙ rw (beq_refl id) refl)

  -- Over a lawful engine, from a consistent collection: an `insert` that no unique index blocks, of a
  -- document under an id that a stored document has, with another text in an index, overwrites the
  -- document and leaves the old entry of the index, which is not consistent any more.
  pub insert-overwrite :
      (lookup id (view r law (insert x r c obs db w doc).1 c.name) ≡ some stored)
      × (lookup old_key (table_rows r law (insert x r c obs db w doc).1.store.index) ≡ some id)
      × (¬ Consistent x r law c (insert x r c obs db w doc).1)
  insert-overwrite = (
    overwritten,
    entry_left,
    λ now.
        let left =
          agreed (insert x r c obs db w doc).1 now ∙ rw (overwritten, back, changed) refl in
        let both : some id ≡ none = sym entry_left ∙ left in absurd (ground (arith, both)),
  )
