-- ===== src/Collection/Inserted.antt =====
-- About `insert` of crates/nookdb-core/src/collection.rs for a prepared document: the unique indexes,
-- what is stored, and a read by id after it.
use nookdb.Codec.Keys.{IsName}
use nookdb.Rows.Users.{composite, user_rows-insert}
use nookdb.Rows.Laws.{lookup-insert}
use nookdb.Bytes.{beq, beq_refl}
use nookdb.Notify.{dispatch, ChangeOp}
use nookdb.Collection.Reads.{by_id, decode_found}
use nookdb.Collection.Writes.{prepare, insert, insert_prepared}
use nookdb.Database.{Database}
use nookdb.Database.Atomic.{view, fresh, rows-opened, write-commit, write-fail}
use nookdb.Doc.{decode_document}
use nookdb.Notify.{Observers}
use nookdb.Storage.Pure.{put_ok, change, table_rows, table_rows-IsSorted}
use nookdb.Prelude.{◌++◌, if◌then◌else◌}
use nookdb.Prelude.{
  some, Bool-cases, ◌≡◌, refl, false, List, [], ◌∷◌, arith, inl, inr, none, find, Bool,
  if◌then◌else◌,
}
use nookdb.Bytes.{Bytes}
use nookdb.Collection.{Collection}
use nookdb.Collection.Writes.{put_entries, insert_validated_in_tx, check_unique, indexed}
use nookdb.Error.{duplicate, conflicting, err, ok}
use nookdb.Index.{put_index_entry, key, prefix, encode_index_value, index_value_exists_writing}
use nookdb.Index.Exact.{has_entry, nonempty-has_entry}
use nookdb.Json.{Value, External}
use nookdb.Redb.{Redb, IsLawful}
use nookdb.Rows.{slice}
use nookdb.Rows
use nookdb.Storage.Pure.{read_get}
use nookdb.Collection.Reads.{decode_found}
use nookdb.Rows.{lookup}
use nookdb.Database.Atomic.{read_lem}
use nookdb.Schema.Ir.{IndexIr}
use nookdb.Storage.Pure.{index_put_ok, write_index}
use nookdb.Storage.Tx.{WriteTx}

module _ {N F T : Type 0} (x : External N F) (r : Redb T) (law : IsLawful r)
    (c : Collection F) where
  open law use {rows, inserted}

  -- A unique index has an entry whose key begins with the names of the collection and the field and
  -- the text of the document's value, each with a NUL after it.
  abbrev pub taken : List (Bytes × Bytes) → Value N → IndexIr → Bool
  taken index doc idx =
      if idx.unique
      then has_entry c.name idx.field (encode_index_value x (indexed doc idx)) index
      else false

  exists_ok :
      (field : Bytes) (v : Value N) (tx : WriteTx T)
      → index_value_exists_writing x r c.name field v tx
        ≡ ok (has_entry c.name field (encode_index_value x v) (rows tx.index_table), tx)
  unfolding index_value_exists_writing
  exists_ok field v tx =
      let (lo, hi) = prefix c.name field (encode_index_value x v) in
      ground (
        arith,
        write_index r law lo hi tx,
        nonempty-has_entry c.name field (encode_index_value x v) (rows tx.index_table),
      )

  check_unique_ok :
      (doc : Value N) (idxs : List IndexIr) (tx : WriteTx T)
      → find (taken (rows tx.index_table) doc) idxs ≡ none
      → check_unique x r c doc idxs tx ≡ ok (tt, tx)
  unfolding check_unique
  check_unique_ok doc [] tx h = refl
  check_unique_ok doc (idx ∷ idxs) tx h = elim (Bool-cases idx.unique) [
    | inl u ↦ ground (arith, exists_ok idx.field (indexed doc idx) tx, check_unique_ok doc idxs tx)
    | inr u ↦ ground (arith, check_unique_ok doc idxs tx)
  ]

  check_unique-taken :
      (doc : Value N) (idxs : List IndexIr) (tx : WriteTx T) (hit : IndexIr)
      → find (taken (rows tx.index_table) doc) idxs ≡ some hit
      → check_unique x r c doc idxs tx ≡ err (conflicting (duplicate c.name hit.field))
  unfolding check_unique
  check_unique-taken doc [] tx hit h = absurd (ground arith)
  check_unique-taken doc (idx ∷ idxs) tx hit h =
      elim (Bool-cases (taken (rows tx.index_table) doc idx)) [
        | inl u ↦ ground (arith, exists_ok idx.field (indexed doc idx) tx)
        | inr u ↦
            ground
              (arith, exists_ok idx.field (indexed doc idx) tx, check_unique-taken doc idxs tx hit)
      ]

  -- The index table with the entries of a document.
  abbrev pub with_entries : Value N → Bytes → List IndexIr → T → T
  with_entries doc id [] t = t
  with_entries doc id (idx ∷ idxs) t =
      with_entries doc id idxs
        (inserted t (key c.name idx.field (encode_index_value x (indexed doc idx)) id) id)

  put_entries_ok :
      (doc : Value N) (id : Bytes) (idxs : List IndexIr) (tx : WriteTx T)
      → put_entries x r c doc id idxs tx
        ≡ ok (tt, record tx { index_table = with_entries doc id idxs tx.index_table })
  unfolding put_entries put_index_entry
  put_entries_ok doc id [] tx = refl
  put_entries_ok doc id (idx ∷ idxs) tx =
      let k = key c.name idx.field (encode_index_value x (indexed doc idx)) id in
      ground (
        arith,
        index_put_ok r law k id tx,
        put_entries_ok doc id idxs (record tx { index_table = inserted tx.index_table k id }),
      )

  pub insert_validated_ok :
      (doc : Value N) (id stored : Bytes) (tx : WriteTx T)
      → IsName c.name
      → find (taken (rows tx.index_table) doc) c.ir.indexes ≡ none
      → insert_validated_in_tx x r c doc id stored tx
        ≡ ok (
          tt,
          record {
            table = inserted tx.table (composite c.name id) stored;
            index_table = with_entries doc id c.ir.indexes tx.index_table;
            touched = tx.touched ++ change c.name ChangeOp.insert id ∷ [];
          },
        )
  unfolding insert_validated_in_tx
  insert_validated_ok doc id stored tx n h = ground (
    arith,
    check_unique_ok doc c.ir.indexes tx h,
    put_ok r law c.name id stored tx n,
    put_entries_ok doc id c.ir.indexes (record tx {
      table = inserted tx.table (composite c.name id) stored;
      touched = tx.touched ++ change c.name ChangeOp.insert id ∷ [];
    }),
  )

  module _ {W : Type 0} (obs : Observers W) (db : Database T) (w : W) where
    -- Over a lawful engine, if the committed index table has a key that begins with the name of the
    -- collection, the field of a unique index and the text of the document's value in it, each
    -- followed by a NUL, then the `insert` of a prepared document is rejected with a conflict on
    -- the first such index; the database is as it was, and no observer is called.
    pub insert-conflict :
        (doc : Value N) (id stored : Bytes) (hit : IndexIr)
        → prepare x r c doc ≡ ok (id, stored)
        → find (taken (table_rows r law db.store.index) doc) c.ir.indexes ≡ some hit
        → insert x r c obs db w doc ≡ (err (conflicting (duplicate c.name hit.field)), db, w)
    unfolding insert insert_prepared insert_validated_in_tx
    insert-conflict doc id stored hit p h =
        let k : find (taken (rows (fresh r law db).index_table) doc) c.ir.indexes ≡ some hit =
          rw (rows-opened r law) h in
        rw p (
          write-fail r law obs db w (insert_validated_in_tx x r c doc id stored) _
            (ground (arith, check_unique-taken doc c.ir.indexes (fresh r law db) hit k)))

    -- Over a lawful engine, for an accepted collection name: if the document is prepared to an id
    -- and stored bytes, and for no unique index the committed index table has a key that begins with
    -- the name of the collection, the field and the text of the document's value, each followed by a
    -- NUL, then `insert` succeeds: the stored bytes are inserted under the id into the rows of the collection, every
    -- other collection keeps its rows, and the observers are told of exactly this change.
    pub insert_lem :
        (doc : Value N) (id stored d : Bytes)
        → IsName c.name
        → IsName d
        → prepare x r c doc ≡ ok (id, stored)
        → find (taken (table_rows r law db.store.index) doc) c.ir.indexes ≡ none
        → (let out = insert x r c obs db w doc in
            (out.0 ≡ ok tt)
            × (view r law out.1 d ≡ (
                if beq c.name d then Rows.insert id stored (view r law db d) else view r law db d))
            × (out.2
                ≡ dispatch obs db.notifier
                    (record { changes = change c.name ChangeOp.insert id ∷ [] })
                    w))
    unfolding insert insert_prepared view table_rows
    insert_lem doc id stored d n g p h =
        let k : find (taken (rows (fresh r law db).index_table) doc) c.ir.indexes ≡ none =
          rw (rows-opened r law) h in
        rw
          (
            p,
            write-commit r law obs db w (insert_validated_in_tx x r c doc id stored) tt _
                (insert_validated_ok doc id stored (fresh r law db) n k),
          )
          (
            refl,
            rw (law.rows-inserted, rows-opened r law)
                (user_rows-insert d c.name id stored _ g n
                  (table_rows-IsSorted r law db.store.entries)),
            refl,
          )

    -- Over a lawful engine, for an accepted collection name: after an `insert` of a prepared
    -- document that no unique index blocks, the lookup of its id returns exactly the document, if
    -- the stored bytes decode to it.
    pub by_id-insert :
        (doc : Value N) (id stored : Bytes)
        → IsName c.name
        → prepare x r c doc ≡ ok (id, stored)
        → find (taken (table_rows r law db.store.index) doc) c.ir.indexes ≡ none
        → decode_document x stored c.codec ≡ ok doc
        → by_id x r c (insert x r c obs db w doc).1 id ≡ ok (doc ∷ [])
    unfolding by_id decode_found view
    by_id-insert doc id stored n p h d =
        let made = insert_lem doc id stored c.name n n p h in
        let found : lookup id (view r law (insert x r c obs db w doc).1 c.name) ≡ some stored =
          rw made.1 (
            ground (
              arith,
              lookup-insert id id stored (view r law db c.name),
              beq_refl id,
              beq_refl c.name,
            )) in
        rw (read_lem r law, read_get r law _ c.name id n, found, d)
